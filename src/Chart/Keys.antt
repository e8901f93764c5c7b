-- ===== src/Chart/Keys.antt =====
-- The chart on its own width, and the keys that go through its days.
use Prim.Native.Nat.{pred, min}
use mathlib.Core.List.{foldl}
use copilot_api_dashboard.Base.{
  ℕ, zero, suc, ◌+◌, ◌-◌, if◌then◌else◌, if_elim, subst, ap, sym, ◌≤◌, ◌<◌, Bool, true, false,
  Option, none, some, List, [], ◌∷◌, ◌≡◌, ◌∙◌, ◌&&◌, not, length, get_elem?, All, arith, refl, inl,
  inr,
}
use copilot_api_dashboard.Model.{Day}
use copilot_api_dashboard.Number.{Number, IsNumber, ◌≼◌, max_safe_integer}
use copilot_api_dashboard.Chart.{Layout, chart_width}
use copilot_api_dashboard.Chart.Plot.{
  Plot, Key, arrow_left, arrow_right, home, end, PlotEvent, key_down, is_selected, show_day, show,
  current, key_listener, plot_step, plot_run,
}
use copilot_api_dashboard.Chart.Shown.{Shown, IsPositioned, run-Shown}

module _ {ℓ} {W : Type ℓ} ⦃n : Number W⦄ (laws : IsNumber W) (client_width : W)
    (fin : n.is_finite client_width ≡ true) where
  open laws use {
    finite-not_nan, finite_of_bounds, finite_numeral, le_numeral, sub_le, sub-not_nan, max_left,
    max_right, max_cases, le_trans,
  }

  chart_width_lem :
      (n.is_finite (chart_width client_width) ≡ true) × (n.of_ℕ 280 ≼ chart_width client_width)
  unfolding chart_width
  chart_width_lem =
      let least = n.of_ℕ 280 in
      let rest = n.sub client_width (n.of_ℕ 32) in
      let fin_least = finite_numeral 280 (omega arith) in
      let fin_margin = finite_numeral 32 (omega arith) in
      let num_least = finite-not_nan least fin_least in
      let num = sub-not_nan client_width (n.of_ℕ 32) fin (finite-not_nan (n.of_ℕ 32) fin_margin) in
      let low = max_left least rest num_least num in
      let high =
        sub_le client_width (n.of_ℕ 32) fin fin_margin
          (le_numeral 0 32 (omega arith) (omega arith)) in
      elim (max_cases least rest num_least num) [
        | inl e ↦ (rw e fin_least, low)
        | inr e ↦ (
          finite_of_bounds least (n.max least rest) client_width fin_least fin low (rw e high),
          low,
        )
      ]

  -- After every sequence of events on a chart of at least one day, in which the pointer's positions are
  -- numbers: no listener has failed, guide, point and tooltip are shown together or not at all, the selected
  -- day is one of the days, and a visible tooltip describes the selected day, with guide and point at the
  -- place of that day.
  pub plot_run-Shown :
      (days : List (Day W)) (events : List (PlotEvent W))
      → 0 < length days
      → length days ≤ max_safe_integer
      → All (IsPositioned days (chart_width client_width)) events
      → Shown days (chart_width client_width) (plot_run days (chart_width client_width) events)
  plot_run-Shown days events some_day few h =
      let (fin_width, wide) = chart_width_lem in
      run-Shown days (chart_width client_width) laws some_day few fin_width wide events h

module _ {ℓ} {W : Type ℓ} ⦃n : Number W⦄ (days : List (Day W)) (width : W) where
  get_elem?-some :
      (ds : List (Day W)) (i : ℕ) → i < length ds → (d : Day W) × (get_elem? ds i ≡ some d)
  get_elem?-some [] i h = absurd (omega arith)
  get_elem?-some (d ∷ ds) zero h = (d, refl)
  get_elem?-some (d ∷ ds) (suc i) h = get_elem?-some ds i (omega arith)

  -- The plot has the focus and shows this day.
  abbrev pub At : ℕ → Plot W → Type 0
  At i p = (p.selected ≡ some i) × (p.tooltip_hidden ≡ false) × (p.focused ≡ true)

  is_selected-At :
      (i : ℕ) (p : Plot W)
      → p.focused ≡ true
      → (o : Option ℕ) → p.selected ≡ o
      → (is_selected i o && not p.tooltip_hidden) ≡ true
      → At i p
  is_selected-At i p f none e h = cc
  is_selected-At i p f (some j) e h = ground arith

  show-At :
      (l : Layout W) (i : ℕ) (p : Plot W)
      → i < length days
      → p.focused ≡ true
      → At i (show days width l i p)
  unfolding show show_day
  show-At l i p h f =
      let (d, e) = get_elem?-some days i h in
      rw (show, e)
        (if_elim {A = Plot W} (At i) (is_selected i p.selected && not p.tooltip_hidden) {x = p}
          {y = show_day days width l i d p} (λ same. is_selected-At i p f p.selected refl same)
          (λ other. (refl, refl, f)))

  -- With the focus a key that shows a day shows it.
  key_down-At :
      (l : Layout W) (key : Key) (i j : ℕ) (p : Plot W)
      → i < length days
      → p.focused ≡ true
      → key_listener days width l key p ≡ show days width l j p
      → j ≡ i
      → At i (plot_step days width p (key_down l key))
  unfolding plot_step
  key_down-At l key i j p h f listens same =
      let heard : plot_step days width p (key_down l key) ≡ key_listener days width l key p =
        ap (λ (b : Bool). if b then key_listener days width l key p else p) f in
      subst (At i) (sym (heard ∙ listens ∙ ap (λ k. show days width l k p) same))
        (show-At l i p h f)

  -- `k` times the same key
  abbrev pub presses : ℕ → PlotEvent W → List (PlotEvent W)
  presses zero e = []
  presses (suc k) e = e ∷ presses k e

  current-At : (i : ℕ) (p : Plot W) → At i p → current days width p ≡ i
  current-At i p at = ap (λ (o : Option ℕ). elim o [ none ↦ length days - 1 | some j ↦ j ]) at.0

  right-At :
      (l : Layout W) (i : ℕ) (p : Plot W)
      → i < length days
      → At i p
      → At (min (length days - 1) (suc i)) (plot_step days width p (key_down l arrow_right))
  unfolding key_listener
  right-At l i p h at =
      key_down-At l arrow_right _ _ p (omega arith) at.2 refl
        (ap (λ j. min (length days - 1) (suc j)) (current-At i p at))

  rights-At :
      (l : Layout W) (k i : ℕ) (p : Plot W)
      → i < length days
      → At i p
      → At
          (min (length days - 1) (i + k))
          (foldl (plot_step days width) p (presses k (key_down l arrow_right)))
  rights-At l zero i p h at =
      let same : i ≡ min (length days - 1) (i + 0) = omega arith in subst (λ j. At j p) same at
  rights-At l (suc k) i p h at =
      let last = length days - 1 in
      let same : min last (min last (suc i) + k) ≡ min last (i + suc k) = omega arith in
      subst (λ j. At j (foldl (plot_step days width) p (presses (suc k) (key_down l arrow_right))))
        same
        (rights-At l k (min last (suc i)) (plot_step days width p (key_down l arrow_right))
          (omega arith) (right-At l i p h at))

  left-At :
      (l : Layout W) (i : ℕ) (p : Plot W)
      → i < length days
      → At i p
      → At (pred i) (plot_step days width p (key_down l arrow_left))
  unfolding key_listener
  left-At l i p h at =
      key_down-At l arrow_left _ _ p (omega arith) at.2 refl (ap pred (current-At i p at))

  lefts-At :
      (l : Layout W) (k i : ℕ) (p : Plot W)
      → i < length days
      → At i p
      → At (i - k) (foldl (plot_step days width) p (presses k (key_down l arrow_left)))
  lefts-At l zero i p h at = let same : i ≡ i - 0 = omega arith in subst (λ j. At j p) same at
  lefts-At l (suc k) i p h at =
      let same : pred i - k ≡ i - suc k = omega arith in
      subst (λ j. At j (foldl (plot_step days width) p (presses (suc k) (key_down l arrow_left))))
        same
        (lefts-At l k (pred i) (plot_step days width p (key_down l arrow_left)) (omega arith)
          (left-At l i p h at))

  -- In a plot of at least one day that has the focus, Home and `k` times the right arrow show the day `k`
  -- places behind the first, or the last day if there are not so many; End and `k` times the left arrow show
  -- the day `k` places before the last, or the first.
  pub plot_step-At :
      (l : Layout W) (k : ℕ) (p : Plot W)
      → 0 < length days
      → p.focused ≡ true
      → At
          (min (length days - 1) k)
          (foldl (plot_step days width) p (key_down l home ∷ presses k (key_down l arrow_right)))
        × At
            (length days - 1 - k)
            (foldl (plot_step days width) p (key_down l end ∷ presses k (key_down l arrow_left)))
  unfolding key_listener
  plot_step-At l k p some_day f =
      let last = length days - 1 in
      let zero_add : 0 + k ≡ k = omega arith in
      (
        subst
            (λ j. At (min last j) (
              foldl (plot_step days width) p
                (key_down l home ∷ presses k (key_down l arrow_right))))
            zero_add (rights-At l k 0 _ some_day (key_down-At l home 0 0 p some_day f refl refl)),
        lefts-At l k last _ (omega arith) (key_down-At l end last last p (omega arith) f refl refl),
      )
