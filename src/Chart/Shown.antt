-- ===== src/Chart/Shown.antt =====
-- What the chart shows, in every history of its events.
use mathlib.Core.List.{foldl}
use copilot_api_dashboard.Base.{
  ℕ, zero, suc, ◌≤◌, ◌<◌, Bool, true, false, some, List, [], ◌∷◌, ◌&&◌, ◌||◌, not, ◌≡◌, length,
  get_elem?, All, if_elim, arith, refl, Option-cases, inl, inr,
}
use copilot_api_dashboard.Model.{Day}
use copilot_api_dashboard.Number.{Number, IsNumber, ◌≼◌, max_safe_integer}
use copilot_api_dashboard.Chart.{Layout}
use copilot_api_dashboard.Chart.Bounds.{trend_index_at_bounds}
use copilot_api_dashboard.Chart.Plot.{
  Plot, Key, arrow_left, arrow_right, home, end, escape, other, PlotEvent, pointer_move,
  pointer_down, pointer_leave, focus, blur, key_down, is_selected, hide, position_of, x_of, y_of,
  show_day, show, show_number, show_at_pointer, focus_plot, key_listener, plot_step, drawn,
  plot_run,
}

module _ {ℓ} {W : Type ℓ} ⦃n : Number W⦄ (days : List (Day W)) (width : W) where
  -- The plot shows this day at its point.
  pub record Describes (i : ℕ) (p : Plot W) : Type ℓ where
    pub day : Day W
    pub is_day : get_elem? days i ≡ some day
    pub told : p.described ≡ some day
    pub guide : p.guide_x ≡ x_of days width i
    pub point : p.active_point ≡ (x_of days width i, y_of days width day)

  pub record Shown (p : Plot W) : Type ℓ where
    pub working : p.failed ≡ false
    -- the three marks are hidden together
    pub guide_with_tooltip : p.guide_hidden ≡ p.tooltip_hidden
    pub active_with_tooltip : p.active_hidden ≡ p.tooltip_hidden
    -- the selected day is one of the days, and a visible tooltip describes it
    pub in_range : (i : ℕ) → p.selected ≡ some i → i < length days
    pub visible : p.tooltip_hidden ≡ false → (i : ℕ) × (p.selected ≡ some i) × Describes i p

  get_elem?-lt_length :
      (ds : List (Day W)) (i : ℕ) (d : Day W) → get_elem? ds i ≡ some d → i < length ds
  get_elem?-lt_length [] i d h = cc
  get_elem?-lt_length (x ∷ ds) zero d h = omega arith
  get_elem?-lt_length (x ∷ ds) (suc i) d h = omega (arith, get_elem?-lt_length ds i d h)

  show-Shown : (l : Layout W) (i : ℕ) (p : Plot W) → Shown p → Shown (show days width l i p)
  unfolding show show_day
  show-Shown l i p s = elim (Option-cases (get_elem? days i)) [
    | inl e ↦ rw (show, e) s
    | inr (d, e) ↦
        rw (show, e)
          (if_elim Shown (is_selected i p.selected && not p.tooltip_hidden) (λ h. s)
            (λ h. record {
              working = s.working;
              guide_with_tooltip = refl;
              active_with_tooltip = refl;
              in_range = λ j k. ground (arith, get_elem?-lt_length days i d e);
              visible = λ k. (
                i,
                refl,
                record { day = d; is_day = e; told = refl; guide = refl; point = refl },
              );
            }))
  ]

  hide-Shown : (reset : Bool) (p : Plot W) → Shown p → Shown (hide reset p)
  unfolding hide
  hide-Shown true p s = record {
    working = s.working;
    guide_with_tooltip = refl;
    active_with_tooltip = refl;
    in_range = λ i h. cc;
    visible = λ h. cc;
  }
  hide-Shown false p s = record {
    working = s.working;
    guide_with_tooltip = refl;
    active_with_tooltip = refl;
    in_range = s.in_range;
    visible = λ h. cc;
  }

  -- The position of a pointer on the axis of the days is a number.
  abbrev pub IsPositioned : PlotEvent W → Type 0
  IsPositioned (pointer_move l client_x) = n.is_nan (position_of width l.bounds client_x) ≡ false
  IsPositioned (pointer_down l client_x is_mouse) =
      n.is_nan (position_of width l.bounds client_x) ≡ false
  IsPositioned event = Unit

  -- The focus is no part of what the plot shows.
  refocused-Shown : (p : Plot W) (f : Bool) → Shown p → Shown (record p { focused = f })
  refocused-Shown p f s = record {
    working = s.working;
    guide_with_tooltip = s.guide_with_tooltip;
    active_with_tooltip = s.active_with_tooltip;
    in_range = s.in_range;
    visible = λ h.
        let (i, at, d) = s.visible h in
        (
          i,
          at,
          record {
            day = d.day;
            is_day = d.is_day;
            told = d.told;
            guide = d.guide;
            point = d.point;
          },
        );
  }

  focus_plot-Shown : (l : Layout W) (p : Plot W) → Shown p → Shown (focus_plot days width l p)
  unfolding focus_plot
  focus_plot-Shown l p s = show-Shown l _ (record p { focused = true }) (refocused-Shown p true s)

  key_listener-Shown :
      (l : Layout W) (key : Key) (p : Plot W) → Shown p → Shown (key_listener days width l key p)
  unfolding key_listener
  key_listener-Shown l arrow_left p s = show-Shown l _ p s
  key_listener-Shown l arrow_right p s = show-Shown l _ p s
  key_listener-Shown l home p s = show-Shown l _ p s
  key_listener-Shown l end p s = show-Shown l _ p s
  key_listener-Shown l escape p s = hide-Shown false p s
  key_listener-Shown l other p s = s

  module _ (laws : IsNumber W) (some_day : 0 < length days) (few : length days ≤ max_safe_integer)
      (fin : n.is_finite width ≡ true) (wide : n.of_ℕ 280 ≼ width) where
    open laws use {
      finite_of_bounds, finite_numeral, le_numeral, le_trans, sub_le, sub_mono, sub_numeral,
    }

    end-in_range :
        (n.is_finite (n.sub width (n.of_ℕ 12)) ≡ true) × (n.of_ℕ 50 ≼ n.sub width (n.of_ℕ 12))
    end-in_range =
        let twelve = finite_numeral 12 (omega arith) in
        let least : n.of_ℕ 268 ≼ n.sub width (n.of_ℕ 12) =
          rw (← sub_numeral 12 280 (omega arith) (omega arith))
            (sub_mono (n.of_ℕ 280) width (n.of_ℕ 12) twelve wide) in
        (
          finite_of_bounds (n.of_ℕ 268) (n.sub width (n.of_ℕ 12)) width
              (finite_numeral 268 (omega arith)) fin least
              (sub_le width (n.of_ℕ 12) fin twelve (le_numeral 0 12 (omega arith) (omega arith))),
          le_trans (n.of_ℕ 50) (n.of_ℕ 268) _ (le_numeral 50 268 (omega arith) (omega arith)) least,
        )

    show_at_pointer-Shown :
        (l : Layout W) (client_x : W) (p : Plot W)
        → n.is_nan (position_of width l.bounds client_x) ≡ false
        → Shown p
        → Shown (show_at_pointer days width l client_x p)
    unfolding show_at_pointer show_number
    show_at_pointer-Shown l client_x p num s =
        let (i, lt, same) =
          trend_index_at_bounds laws (position_of width l.bounds client_x) (n.of_ℕ 50)
            (n.sub width (n.of_ℕ 12)) (length days) num
            (le_numeral 0 50 (omega arith) (omega arith)) end-in_range.0 end-in_range.1 some_day
            few in
        rw (show_at_pointer, show_number, same) (show-Shown l i p s)

    plot_step-Shown :
        (p : Plot W) (event : PlotEvent W)
        → IsPositioned event
        → Shown p
        → Shown (plot_step days width p event)
    unfolding plot_step
    plot_step-Shown p (pointer_move l client_x) num s = show_at_pointer-Shown l client_x p num s
    plot_step-Shown p (pointer_down l client_x is_mouse) num s =
        let shown = show_at_pointer-Shown l client_x p num s in
        if_elim Shown (is_mouse || (show_at_pointer days width l client_x p).focused) (λ h. shown)
          (λ h. focus_plot-Shown l _ shown)
    plot_step-Shown p (pointer_leave is_mouse) num s =
        if_elim Shown is_mouse (λ h. hide-Shown false p s) (λ h. s)
    plot_step-Shown p (focus l) num s =
        if_elim Shown p.focused (λ h. s) (λ h. focus_plot-Shown l p s)
    plot_step-Shown p blur num s =
        hide-Shown true (record p { focused = false }) (refocused-Shown p false s)
    plot_step-Shown p (key_down l key) num s =
        if_elim Shown p.focused (λ h. key_listener-Shown l key p s) (λ h. s)

    steps-Shown :
        (events : List (PlotEvent W)) (p : Plot W)
        → All IsPositioned events
        → Shown p
        → Shown (foldl (plot_step days width) p events)
    steps-Shown [] p h s = s
    steps-Shown (event ∷ events) p h s =
        steps-Shown events (plot_step days width p event) h.1 (plot_step-Shown p event h.0 s)

    pub run-Shown :
        (events : List (PlotEvent W)) → All IsPositioned events → Shown (plot_run days width events)
    run-Shown events h = steps-Shown events (drawn days width) h (record {
      working = refl;
      guide_with_tooltip = refl;
      active_with_tooltip = refl;
      in_range = λ i k. cc;
      visible = λ k. cc;
    })
