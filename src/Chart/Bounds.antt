-- ===== src/Chart/Bounds.antt =====
-- The places on the chart are in their ranges.
use copilot_api_dashboard.Base.{
  ℕ, ◌-◌, ◌≤◌, ◌<◌, true, false, some, ◌≡◌, ◌||◌, leb, arith, Bool-cases, inl, inr, List, [], ◌∷◌,
  All, All_mono, map, Option-cases, if_elim, subst,
}
use copilot_api_dashboard.Number.{Number, IsNumber, ◌≼◌, max_safe_integer}
use copilot_api_dashboard.Chart.{
  Layout, day_value, trend_index_at, max_value, point_y, inset, gap, clamp, last_place,
  tooltip_place, above, below, max_top, beside_left, beside_right,
}
use copilot_api_dashboard.Chart
use copilot_api_dashboard.Model.{Day}
use copilot_api_dashboard.Quota.{numeric_where}
use copilot_api_dashboard.Quota.Bounds.{numeric_where-eq}

module _ {ℓ} {W : Type ℓ} ⦃n : Number W⦄ where
  -- In the plot, inside the margin, along an axis of this size.
  abbrev pub Within : W → W → W → Type 0
  Within size tooltip_size v = (inset ≼ v) × (v ≼ last_place size tooltip_size)

  -- The point of a value, on the scale `max`, lies between the top of the plot and its bottom.
  abbrev pub OnPlot : W → W → Type 0
  OnPlot max v = (n.of_ℕ 12 ≼ point_y max v) × (point_y max v ≼ n.of_ℕ 168)

module _ {ℓ} {W : Type ℓ} ⦃n : Number W⦄ (laws : IsNumber W) where
  open laws use {
    finite-not_nan, not_nan_of_le, lt_numeral, finite_of_bounds, finite_numeral, le_numeral,
    le_refl, le_trans, le_of_not_lt, le_of_lt, le_of_eq, max_left, max_right, max_least, max_cases,
    min_left, min_right, min_greatest, sub_nonneg, sub_le, sub_mono, sub_anti, sub-not_nan,
    div_nonneg, sub_pos, sub_numeral, index_numeral, index-round, div_fraction, mul_nonneg,
    mul_fraction, add_right, lt_of_le-not_eq, not_lt_of_le,
  }

  abbrev zero' : W
  zero' = n.of_ℕ 0

  numeral-not_nan : (k : ℕ) → k ≤ max_safe_integer → n.is_nan (n.of_ℕ k) ≡ false
  numeral-not_nan k h = finite-not_nan (n.of_ℕ k) (finite_numeral k h)

  clamp_bounds :
      (v low high : W)
      → n.is_nan v ≡ false
      → low ≼ high
      → (low ≼ clamp v low high) × (clamp v low high ≼ high)
  clamp_bounds v low high num le =
      let (nan_low, nan_high) = not_nan_of_le low high le in
      let up = max_left low v nan_low num in
      (
        min_greatest high (n.max low v) low le up,
        min_left high (n.max low v) nan_high (not_nan_of_le low (n.max low v) up).1,
      )

  fraction_of :
      (a b k : W)
      → zero' ≼ a
      → a ≼ b
      → n.lt zero' b ≡ true
      → n.is_finite b ≡ true
      → zero' ≼ k
      → n.is_finite k ≡ true
      → (zero' ≼ n.mul (n.div a b) k) × (n.mul (n.div a b) k ≼ k)
  fraction_of a b k low high pos fin whole fin_k =
      let (q_low, q_high) = div_fraction a b low high pos fin in
      let one = finite_numeral 1 (omega arith) in
      let fin_q =
        finite_of_bounds zero' (n.div a b) (n.of_ℕ 1) (finite_numeral 0 (omega arith)) one q_low
          q_high in
      (mul_nonneg _ k fin_q fin_k q_low whole, mul_fraction _ k q_low q_high whole fin_k)

  -- `trendIndexAt` names one of the days, for every position that is a number.
  pub trend_index_at_bounds :
      (position start end : W) (count : ℕ)
      → n.is_nan position ≡ false
      → zero' ≼ start
      → n.is_finite end ≡ true
      → start ≼ end
      → 0 < count
      → count ≤ max_safe_integer
      → (i : ℕ) × (i < count) × (n.index (trend_index_at position start end count) ≡ some i)
  unfolding trend_index_at
  trend_index_at_bounds position start end count num low fin le pos small =
      let fin_start =
        finite_of_bounds zero' start end (finite_numeral 0 (omega arith)) fin low le in
      elim (Bool-cases (leb count 1 || n.le end start)) [
        | inl e ↦ (0, pos, rw e (index_numeral 0 (omega arith)))
        | inr e ↦
            let (lo, hi) = clamp_bounds position start end num le in
            let p = clamp position start end in
            let nan_start = finite-not_nan start fin_start in
            let nan_end = finite-not_nan end fin in
            let fin_p = finite_of_bounds start p end fin_start fin lo hi in
            let before : n.lt start end ≡ true =
              ground (arith, le_of_not_lt start end nan_start nan_end) in
            let fin_d =
              finite_of_bounds zero' (n.sub end start) end (finite_numeral 0 (omega arith)) fin
                (sub_nonneg end start fin le low) (sub_le end start fin fin_start low) in
            let (a, b) =
              fraction_of (n.sub p start) (n.sub end start) (n.of_ℕ (count - 1))
                (sub_nonneg p start fin_p lo low) (sub_mono p end start fin_start hi)
                (sub_pos start end fin_start fin before) fin_d
                (le_numeral 0 (count - 1) (omega arith) (omega arith))
                (finite_numeral (count - 1) (omega arith)) in
            let (j, small_j, same) = index-round _ (count - 1) (omega arith) a b in
            (j, omega arith, rw e same)
      ]

  -- The scale of the chart: finite, at least 1, and at least each value.
  max_value_lem :
      (vs : List W)
      → All (λ v. n.is_finite v ≡ true) vs
      → (n.is_finite (max_value vs) ≡ true)
        × (n.of_ℕ 1 ≼ max_value vs)
        × All (λ v. v ≼ max_value vs) vs
  unfolding max_value
  max_value_lem [] h =
      (finite_numeral 1 (omega arith), le_numeral 1 1 (omega arith) (omega arith), tt)
  max_value_lem (v ∷ vs) h =
      let (fin, one, each) = max_value_lem vs h.1 in
      let nan_v = finite-not_nan v h.0 in
      let nan_m = finite-not_nan (max_value vs) fin in
      let right = max_right v (max_value vs) nan_v nan_m in
      (
        ground (arith, max_cases v (max_value vs) nan_v nan_m),
        le_trans (n.of_ℕ 1) (max_value vs) (n.max v (max_value vs)) one right,
        (
          max_left v (max_value vs) nan_v nan_m,
          All_mono (λ x k. le_trans x (max_value vs) (n.max v (max_value vs)) k right) vs each,
        ),
      )

  pos_of_one_le : (m : W) → n.of_ℕ 1 ≼ m → n.lt zero' m ≡ true
  pos_of_one_le m le =
      let above_0 = le_trans zero' (n.of_ℕ 1) m (le_numeral 0 1 (omega arith) (omega arith)) le in
      elim (Bool-cases (n.eq zero' m)) [
        | inl e ↦
            let back = le_trans (n.of_ℕ 1) m zero' le (le_of_eq zero' m e).1 in
            absurd (
              ground (
                arith,
                not_lt_of_le (n.of_ℕ 1) zero' back,
                lt_numeral 0 1 (omega arith) (omega arith),
              ))
        | inr e ↦ lt_of_le-not_eq zero' m above_0 e
      ]

  point_y_bounds :
      (max v : W)
      → n.is_finite max ≡ true
      → n.of_ℕ 1 ≼ max
      → zero' ≼ v
      → v ≼ max
      → (n.of_ℕ 12 ≼ point_y max v) × (point_y max v ≼ n.of_ℕ 168)
  unfolding point_y
  point_y_bounds max v fin one low high =
      let positive = pos_of_one_le max one in
      let base : n.sub (n.of_ℕ 200) (n.of_ℕ 32) ≡ n.of_ℕ 168 =
        sub_numeral 32 200 (omega arith) (omega arith) in
      let inner : n.sub (n.sub (n.of_ℕ 200) (n.of_ℕ 12)) (n.of_ℕ 32) ≡ n.of_ℕ 156 =
        rw (sub_numeral 12 200 (omega arith) (omega arith))
          (sub_numeral 32 188 (omega arith) (omega arith)) in
      let rest : n.sub (n.of_ℕ 168) (n.of_ℕ 156) ≡ n.of_ℕ 12 =
        sub_numeral 156 168 (omega arith) (omega arith) in
      let (a, b) =
        fraction_of v max (n.of_ℕ 156) low high positive fin
          (le_numeral 0 156 (omega arith) (omega arith)) (finite_numeral 156 (omega arith)) in
      let t = n.mul (n.div v max) (n.of_ℕ 156) in
      let fin_base = finite_numeral 168 (omega arith) in
      let fin_t =
        finite_of_bounds zero' t (n.of_ℕ 156) (finite_numeral 0 (omega arith))
          (finite_numeral 156 (omega arith)) a b in
      rw (point_y, base, inner)
        (
          subst (λ w. w ≼ n.sub (n.of_ℕ 168) t) rest
              (sub_anti (n.of_ℕ 168) t (n.of_ℕ 156) (finite-not_nan _ fin_base) fin_t
                (finite_numeral 156 (omega arith)) b),
          sub_le (n.of_ℕ 168) t fin_base fin_t a,
        )

  -- The candidates along an axis, for a point `s` in the plot.
  module _ (size tooltip_size s : W) (fin : n.is_finite size ≡ true)
      (fin_t : n.is_finite tooltip_size ≡ true) (low_t : zero' ≼ tooltip_size) (low : zero' ≼ s)
      (high : s ≼ size) where
    room-not_nan : n.is_nan (n.sub (n.sub size tooltip_size) inset) ≡ false
    room-not_nan =
        (not_nan_of_le _ _ (
          sub_anti (n.sub size tooltip_size) inset gap
            (sub-not_nan size tooltip_size fin (finite-not_nan tooltip_size fin_t))
            (finite_numeral 8 (omega arith)) (finite_numeral 12 (omega arith))
            (le_numeral 8 12 (omega arith) (omega arith)))).1

    inset-le-last_place : inset ≼ last_place size tooltip_size
    inset-le-last_place = max_left inset _ (numeral-not_nan 8 (omega arith)) room-not_nan

    before-le-last_place : n.sub (n.sub s tooltip_size) gap ≼ last_place size tooltip_size
    before-le-last_place =
        let c = sub_mono s size tooltip_size fin_t high in
        le_trans _ _ _
          (sub_mono (n.sub s tooltip_size) (n.sub size tooltip_size) gap
            (finite_numeral 12 (omega arith)) c)
          (le_trans _ _ _
            (sub_anti (n.sub size tooltip_size) inset gap
              (sub-not_nan size tooltip_size fin (finite-not_nan tooltip_size fin_t))
              (finite_numeral 8 (omega arith)) (finite_numeral 12 (omega arith))
              (le_numeral 8 12 (omega arith) (omega arith)))
            (max_right inset _ (numeral-not_nan 8 (omega arith)) room-not_nan))

    inset-le-after : inset ≼ n.add s gap
    inset-le-after =
        le_trans inset gap (n.add s gap) (le_numeral 8 12 (omega arith) (omega arith))
          (add_right s gap low (le_numeral 0 12 (omega arith) (omega arith)))

    centred-Within :
        Within size tooltip_size
          (clamp (n.sub s (n.div tooltip_size (n.of_ℕ 2))) inset (last_place size tooltip_size))
    centred-Within =
        let half =
          div_nonneg tooltip_size (n.of_ℕ 2) low_t (lt_numeral 0 2 (omega arith) (omega arith))
            (finite_numeral 2 (omega arith)) in
        clamp_bounds _ inset (last_place size tooltip_size)
          (sub-not_nan s _
            (finite_of_bounds zero' s size (finite_numeral 0 (omega arith)) fin low high)
            (not_nan_of_le _ _ half).1)
          inset-le-last_place

  -- For a point in the plot, the tooltip lies in the plot, inside a margin of 8, on both axes: its left edge
  -- and its top are at least 8, and at most what leaves room for it and the margin, or 8 where there is no
  -- such room.
  pub tooltip_place_bounds :
      (l : Layout W) (screen_x screen_y : W)
      → n.is_finite l.plot_bounds.width ≡ true
      → n.is_finite l.plot_bounds.height ≡ true
      → (n.is_finite l.tooltip_width ≡ true) × (zero' ≼ l.tooltip_width)
      → (n.is_finite l.tooltip_height ≡ true) × (zero' ≼ l.tooltip_height)
      → (zero' ≼ screen_x) × (screen_x ≼ l.plot_bounds.width)
      → (zero' ≼ screen_y) × (screen_y ≼ l.plot_bounds.height)
      → Within l.plot_bounds.width l.tooltip_width (tooltip_place l screen_x screen_y).0
        × Within l.plot_bounds.height l.tooltip_height (tooltip_place l screen_x screen_y).1
  unfolding tooltip_place
  tooltip_place_bounds l x y fw fh tw th inx iny =
      let w = l.plot_bounds.width in
      let h = l.plot_bounds.height in
      let sw = l.tooltip_width in
      let sh = l.tooltip_height in
      let across = centred-Within w sw x fw tw.0 tw.1 inx.0 inx.1 in
      if_elim {A = W × W} (λ p. Within w sw p.0 × Within h sh p.1) (n.le inset (above l x y))
        (λ e. (across, (e, before-le-last_place h sh y fh th.0 th.1 iny.0 iny.1)))
        λ e.
          if_elim {A = W × W} (λ p. Within w sw p.0 × Within h sh p.1)
            (n.le (below l x y) (max_top l x y))
            (λ g. (across, (inset-le-after h sh y fh th.0 th.1 iny.0 iny.1, g)))
            λ g. (
              if_elim {A = W} (Within w sw) (n.le inset (beside_left l x y))
                  (λ k. (k, before-le-last_place w sw x fw tw.0 tw.1 inx.0 inx.1))
                  (λ k.
                    if_elim {A = W} (Within w sw) (n.le (beside_right l x y) (Chart.max_left l x y))
                      (λ m. (inset-le-after w sw x fw tw.0 tw.1 inx.0 inx.1, m)) (λ m. across)),
              centred-Within h sh y fh th.0 th.1 iny.0 iny.1,
            )

  day_value-is_finite : (d : Day W) → n.is_finite (day_value d) ≡ true
  unfolding day_value
  day_value-is_finite d = elim (Option-cases d.totals) [
    | inl e ↦ rw (day_value, e) (finite_numeral 0 (omega arith))
    | inr (u, e) ↦ elim (Option-cases (numeric_where (λ _. true) u.total_tokens)) [
      | inl m ↦ rw (day_value, e, m) (finite_numeral 0 (omega arith))
      | inr (w, m) ↦ rw (day_value, e, m) (numeric_where-eq (λ _. true) u.total_tokens w m).0
    ]
  ]

  values-is_finite : (ds : List (Day W)) → All (λ v. n.is_finite v ≡ true) (map day_value ds)
  values-is_finite [] = tt
  values-is_finite (d ∷ ds) = (day_value-is_finite d, values-is_finite ds)

  points-OnPlot :
      (max : W)
      → n.is_finite max ≡ true
      → n.of_ℕ 1 ≼ max
      → (ds : List (Day W)) → All (λ v. v ≼ max) (map day_value ds)
      → All (λ d. zero' ≼ day_value d → OnPlot max (day_value d)) ds
  points-OnPlot max fin one [] h = tt
  points-OnPlot max fin one (d ∷ ds) h =
      (λ low. point_y_bounds max (day_value d) fin one low h.0, points-OnPlot max fin one ds h.1)

  -- On the scale that `renderTrend` takes from the days, the point of every day whose value is not negative
  -- lies between the top of the plot, at 12, and its bottom, at 168.
  pub renders-OnPlot :
      (days : List (Day W))
      → All (λ d. zero' ≼ day_value d → OnPlot (max_value (map day_value days)) (day_value d)) days
  renders-OnPlot days =
      let (fin, one, each) = max_value_lem (map day_value days) (values-is_finite days) in
      points-OnPlot (max_value (map day_value days)) fin one days each
