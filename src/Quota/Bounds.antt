-- ===== src/Quota/Bounds.antt =====
-- The values that the page shows of a quota and of the cache are in their ranges.
use copilot_api_dashboard.Base.{
  ℕ, ◌≤◌, Bool, true, false, Option, none, some, ◌&&◌, ◌||◌, not, ◌≡◌, arith, refl, Bool-cases,
  Option-cases, inl, inr,
}
use copilot_api_dashboard.Model.{Value, undefined, null, boolean, num, text, Quota, Usage}
use copilot_api_dashboard.Number.{Number, IsNumber, ◌≼◌, max_safe_integer}
use copilot_api_dashboard.Quota.{
  is_true, is_false, is_zero, numeric_where, not_negative, metered_entitlement, remaining_value,
  used_percent, used_percent_value, part_used, used_metered, used_value, rate_of, cache_hit_rate,
}

module _ {ℓ} {W : Type ℓ} ⦃n : Number W⦄ where
  pub numeric_where-eq :
      (test : W → Bool) (v : Value W) (w : W)
      → numeric_where test v ≡ some w
      → (n.is_finite w ≡ true) × (test w ≡ true)
  numeric_where-eq test (num x) w h = elim (Bool-cases (n.is_finite x && test x)) [
    | inl e ↦ let same : x ≡ w = ground arith in rw (← same) (ground arith)
    | inr e ↦ ground arith
  ]
  numeric_where-eq test undefined w h = cc
  numeric_where-eq test null w h = cc
  numeric_where-eq test (boolean b) w h = cc
  numeric_where-eq test (text s) w h = cc

module _ {ℓ} {W : Type ℓ} ⦃n : Number W⦄ (laws : IsNumber W) where
  open laws use {
    finite-not_nan, not_nan_of_le, lt_numeral, finite_of_bounds, finite_numeral, le_numeral,
    le_trans, le_of_not_lt, le_of_lt, max_left, max_least, min_left, min_greatest, sub_nonneg,
    sub_le, add_left, add_right, div_fraction, div_nonneg, mul_nonneg, mul_fraction,
  }

  abbrev zero' : W
  zero' = n.of_ℕ 0

  abbrev hundred : W
  hundred = n.of_ℕ 100

  not_nan_numeral : (k : ℕ) → k ≤ max_safe_integer → n.is_nan (n.of_ℕ k) ≡ false
  not_nan_numeral k h = finite-not_nan _ (finite_numeral k h)

  used_percent_bounds :
      (p : W) → n.is_finite p ≡ true → (zero' ≼ used_percent p) × (used_percent p ≼ hundred)
  used_percent_bounds p f =
      let raised = n.max zero' p in
      let kept = n.min hundred raised in
      let low = max_left zero' p (not_nan_numeral 0 (omega arith)) (finite-not_nan p f) in
      let lo =
        min_greatest hundred raised zero' (le_numeral 0 100 (omega arith) (omega arith)) low in
      let hi =
        min_left hundred raised (not_nan_numeral 100 (omega arith))
          (not_nan_of_le zero' raised low).1 in
      let whole = finite_numeral 100 (omega arith) in
      let fin = finite_of_bounds zero' kept hundred (finite_numeral 0 (omega arith)) whole lo hi in
      (sub_nonneg hundred kept whole hi lo, sub_le hundred kept whole fin lo)

  -- A used percentage that the page shows lies between 0 and 100, whatever percentage the server reports
  -- as remaining.
  pub used_percent_value_bounds :
      (q : Option (Quota W)) (p : W) → used_percent_value q ≡ some p → (zero' ≼ p) × (p ≼ hundred)
  unfolding used_percent_value
  used_percent_value_bounds none p h = cc
  used_percent_value_bounds (some q) p h =
      elim (Option-cases (numeric_where (λ _. true) q.percent_remaining)) [
        | inl e ↦ absurd (ground arith)
        | inr (r, e) ↦
            let same : used_percent r ≡ p = ground arith in
            rw (← same) (used_percent_bounds r (numeric_where-eq _ _ r e).0)
      ]

  part_used_nonneg :
      (e : W) (q : Option (Quota W)) (u : W)
      → n.is_finite e ≡ true
      → zero' ≼ e
      → part_used e (used_percent_value q) ≡ some u
      → zero' ≼ u
  part_used_nonneg e q u f pos h = elim (Option-cases (used_percent_value q)) [
    | inl no' ↦ absurd (ground arith)
    | inr (p, is_p) ↦ elim (Bool-cases (n.is_finite p)) [
      | inl fin ↦
          let same : n.div (n.mul e p) hundred ≡ u = ground arith in
          rw (← same) (
            div_nonneg (n.mul e p) hundred
              (mul_nonneg e p f fin pos (used_percent_value_bounds q p is_p).0)
              (lt_numeral 0 100 (omega arith) (omega arith)) (finite_numeral 100 (omega arith)))
      | inr inf ↦ absurd (ground arith)
    ]
  ]

  remaining_value_nonneg :
      (q : Quota W) (r : W)
      → remaining_value (some q) ≡ some r
      → (n.is_finite r ≡ true) × (zero' ≼ r)
  unfolding remaining_value
  remaining_value_nonneg q r h =
      elim (Bool-cases (not (is_false q.unlimited) || is_zero q.entitlement)) [
        | inl e ↦ absurd (ground arith)
        | inr e ↦
            numeric_where-eq (n.le (n.of_ℕ 0)) q.quota_remaining r (rw (e, remaining_value) at h)
      ]

  used_metered_nonneg :
      (q : Quota W) (e u : W)
      → n.is_finite e ≡ true
      → zero' ≼ e
      → used_metered q e ≡ some u
      → zero' ≼ u
  unfolding used_metered
  used_metered_nonneg q e u f pos h = elim (Option-cases (remaining_value (some q))) [
    | inl is_none ↦ part_used_nonneg e (some q) u f pos (rw (is_none, used_metered) at h)
    | inr (r, is_r) ↦
        let (fin, low) = remaining_value_nonneg q r is_r in
        let rest = n.sub e r in
        let whole = not_nan_of_le rest e (sub_le e r f fin low) in
        let same : n.max zero' rest ≡ u = ground arith in
        rw (← same) (max_left zero' rest (not_nan_numeral 0 (omega arith)) whole.0)
  ]

  metered_entitlement_pos :
      (q : Quota W) (e : W)
      → metered_entitlement q ≡ some e
      → (n.is_finite e ≡ true) × (n.lt zero' e ≡ true)
  unfolding metered_entitlement
  metered_entitlement_pos q e h = elim (Bool-cases (is_false q.unlimited)) [
    | inl k ↦ numeric_where-eq _ q.entitlement e (rw k at h)
    | inr k ↦ absurd (ground arith)
  ]

  used_unlimited_nonneg :
      (q : Quota W) (u : W) → is_true q.unlimited ≡ true → used_value (some q) ≡ some u → zero' ≼ u
  unfolding used_value
  used_unlimited_nonneg q u k h = elim (Bool-cases (not (is_false q.has_quota))) [
    | inl a ↦ (numeric_where-eq _ q.credits_used u (rw (k, a) at h)).1
    | inr a ↦ cc (rw (k, a) at h)
  ]

  -- Only a limited quota has an entitlement.
  is_true-is_false : (v : Value W) → is_false v ≡ true → is_true v ≡ false
  is_true-is_false (boolean false) h = refl
  is_true-is_false (boolean true) h = cc
  is_true-is_false v h = cc

  metered_entitlement-is_true :
      (q : Quota W) (e : W) → metered_entitlement q ≡ some e → is_true q.unlimited ≡ false
  unfolding metered_entitlement
  metered_entitlement-is_true q e h = elim (Bool-cases (is_false q.unlimited)) [
    | inl k ↦ is_true-is_false q.unlimited k
    | inr k ↦ absurd (ground arith)
  ]

  used_value-metered :
      (q : Quota W) (e : W)
      → metered_entitlement q ≡ some e
      → used_value (some q) ≡ used_metered q e
  unfolding used_value
  used_value-metered q e h = rw (metered_entitlement-is_true q e h, h, used_value)

  -- A used amount that the page shows is not negative, for limited and for unlimited quotas.
  used_value_nonneg : (q : Option (Quota W)) (u : W) → used_value q ≡ some u → zero' ≼ u
  unfolding used_value
  used_value_nonneg none u h = cc
  used_value_nonneg (some q) u h = elim (Bool-cases (is_true q.unlimited)) [
    | inl k ↦ used_unlimited_nonneg q u k h
    | inr k ↦ elim (Option-cases (metered_entitlement q)) [
      | inl e ↦ cc (rw (k, e) at h)
      | inr (e, is_e) ↦
          let (fin, pos) = metered_entitlement_pos q e is_e in
          used_metered_nonneg q e u fin (le_of_lt zero' e pos) (rw (k, is_e) at h)
    ]
  ]

  -- With a remaining amount reported, the used amount of a limited quota is not negative and at most its
  -- entitlement.
  pub used_value_bounds :
      (q : Quota W) (e r u : W)
      → metered_entitlement q ≡ some e
      → remaining_value (some q) ≡ some r
      → used_value (some q) ≡ some u
      → (zero' ≼ u) × (u ≼ e)
  unfolding used_metered
  used_value_bounds q e r u is_e is_r h =
      let (fin_e, pos) = metered_entitlement_pos q e is_e in
      let (fin, low) = remaining_value_nonneg q r is_r in
      let same : n.max zero' (n.sub e r) ≡ u = ground (arith, used_value-metered q e is_e) in
      (
        used_value_nonneg (some q) u h,
        rw (← same)
            (max_least zero' (n.sub e r) e (le_of_lt zero' e pos) (sub_le e r fin_e fin low)),
      )

  rate_of_bounds :
      (input read creation p : W)
      → zero' ≼ input
      → zero' ≼ read
      → zero' ≼ creation
      → rate_of input read creation ≡ some p
      → (zero' ≼ p) × (p ≼ hundred)
  unfolding rate_of
  rate_of_bounds input read creation p hi hr hc h =
      let first = n.add zero' input in
      let second = n.add first read in
      let total = n.add second creation in
      let zero_le = le_numeral 0 0 (omega arith) (omega arith) in
      let a = add_left zero' input zero_le hi in
      let b = add_right first read a hr in
      let b0 = le_trans zero' read second hr b in
      let c = le_trans read second total b (add_left second creation b0 hc) in
      elim (Bool-cases (n.is_finite total && n.lt zero' total)) [
        | inl e ↦
            let same : n.mul (n.div read total) hundred ≡ p = ground arith in
            let (low, high) = div_fraction read total hr c (ground arith) (ground arith) in
            let whole = finite_numeral 100 (omega arith) in
            let big = le_numeral 0 100 (omega arith) (omega arith) in
            let fin =
              finite_of_bounds zero' (n.div read total) (n.of_ℕ 1) (finite_numeral 0 (omega arith))
                (finite_numeral 1 (omega arith)) low high in
            rw (← same)
              (mul_nonneg _ hundred fin whole low big, mul_fraction _ hundred low high big whole)
        | inr e ↦ absurd (ground arith)
      ]

  not_negative-le : (v : Value W) (w : W) → not_negative v ≡ some w → zero' ≼ w
  not_negative-le v w h =
      let (fin, test) = numeric_where-eq _ v w h in
      le_of_not_lt w zero' (finite-not_nan w fin) (not_nan_numeral 0 (omega arith)) (ground arith)

  -- A cache hit rate that the page shows lies between 0 and 100.
  pub cache_hit_rate_bounds :
      (u : Option (Usage W)) (p : W) → cache_hit_rate u ≡ some p → (zero' ≼ p) × (p ≼ hundred)
  unfolding cache_hit_rate
  cache_hit_rate_bounds none p h = cc
  cache_hit_rate_bounds (some u) p h = elim (Option-cases (not_negative u.input_tokens)) [
    | inl e ↦ cc (rw (e, cache_hit_rate) at h)
    | inr (input, i) ↦ elim (Option-cases (not_negative u.cache_read_input_tokens)) [
      | inl e ↦ cc (rw (i, e, cache_hit_rate) at h)
      | inr (read, r) ↦ elim (Option-cases (not_negative u.cache_creation_input_tokens)) [
        | inl e ↦ cc (rw (i, r, e, cache_hit_rate) at h)
        | inr (creation, c) ↦
            rate_of_bounds input read creation p (not_negative-le _ input i)
              (not_negative-le _ read r) (not_negative-le _ creation c)
              (rw (i, r, c, cache_hit_rate) at h)
      ]
    ]
  ]
