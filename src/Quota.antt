-- ===== src/Quota.antt =====
-- web/app.js: the values of a quota (`validMeteredQuota`, `remainingValue`, `usedPercentValue`,
-- `usedValue`, `costValue`) and of the usage of tokens (`cacheHitRate`). `null` and `undefined` are `none`.
pub mod Bounds
use copilot_api_dashboard.Base.{
  ℕ, Bool, true, false, Option, none, some, List, [], ◌∷◌, ◌&&◌, ◌||◌, not, if◌then◌else◌,
}
use copilot_api_dashboard.Model.{Value, undefined, null, boolean, num, text, Cost, Quota, Usage}
use copilot_api_dashboard.Number.{Number, numeric}

module _ {ℓ} {W : Type ℓ} where
  -- `=== true` and `=== false`
  abbrev pub is_true : Value W → Bool
  is_true (boolean b) = b
  is_true v = false

  abbrev pub is_false : Value W → Bool
  is_false (boolean b) = not b
  is_false v = false

module _ {ℓ} {W : Type ℓ} ⦃n : Number W⦄ where
  -- `value === 0`
  abbrev pub is_zero : Value W → Bool
  is_zero (num w) = n.eq w (n.of_ℕ 0)
  is_zero v = false

  -- The number, where `numeric(value) && test(value)`.
  abbrev pub numeric_where : (W → Bool) → Value W → Option W
  numeric_where test (num w) = if n.is_finite w && test w then some w else none
  numeric_where test v = none

  -- A number with `value >= 0`.
  abbrev pub counted : Value W → Option W
  counted = numeric_where (n.le (n.of_ℕ 0))

  -- A number without `value < 0`.
  abbrev pub not_negative : Value W → Option W
  not_negative = numeric_where λ w. not (n.lt w (n.of_ℕ 0))

  -- `validMeteredQuota`, with the entitlement that it has found to be positive.
  unfoldable pub metered_entitlement : Quota W → Option W
  metered_entitlement q =
      if is_false q.unlimited then numeric_where (n.lt (n.of_ℕ 0)) q.entitlement else none

  unfoldable pub remaining_value : Option (Quota W) → Option W
  remaining_value none = none
  remaining_value (some q) =
      if not (is_false q.unlimited) || is_zero q.entitlement
      then none
      else counted q.quota_remaining

  -- `100 - Math.min(100, Math.max(0, percent))`
  abbrev pub used_percent : W → W
  used_percent p = n.sub (n.of_ℕ 100) (n.min (n.of_ℕ 100) (n.max (n.of_ℕ 0) p))

  unfoldable pub used_percent_value : Option (Quota W) → Option W
  used_percent_value none = none
  used_percent_value (some q) =
      if not (is_false q.unlimited) || is_zero q.entitlement
      then none
      else elim (numeric_where (λ _. true) q.percent_remaining) [
        | none ↦ none
        | some p ↦ some (used_percent p)
      ]

  -- `entitlement * usedPercent / 100`
  abbrev pub part_used : W → Option W → Option W
  part_used entitlement none = none
  part_used entitlement (some p) =
      if n.is_finite p then some (n.div (n.mul entitlement p) (n.of_ℕ 100)) else none

  unfoldable pub used_metered : Quota W → W → Option W
  unfolding remaining_value used_percent_value
  used_metered q entitlement = elim (remaining_value (some q)) [
    | none ↦ part_used entitlement (used_percent_value (some q))
    | some remaining ↦ some (n.max (n.of_ℕ 0) (n.sub entitlement remaining))
  ]

  unfoldable pub used_value : Option (Quota W) → Option W
  unfolding metered_entitlement used_metered
  used_value none = none
  used_value (some q) =
      if is_true q.unlimited
      then if not (is_false q.has_quota) then counted q.credits_used else none
      else elim (metered_entitlement q) [ none ↦ none | some e ↦ used_metered q e ]

  -- `costs?.length === 1 && numeric(costs[0].total_cost_nanos) ? costs[0].total_cost_nanos : null`
  unfoldable pub cost_value : Option (List (Cost W)) → Option W
  cost_value (some (c ∷ [])) = numeric_where (λ _. true) c.total_cost_nanos
  cost_value costs = none

  -- The rate of three counts, which `counts.reduce` sums from 0.
  unfoldable pub rate_of : W → W → W → Option W
  rate_of input read creation =
      let total = n.add (n.add (n.add (n.of_ℕ 0) input) read) creation in
      if n.is_finite total && n.lt (n.of_ℕ 0) total
      then some (n.mul (n.div read total) (n.of_ℕ 100))
      else none

  unfoldable pub cache_hit_rate : Option (Usage W) → Option W
  unfolding rate_of
  cache_hit_rate none = none
  cache_hit_rate (some u) = elim (not_negative u.input_tokens) [
    | none ↦ none
    | some input ↦ elim (not_negative u.cache_read_input_tokens) [
      | none ↦ none
      | some read ↦ elim (not_negative u.cache_creation_input_tokens) [
        | none ↦ none
        | some creation ↦ rate_of input read creation
      ]
    ]
  ]
