-- ===== src/Markup/Keys.antt =====
-- web/app.js: the getters of the three sorted tables, and the currencies that `sortableTable` finds.
pub mod Tables
use copilot_api_dashboard.Base.{
  ℕ, zero, suc, String, Bool, true, false, Option, none, some, List, [], ◌∷◌, ◌++◌, not, any, map,
  length, str_eq, ◌==◌, if◌then◌else◌,
}
use copilot_api_dashboard.Model.{
  Value, undefined, null, boolean, num, text, Cost, Quota, Usage, Account, Day, ModelUsage,
}
use copilot_api_dashboard.Number.{Number}
use copilot_api_dashboard.Quota.{
  remaining_value, used_percent_value, used_value, cost_value, cache_hit_rate,
}
use copilot_api_dashboard.Sorting.{
  Key, absent, number, words, truth, Collation, Sort, without_cost, sorted_rows,
}
use copilot_api_dashboard.Markup.Cells.{field, costs_of, entitlement_of}

-- The currency of every cost of the items, `costs(item) ?? []`
unfoldable pub currencies {ℓ κ} :
    {W : Type ℓ} {A : Type κ} → (A → Option (List (Cost W))) → List A → List String
currencies costs [] = []
currencies costs (x ∷ xs) =
    elim (costs x) [ none ↦ [] | some cs ↦ map (λ c. c.currency) cs ] ++ currencies costs xs

-- `new Set(...)`, behind those that were seen
unfoldable pub distinct_texts : List String → List String → List String
distinct_texts seen [] = []
distinct_texts seen (s ∷ ss) =
    if any (str_eq s) seen then distinct_texts seen ss else s ∷ distinct_texts (s ∷ seen) ss

-- `currencies.size !== 1`
unfoldable pub disables_cost {ℓ κ} :
    {W : Type ℓ} {A : Type κ} → (A → Option (List (Cost W))) → List A → Bool
unfolding currencies distinct_texts
disables_cost costs items = not (length (distinct_texts [] (currencies costs items)) == 1)

abbrev pub key_of {ℓ} : {W : Type ℓ} → Value W → Key W
key_of undefined = absent
key_of null = absent
key_of (boolean b) = truth b
key_of (num w) = number w
key_of (text s) = words s

abbrev pub word_of {ℓ} : {W : Type ℓ} → Option String → Key W
word_of none = absent
word_of (some s) = words s

abbrev pub number_of {ℓ} : {W : Type ℓ} → Option W → Key W
number_of none = absent
number_of (some w) = number w

module _ {ℓ} {W : Type ℓ} ⦃n : Number W⦄ where
  unfoldable pub day_key : ℕ → Day W → Key W
  day_key zero d = words d.date
  day_key (suc zero) d = key_of (field (λ u. u.total_tokens) d.totals)
  day_key (suc (suc zero)) d = key_of (field (λ u. u.request_count) d.totals)
  day_key i d = number_of (cost_value (costs_of d.totals))

  unfoldable pub model_key : ℕ → ModelUsage W → Key W
  model_key zero m = word_of m.model
  model_key (suc zero) m = key_of m.usage.input_tokens
  model_key (suc (suc zero)) m = key_of m.usage.output_tokens
  model_key (suc (suc (suc zero))) m = key_of m.usage.cache_read_input_tokens
  model_key (suc (suc (suc (suc zero)))) m = key_of m.usage.cache_creation_input_tokens
  model_key (suc (suc (suc (suc (suc zero))))) m = number_of (cache_hit_rate (some m.usage))
  model_key (suc (suc (suc (suc (suc (suc zero)))))) m = key_of m.usage.total_tokens
  model_key (suc (suc (suc (suc (suc (suc (suc zero))))))) m = key_of m.usage.request_count
  model_key i m = number_of (cost_value m.usage.costs)

  -- `name` is `accountName`.
  unfoldable pub account_key : (Account W → Option String) → ℕ → Account W → Key W
  account_key name zero a = word_of (name a)
  account_key name (suc zero) a = word_of a.copilot_plan
  account_key name (suc (suc zero)) a = number_of (used_percent_value a.premium_interactions)
  account_key name (suc (suc (suc zero))) a = number_of (used_value a.premium_interactions)
  account_key name (suc (suc (suc (suc zero)))) a =
      number_of (remaining_value a.premium_interactions)
  account_key name (suc (suc (suc (suc (suc zero))))) a =
      number_of (entitlement_of a.premium_interactions)
  account_key name (suc (suc (suc (suc (suc (suc zero)))))) a =
      key_of (field (λ u. u.total_tokens) a.totals)
  account_key name (suc (suc (suc (suc (suc (suc (suc zero))))))) a =
      key_of (field (λ u. u.request_count) a.totals)
  account_key name i a = number_of (cost_value (costs_of a.totals))

  -- What `sortableTable` finds for its items: whether the costs are disabled, the table's sort from then on,
  -- and the rows.
  module _ {κ} {A : Type κ} (c : Collation W) (getter : ℕ → A → Key W)
      (costs : A → Option (List (Cost W))) (last_column : ℕ) where
    unfoldable pub sort_from : List A → Sort → Sort
    unfolding disables_cost without_cost
    sort_from items s = without_cost (disables_cost costs items) last_column s

    unfoldable pub sortable_rows : List A → Sort → List A
    unfolding sort_from sorted_rows
    sortable_rows items s = sorted_rows c getter (sort_from items s) items
