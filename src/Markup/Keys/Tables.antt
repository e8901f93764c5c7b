-- ===== src/Markup/Keys/Tables.antt =====
-- web/app.js: the rows of the three sorted tables, in the order of `sortableTable`.
use mathlib.Core.List.{Perm}
use copilot_api_dashboard.Base.{
  ℕ, zero, suc, String, Bool, true, false, Option, none, some, List, All, All_mono, ◌<◌, ◌≢◌, ◌≡◌,
  refl, arith,
}
use copilot_api_dashboard.Model.{
  Value, undefined, null, boolean, num, text, Cost, Usage, Account, Day, ModelUsage,
}
use copilot_api_dashboard.Number.{Number, IsNumber}
use copilot_api_dashboard.Quota.{
  remaining_value, used_percent_value, used_value, cost_value, cache_hit_rate,
}
use copilot_api_dashboard.Sorting.{Key, Collation, Sort, compare_rows, missing, without_cost}
use copilot_api_dashboard.Sorting.Comparator.{OfKind, IsCollation, RowKeys}
use copilot_api_dashboard.Sorting.Rows.{
  Sorted, MissingLast, sorted_rows_lem, sorted_rows-MissingLast,
}
use copilot_api_dashboard.Markup.Cells.{field, costs_of, entitlement_of}
use copilot_api_dashboard.Markup.Keys.{
  disables_cost, key_of, word_of, number_of, day_key, model_key, account_key, sort_from,
  sortable_rows,
}

-- A field that holds a number, or nothing.
abbrev pub IsCount {ℓ} : {W : Type ℓ} → Value W → Type 0
IsCount (boolean b) = ⊥
IsCount (text s) = ⊥
IsCount v = Unit

abbrev pub IsText : Option String → Type 0
IsText none = ⊥
IsText (some s) = Unit

abbrev pub CountsOf {ℓ} : {W : Type ℓ} → Option (Usage W) → Type 0
CountsOf t = IsCount (field (λ u. u.total_tokens) t) × IsCount (field (λ u. u.request_count) t)

abbrev pub IsModel {ℓ} : {W : Type ℓ} → ModelUsage W → Type 0
IsModel m =
    IsText m.model
    × (IsCount m.usage.input_tokens
        × IsCount m.usage.output_tokens
        × IsCount m.usage.cache_read_input_tokens
        × IsCount m.usage.cache_creation_input_tokens
        × IsCount m.usage.total_tokens
        × IsCount m.usage.request_count)

abbrev pub IsAccount {ℓ} : {W : Type ℓ} → (Account W → Option String) → Account W → Type 0
IsAccount name a = IsText (name a) × CountsOf a.totals

key_of-OfKind {ℓ} : {W : Type ℓ} (v : Value W) → IsCount v → OfKind false (key_of v)
key_of-OfKind undefined h = tt
key_of-OfKind null h = tt
key_of-OfKind (num w) h = tt
key_of-OfKind (boolean b) h = absurd h
key_of-OfKind (text s) h = absurd h

number_of-OfKind {ℓ} : {W : Type ℓ} (o : Option W) → OfKind false (number_of o)
number_of-OfKind none = tt
number_of-OfKind (some w) = tt

word_of-OfKind {ℓ} : (W : Type ℓ) (o : Option String) → OfKind {W = W} true (word_of o)
word_of-OfKind W none = tt
word_of-OfKind W (some s) = tt

-- The columns of texts, from the first on.
abbrev pub text_kind : ℕ → ℕ → Bool
text_kind zero column = false
text_kind (suc k) zero = true
text_kind (suc k) (suc column) = text_kind k column

module _ {ℓ} {W : Type ℓ} ⦃n : Number W⦄ (laws : IsNumber W) (c : Collation W)
    (collation : IsCollation c) where
  day_key-RowKeys :
      (column : ℕ) (d : Day W)
      → CountsOf d.totals
      → RowKeys laws c collation (text_kind 1 column) (day_key column d, day_key 0 d)
  unfolding day_key missing
  day_key-RowKeys zero d h = (tt, (tt, refl))
  day_key-RowKeys (suc zero) d h =
      (key_of-OfKind (field (λ u. u.total_tokens) d.totals) h.0, (tt, refl))
  day_key-RowKeys (suc (suc zero)) d h =
      (key_of-OfKind (field (λ u. u.request_count) d.totals) h.1, (tt, refl))
  day_key-RowKeys (suc (suc (suc i))) d h =
      (number_of-OfKind (cost_value (costs_of d.totals)), (tt, refl))

  word_of-Present :
      (o : Option String)
      → IsText o
      → OfKind {W = W} true (word_of o) × (missing c (word_of o) ≡ false)
  unfolding missing
  word_of-Present none h = absurd h
  word_of-Present (some s) h = (tt, refl)

  model_key-RowKeys :
      (column : ℕ) (m : ModelUsage W)
      → IsModel m
      → RowKeys laws c collation (text_kind 1 column) (model_key column m, model_key 0 m)
  unfolding model_key
  model_key-RowKeys column m (name, h) = (kind column, word_of-Present m.model name)
    where
      kind : (i : ℕ) → OfKind (text_kind 1 i) (model_key i m)
      kind zero = word_of-OfKind W m.model
      kind (suc zero) = key_of-OfKind m.usage.input_tokens h.0
      kind (suc (suc zero)) = key_of-OfKind m.usage.output_tokens h.1
      kind (suc (suc (suc zero))) = key_of-OfKind m.usage.cache_read_input_tokens h.2
      kind (suc (suc (suc (suc zero)))) = key_of-OfKind m.usage.cache_creation_input_tokens h.3
      kind (suc (suc (suc (suc (suc zero))))) = number_of-OfKind (cache_hit_rate (some m.usage))
      kind (suc (suc (suc (suc (suc (suc zero)))))) = key_of-OfKind m.usage.total_tokens h.4
      kind (suc (suc (suc (suc (suc (suc (suc zero))))))) = key_of-OfKind m.usage.request_count h.5
      kind (suc (suc (suc (suc (suc (suc (suc (suc i)))))))) =
          number_of-OfKind (cost_value m.usage.costs)

  account_key-RowKeys :
      (name : Account W → Option String) (column : ℕ) (a : Account W)
      → IsAccount name a
      → RowKeys laws c collation
          (text_kind 2 column)
          (account_key name column a, account_key name 0 a)
  unfolding account_key
  account_key-RowKeys name column a (h, k) = (kind column, word_of-Present (name a) h)
    where
      kind : (i : ℕ) → OfKind (text_kind 2 i) (account_key name i a)
      kind zero = word_of-OfKind W (name a)
      kind (suc zero) = word_of-OfKind W a.copilot_plan
      kind (suc (suc zero)) = number_of-OfKind (used_percent_value a.premium_interactions)
      kind (suc (suc (suc zero))) = number_of-OfKind (used_value a.premium_interactions)
      kind (suc (suc (suc (suc zero)))) = number_of-OfKind (remaining_value a.premium_interactions)
      kind (suc (suc (suc (suc (suc zero))))) =
          number_of-OfKind (entitlement_of a.premium_interactions)
      kind (suc (suc (suc (suc (suc (suc zero)))))) =
          key_of-OfKind (field (λ u. u.total_tokens) a.totals) k.0
      kind (suc (suc (suc (suc (suc (suc (suc zero))))))) =
          key_of-OfKind (field (λ u. u.request_count) a.totals) k.1
      kind (suc (suc (suc (suc (suc (suc (suc (suc i)))))))) =
          number_of-OfKind (cost_value (costs_of a.totals))

  -- The rows are the items, each as often as it is given, in the order of the comparator, those without a
  -- value last, and a column of costs that is disabled is not the sorted one.
  module _ {κ} {A : Type κ} (getter : ℕ → A → Key W) (costs : A → Option (List (Cost W)))
      (last_column : ℕ) where
    abbrev pub IsTable : List A → Sort → Type κ
    IsTable items s =
        Perm (sortable_rows c getter costs last_column items s) items
        × Sorted (compare_rows c getter (sort_from c getter costs last_column items s))
            (sortable_rows c getter costs last_column items s)
        × MissingLast laws c collation getter (sort_from c getter costs last_column items s)
            (sortable_rows c getter costs last_column items s)
        × (disables_cost costs items ≡ true
            → 0 < last_column
            → (sort_from c getter costs last_column items s).column ≢ last_column)

    sortable_rows-IsTable :
        (texts : ℕ) (items : List A) (s : Sort)
        → ((column : ℕ)
            → All
                (λ a.
                  RowKeys laws c collation (text_kind texts column) (getter column a, getter 0 a))
                items)
        → IsTable items s
    unfolding sortable_rows sort_from without_cost
    sortable_rows-IsTable texts items s h =
        let t = sort_from c getter costs last_column items s in
        let kind = text_kind texts t.column in
        let (p, q) = sorted_rows_lem laws c collation getter kind t items (h t.column) in
        (
          p,
          q,
          sorted_rows-MissingLast laws c collation getter kind t items (h t.column),
          λ d k. ground arith,
        )

  -- For whatever sort the table has, the rows of the three sorted tables (days, models, accounts) are the
  -- items, each as often as it is given, in the order of the comparator, those without a value last, and not
  -- sorted by a disabled column of costs, if counts are numbers or missing and models and accounts have names.
  pub sortable_rows_lem :
      (name : Account W → Option String) (days : List (Day W)) (models : List (ModelUsage W))
      (accounts : List (Account W)) (s : Sort)
      → All (λ d. CountsOf d.totals) days
      → All IsModel models
      → All (IsAccount name) accounts
      → IsTable day_key (λ d. costs_of d.totals) 3 days s
        × IsTable model_key (λ m. m.usage.costs) 8 models s
        × IsTable (account_key name) (λ a. costs_of a.totals) 8 accounts s
  sortable_rows_lem name days models accounts s h k l = (
    sortable_rows-IsTable day_key (λ d. costs_of d.totals) 3 1 days s
        (λ i. All_mono (day_key-RowKeys i) days h),
    sortable_rows-IsTable model_key (λ m. m.usage.costs) 8 1 models s
        (λ i. All_mono (model_key-RowKeys i) models k),
    sortable_rows-IsTable (account_key name) (λ a. costs_of a.totals) 8 2 accounts s
        (λ i. All_mono (account_key-RowKeys name i) accounts l),
  )
