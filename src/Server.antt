-- ===== src/Server.antt =====
-- The server: internal/upstream/types.go and the sums of internal/dashboard/aggregate.go (`addTotals`,
-- `mergeModels`, `mergeDay`). `F` is the type of the numbers of Go's `float64`.
pub mod Keyed
pub mod Sums
pub mod Fill
pub mod Numbers
pub mod Service
pub mod Resolve
pub mod Tasks
use copilot_api_dashboard.Base.{ℕ, ◌+◌, ◌%◌, String, Bool, true, Option, none, some, List, [], ◌∷◌}
use copilot_api_dashboard.Server.Keyed.{merge, put, sort}

-- An `int64`, by its bits.
abbrev pub word : ℕ
word = 18_446_744_073_709_551_616

abbrev pub add64 : ℕ → ℕ → ℕ
add64 a b = (a + b) % word

pub record Cost {ℓ} (F : Type ℓ) : Type ℓ where
  pub amount : F
  pub currency : String
  pub nanos : ℕ

-- `nano_aiu` is `none` for a nil pointer, `costs` for a nil slice.
pub record Totals {ℓ} (F : Type ℓ) : Type ℓ where
  pub input : ℕ
  pub output : ℕ
  pub cache_read : ℕ
  pub cache_creation : ℕ
  pub requests : ℕ
  pub tokens : ℕ
  pub nano_aiu : Option ℕ
  pub costs : Option (List (Cost F))

-- `upstream.Model`
pub record ModelTotals {ℓ} (F : Type ℓ) : Type ℓ where
  pub model : String
  pub totals : Totals F

-- `upstream.Day`, whose totals have been checked to be there
pub record UpstreamDay {ℓ} (F : Type ℓ) : Type ℓ where
  pub date : String
  pub totals : Totals F
  pub models : List (ModelTotals F)

-- `dashboard.Day`
pub record Day {ℓ} (F : Type ℓ) : Type ℓ where
  pub date : String
  pub recorded : Bool
  pub totals : Totals F
  pub models : List (ModelTotals F)

abbrev pub or_empty {ℓ} : {A : Type ℓ} → Option (List A) → List A
or_empty none = []
or_empty (some xs) = xs

-- `if src.NanoAIU != nil { ... }`
abbrev pub add_nano : Option ℕ → Option ℕ → Option ℕ
add_nano dst none = dst
add_nano none (some b) = some (add64 0 b)
add_nano (some a) (some b) = some (add64 a b)

abbrev pub nanos_of {ℓ} : {F : Type ℓ} → Option (Cost F) → ℕ
nanos_of none = 0
nanos_of (some c) = c.nanos

abbrev pub currency_of {ℓ} : {F : Type ℓ} → String → Option (Cost F) → String
currency_of currency none = currency
currency_of currency (some c) = c.currency

-- `upstream.Totals{}`, and `&upstream.Totals{Costs: []upstream.Cost{}}`
abbrev pub zero_totals {ℓ} : {F : Type ℓ} → Option (List (Cost F)) → Totals F
zero_totals costs = record {
  input = 0;
  output = 0;
  cache_read = 0;
  cache_creation = 0;
  requests = 0;
  tokens = 0;
  nano_aiu = none;
  costs = costs;
}

-- `amount_of nanos` is `float64(nanos) / 1e9`.
module _ {ℓ} {F : Type ℓ} (amount_of : ℕ → F) where
  -- A cost that is added to the one of its currency, or to a new one.
  abbrev pub add_cost : Cost F → Option (Cost F) → Cost F
  add_cost cost o =
      let nanos = add64 (nanos_of o) cost.nanos in
      record { amount = amount_of nanos; currency = currency_of cost.currency o; nanos = nanos }

  unfoldable pub add_costs : List (Cost F) → List (Cost F) → List (Cost F)
  unfolding merge
  add_costs dst src = merge (λ c. c.currency) (λ c. c.currency) add_cost dst src

  unfoldable pub add_totals : Totals F → Totals F → Totals F
  unfolding add_costs
  add_totals dst src = record {
    input = add64 dst.input src.input;
    output = add64 dst.output src.output;
    cache_read = add64 dst.cache_read src.cache_read;
    cache_creation = add64 dst.cache_creation src.cache_creation;
    requests = add64 dst.requests src.requests;
    tokens = add64 dst.tokens src.tokens;
    nano_aiu = add_nano dst.nano_aiu src.nano_aiu;
    costs = some (add_costs (or_empty dst.costs) (or_empty src.costs));
  }

  abbrev pub add_model : ModelTotals F → Option (ModelTotals F) → ModelTotals F
  add_model m none = record { model = m.model; totals = add_totals (zero_totals none) m.totals }
  add_model m (some old) = record old { totals = add_totals old.totals m.totals }

  unfoldable pub merge_models : List (ModelTotals F) → List (ModelTotals F) → List (ModelTotals F)
  unfolding merge add_totals
  merge_models dst src = merge (λ m. m.model) (λ m. m.model) add_model dst src

  abbrev pub add_day : UpstreamDay F → Option (Day F) → Day F
  add_day d none = record {
    date = d.date;
    recorded = true;
    totals = add_totals (zero_totals none) d.totals;
    models = merge_models [] d.models;
  }
  add_day d (some old) = record old {
    recorded = true;
    totals = add_totals old.totals d.totals;
    models = merge_models old.models d.models;
  }

  unfoldable pub merge_day : List (Day F) → UpstreamDay F → List (Day F)
  unfolding put sort add_totals merge_models
  merge_day dst src = sort (λ d. d.date) (put (λ d. d.date) src.date (add_day src) dst)
