-- ===== src/Server/Service.antt =====
-- internal/dashboard/service.go: `summarizeDays` and `persistedDashboard`, with internal/discovery/discovery.go
-- for `Endpoint` and `Failure`. `Q` is the type of the quotas of an account, which are passed on as they are.
pub mod Agreement
pub mod Reports
pub mod Merged
pub mod Orders
pub mod Calendars
use copilot_api_dashboard.Base.{
  ℕ, String, Bool, true, false, Option, none, some, List, [], ◌∷◌, ◌++◌, ◌&&◌, not, str_eq,
  if◌then◌else◌,
}
use copilot_api_dashboard.Server.{
  Totals, ModelTotals, UpstreamDay, Day, or_empty, zero_totals, add_totals, merge_models, merge_day,
}
use copilot_api_dashboard.Server.Fill.{Dates, fill_days}

pub record Endpoint : Type 0 where
  pub name : String
  pub url : String
  pub source : String
  pub api_key : String

pub record Failure : Type 0 where
  pub target : String
  pub operation : String
  pub message : String

-- `upstream.Usage`
pub record Usage {ℓ} (Q : Type ℓ) : Type ℓ where
  pub login : String
  pub plan : Option String
  pub reset_date : Option String
  pub quotas : Option Q

pub record Resolved {ℓ} (Q : Type ℓ) : Type ℓ where
  pub endpoint : Endpoint
  pub usage : Usage Q

pub record Account {ℓ} (F Q : Type ℓ) : Type ℓ where
  pub usage : Usage Q
  pub display_name : String
  pub totals : Option (Totals F)

-- `Response` with its `Data`; `none` for a nil pointer or a nil slice
pub record Response {ℓ} (F Q : Type ℓ) : Type ℓ where
  pub period : String
  pub selected_account : Option String
  pub accounts : List (Account F Q)
  pub totals : Option (Totals F)
  pub models : Option (List (ModelTotals F))
  pub days : Option (List (Day F))
  pub errors : List Failure

-- What `LoadDaily` returns: an error, no snapshot, or the days of one.
pub data Loaded {ℓ} (F : Type ℓ) : Type ℓ where
  failed : String → Loaded F
  no_snapshot : Loaded F
  snapshot : List (UpstreamDay F) → Loaded F

-- The response so far, and `found`.
pub record Progress {ℓ} (F Q : Type ℓ) : Type ℓ where
  pub response : Response F Q
  pub found : Bool

abbrev pub failure : Endpoint → String → String → Failure
failure e operation message = record { target = e.name; operation = operation; message = message }

abbrev pub unavailable : String → Failure
unavailable login = record {
  target = login;
  operation = "account";
  message = "account unavailable in current discovery";
}

abbrev pub or_zero_totals {ℓ} : {F : Type ℓ} → Option (Totals F) → Totals F
or_zero_totals none = zero_totals (some [])
or_zero_totals (some t) = t

-- `login != "" && !strings.EqualFold(login, account.usage.Login)`
abbrev pub is_other {ℓ} : {Q : Type ℓ} → (String → String → Bool) → String → Resolved Q → Bool
is_other equal_fold login a = not (str_eq login "") && not (equal_fold login a.usage.login)

abbrev pub account_of {ℓ} :
    {F Q : Type ℓ}
    → (String → String)
    → (String → String)
    → Resolved Q
    → Option (Totals F)
    → Account F Q
account_of to_lower aliases a totals = record {
  usage = a.usage;
  display_name = aliases (to_lower a.usage.login);
  totals = totals;
}

abbrev pub canonical_account {ℓ} :
    {F Q : Type ℓ} → String → Resolved Q → Response F Q → Response F Q
canonical_account login a r = record r {
  selected_account = if str_eq login "" then r.selected_account else some a.usage.login;
}

abbrev pub start_response {ℓ} : {F Q : Type ℓ} → List Failure → String → String → Progress F Q
start_response failures period login = record {
  response = record {
    period = period;
    selected_account = if str_eq login "" then none else some login;
    accounts = [];
    totals = none;
    models = none;
    days = none;
    errors = failures;
  };
  found = str_eq login "";
}

-- The end of the handler: an account that is not there, and the blank days.
abbrev pub finish {ℓ} : {F Q : Type ℓ} → Dates → ℕ → String → Progress F Q → Progress F Q
finish t now login p = record p {
  response = record (p.response) {
    errors = if p.found then p.response.errors else p.response.errors ++ unavailable login ∷ [];
    days = fill_days t p.response.days p.response.period now;
  };
}

module _ {ℓ} {F : Type ℓ} (amount_of : ℕ → F) where
  -- `addTotals` and `mergeModels` over the days, from what there is.
  unfoldable pub sum_totals : Totals F → List (UpstreamDay F) → Totals F
  unfolding add_totals
  sum_totals totals [] = totals
  sum_totals totals (d ∷ ds) = sum_totals (add_totals amount_of totals d.totals) ds

  unfoldable pub sum_models : List (ModelTotals F) → List (UpstreamDay F) → List (ModelTotals F)
  unfolding merge_models
  sum_models models [] = models
  sum_models models (d ∷ ds) = sum_models (merge_models amount_of models d.models) ds

  unfoldable pub summarize_days : List (UpstreamDay F) → Totals F × List (ModelTotals F)
  unfolding sum_totals sum_models
  summarize_days days = (sum_totals (zero_totals (some [])) days, sum_models [] days)

  unfoldable pub merge_days : List (Day F) → List (UpstreamDay F) → List (Day F)
  unfolding merge_day
  merge_days dst [] = dst
  merge_days dst (d ∷ ds) = merge_days (merge_day amount_of dst d) ds

  module _ {Q : Type ℓ} (to_lower aliases : String → String) where
    -- What is loaded for an account is added to the response.
    unfoldable pub add_loaded : Resolved Q → Response F Q → Loaded F → Response F Q
    unfolding summarize_days add_totals merge_models merge_days
    add_loaded a r (failed message) = record r {
      accounts = r.accounts ++ account_of to_lower aliases a none ∷ [];
      errors = r.errors ++ failure a.endpoint "persistence" message ∷ [];
    }
    add_loaded a r no_snapshot = record r {
      accounts = r.accounts ++ account_of to_lower aliases a none ∷ [];
      errors = r.errors ++ failure a.endpoint "persistence" "usage has not been synchronized" ∷ [];
    }
    add_loaded a r (snapshot days) =
        let summary = summarize_days days in
        record r {
          accounts = r.accounts ++ account_of to_lower aliases a (some summary.0) ∷ [];
          totals = some (add_totals amount_of (or_zero_totals r.totals) summary.0);
          models = some (merge_models amount_of (or_empty r.models) summary.1);
          days = some (merge_days (or_empty r.days) days);
        }

    module _ (equal_fold : String → String → Bool)
        (load_daily : String → String → String → String → Loaded F) where
      -- One round of the loop over the accounts.
      unfoldable pub add_account : String → Progress F Q → Resolved Q → Progress F Q
      unfolding add_loaded
      add_account login p a =
          if is_other equal_fold login a
          then record p {
            response = record (p.response) {
              accounts = p.response.accounts ++ account_of to_lower aliases a none ∷ [];
            };
          }
          else record {
            response =
                add_loaded a (canonical_account login a p.response)
                  (load_daily a.endpoint.name a.endpoint.url a.usage.login p.response.period);
            found = true;
          }

      unfoldable pub add_accounts : String → Progress F Q → List (Resolved Q) → Progress F Q
      unfolding add_account
      add_accounts login p [] = p
      add_accounts login p (a ∷ rest) = add_accounts login (add_account login p a) rest

      unfoldable pub persisted_dashboard :
          Dates → ℕ → List (Resolved Q) → List Failure → String → String → Progress F Q
      unfolding add_accounts fill_days
      persisted_dashboard t now accounts failures period login =
          finish t now login (add_accounts login (start_response failures period login) accounts)
