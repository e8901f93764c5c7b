-- ===== src/Model.antt =====
-- The JSON that the page receives (`internal/dashboard/service.go`, `internal/upstream/types.go`), as
-- web/app.js reads it. `W` is the type of JavaScript's numbers.
use copilot_api_dashboard.Base.{ℕ, String, Bool, Option, List}

-- What a field that may be absent, or of another type, holds.
pub data Value {ℓ} (W : Type ℓ) : Type ℓ where
  undefined null : Value W
  boolean : Bool → Value W
  num : W → Value W
  text : String → Value W

pub record SourceError : Type 0 where
  pub target : String
  pub operation : String
  pub message : String

pub record Cost {ℓ} (W : Type ℓ) : Type ℓ where
  pub currency : String
  pub total_cost_nanos : Value W

pub record Quota {ℓ} (W : Type ℓ) : Type ℓ where
  pub entitlement : Value W
  pub quota_remaining : Value W
  pub percent_remaining : Value W
  pub credits_used : Value W
  pub unlimited : Value W
  pub has_quota : Value W

-- `totals` of an account, a day or the dashboard, and the counts of a model.
pub record Usage {ℓ} (W : Type ℓ) : Type ℓ where
  pub input_tokens : Value W
  pub output_tokens : Value W
  pub cache_read_input_tokens : Value W
  pub cache_creation_input_tokens : Value W
  pub total_tokens : Value W
  pub request_count : Value W
  pub costs : Option (List (Cost W))

pub record Account {ℓ} (W : Type ℓ) : Type ℓ where
  pub login : String
  pub display_name : Option String
  pub copilot_plan : Option String
  pub quota_reset_date : Option String
  -- `quota_snapshots`
  pub premium_interactions : Option (Quota W)
  pub chat : Option (Quota W)
  pub completions : Option (Quota W)
  pub totals : Option (Usage W)

pub record Day {ℓ} (W : Type ℓ) : Type ℓ where
  pub date : String
  pub recorded : Value W
  pub totals : Option (Usage W)

pub record ModelUsage {ℓ} (W : Type ℓ) : Type ℓ where
  pub model : Option String
  pub usage : Usage W

pub record Dashboard {ℓ} (W : Type ℓ) : Type ℓ where
  pub accounts : Option (List (Account W))
  pub totals : Option (Usage W)
  pub days : Option (List (Day W))
  pub by_model : Option (List (ModelUsage W))

-- `local_time` is what `new Date(created_at_ms)` is as a text, `none` if it is no date.
pub record RequestEvent {ℓ} (W : Type ℓ) : Type ℓ where
  pub local_time : Option String
  pub created_at_utc : Option String
  pub model : Option String
  pub endpoint : Option String
  pub counts : Usage W
  pub duration_ms : Value W
  pub cost : Option (Cost W)
  pub request_outcome : Value W

pub record EventPage {ℓ} (W : Type ℓ) : Type ℓ where
  pub page : ℕ
  pub total_pages : ℕ
  pub total : ℕ
  pub items : List (RequestEvent W)
