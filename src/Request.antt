-- ===== src/Request.antt =====
-- web/app.js: `request`, the one place that talks to the server.
pub mod Answers
use copilot_api_dashboard.Base.{
  ℕ, String, Bool, true, false, Option, none, some, List, [], ◌∷◌, leb, ◌&&◌, not, if◌then◌else◌,
  decimal, ◌+++◌,
}
use copilot_api_dashboard.Model.{SourceError}

-- The parsed body: `errors` is `none` unless it is an array, and `payload` is `none` if the object has
-- no key `data`, `some none` if that is null. Anything that is no object is `other`.
pub data Body {ℓ} (A : Type ℓ) : Type ℓ where
  other : Body A
  object : Option (List SourceError) → Option (Option A) → Body A

-- How `fetch` and `response.json()` end: a rejection, or a status with the body, `none` if it is no JSON.
pub data Settled {ℓ} (A : Type ℓ) : Type ℓ where
  rejected : Settled A
  response : ℕ → Option (Body A) → Settled A

pub record Envelope {ℓ} (A : Type ℓ) : Type ℓ where
  pub payload : Option A
  pub errors : List SourceError

pub data Outcome {ℓ} (A : Type ℓ) : Type ℓ where
  returned : Envelope A → Outcome A
  thrown : Outcome A

abbrev pub is_thrown {ℓ} : {A : Type ℓ} → Outcome A → Bool
is_thrown (returned e) = false
is_thrown thrown = true

-- `response.ok`
abbrev pub is_ok : ℕ → Bool
is_ok status = leb 200 status && leb status 299

module _ {ℓ} {A : Type ℓ} (target operation : String) where
  abbrev failure : String → Outcome A
  failure message = returned (record {
    payload = none;
    errors = record { target = target; operation = operation; message = message } ∷ [];
  })

  unfoldable pub read_object : ℕ → Option (List SourceError) → Option (Option A) → Outcome A
  read_object status none d = failure ("Invalid response (HTTP " +++ decimal status +++ ")")
  read_object status (some errors) none =
      failure ("Invalid response (HTTP " +++ decimal status +++ ")")
  read_object status (some []) (some d) =
      if not (is_ok status)
      then failure ("Request returned HTTP " +++ decimal status)
      else returned (record { payload = d; errors = [] })
  read_object status (some (e ∷ errors)) (some d) =
      returned (record { payload = d; errors = e ∷ errors })

  -- `aborted` is the signal when the response or its body settles.
  unfoldable pub request : Bool → Settled A → Outcome A
  unfolding read_object
  request aborted rejected = if aborted then thrown else failure "Network request failed"
  request aborted (response status none) =
      if aborted
      then thrown
      else failure ("Invalid JSON response (HTTP " +++ decimal status +++ ")")
  request aborted (response status (some other)) =
      failure ("Invalid response (HTTP " +++ decimal status +++ ")")
  request aborted (response status (some (object errors d))) = read_object status errors d
