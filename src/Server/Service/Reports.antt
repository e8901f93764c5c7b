-- ===== src/Server/Service/Reports.antt =====
-- The accounts and the errors that a response lists.
use copilot_api_dashboard.Base.{
  ℕ, String, Bool, true, false, List, [], ◌∷◌, ◌++◌, ◌&&◌, ◌||◌, not, any, map, str_eq,
  if◌then◌else◌, ◌≡◌, refl, sym, ap, arith, ◌∙◌, Bool-cases, inl, inr, append_assoc, append-nil,
}
use mathlib.Core.Bool.{or-false, or-true}
use mathlib.Core.List.{map-append}
use copilot_api_dashboard.Server.Fill.{Dates}
use copilot_api_dashboard.Server.Service.{
  Endpoint, Failure, Usage, Resolved, Account, Response, Loaded, failed, no_snapshot, snapshot,
  Progress, unavailable, failure, is_other, add_loaded, add_account, add_accounts,
  canonical_account, start_response, persisted_dashboard,
}

-- The error that loading an account's days adds.
abbrev pub load_errors {ℓ} : {F : Type ℓ} → Endpoint → Loaded F → List Failure
load_errors e (failed message) = failure e "persistence" message ∷ []
load_errors e no_snapshot = failure e "persistence" "usage has not been synchronized" ∷ []
load_errors e (snapshot days) = []

-- An account as it is listed: who it is, and its name.
abbrev pub listed {ℓ} : {F Q : Type ℓ} → Account F Q → Usage Q × String
listed a = (a.usage, a.display_name)

longer {ℓ} :
    {A : Type ℓ} {l xs : List A} (ys zs ws : List A)
    → xs ≡ ys ++ zs
    → l ≡ xs ++ ws
    → l ≡ ys ++ (zs ++ ws)
longer ys zs ws h k = k ∙ ap (λ v. v ++ ws) h ∙ append_assoc ys zs ws

last_error {ℓ} :
    {A : Type ℓ} (found : Bool) {xs : List A} (ys more : List A)
    → xs ≡ ys
    → (if found then xs else xs ++ more) ≡ ys ++ (if found then [] else more)
last_error true ys more h = h ∙ sym (append-nil ys)
last_error false ys more h = ap (λ v. v ++ more) h

module _ {ℓ} {F Q : Type ℓ} (to_lower aliases : String → String)
    (equal_fold : String → String → Bool)
    (load_daily : String → String → String → String → Loaded F) where
  -- The errors of the accounts that are asked for, in their order.
  abbrev pub account_errors : String → String → List (Resolved Q) → List Failure
  account_errors period login [] = []
  account_errors period login (a ∷ rest) =
      (if is_other equal_fold login a
        then []
        else load_errors a.endpoint
            (load_daily a.endpoint.name a.endpoint.url a.usage.login period))
      ++ account_errors period login rest

  -- The accounts are all there with their names; `found` tells whether one was asked for, or all; the errors
  -- are those of before, those of the accounts that were asked for, and that the account is not there.
  pub record IsReport (accounts : List (Resolved Q)) (failures : List Failure)
      (period login : String) (p : Progress F Q) : Type ℓ where
    pub all_listed :
        map listed p.response.accounts
        ≡ map (λ a. (a.usage, aliases (to_lower a.usage.login))) accounts
    pub is_found : p.found ≡ (str_eq login "" || any (λ a. equal_fold login a.usage.login) accounts)
    pub all_errors :
        p.response.errors
        ≡ failures
          ++ account_errors period login accounts
          ++ (if p.found then [] else unavailable login ∷ [])

  module _ (amount_of : ℕ → F) where
    abbrev round : String → Progress F Q → Resolved Q → Progress F Q
    round login p a = add_account amount_of to_lower aliases equal_fold load_daily login p a

    loaded_list :
        (a : Resolved Q) (r : Response F Q) (l : Loaded F)
        → map listed ((add_loaded amount_of to_lower aliases a r l).accounts)
          ≡ map listed r.accounts ++ (a.usage, aliases (to_lower a.usage.login)) ∷ []
    unfolding add_loaded
    loaded_list a r (failed message) = map-append listed r.accounts _
    loaded_list a r no_snapshot = map-append listed r.accounts _
    loaded_list a r (snapshot days) = map-append listed r.accounts _

    loaded_errors :
        (a : Resolved Q) (r : Response F Q) (l : Loaded F)
        → (add_loaded amount_of to_lower aliases a r l).errors
          ≡ r.errors ++ load_errors a.endpoint l
    unfolding add_loaded
    loaded_errors a r (failed message) = refl
    loaded_errors a r no_snapshot = refl
    loaded_errors a r (snapshot days) = sym (append-nil r.errors)

    pub loaded_period :
        (a : Resolved Q) (r : Response F Q) (l : Loaded F)
        → (add_loaded amount_of to_lower aliases a r l).period ≡ r.period
    unfolding add_loaded
    loaded_period a r (failed message) = refl
    loaded_period a r no_snapshot = refl
    loaded_period a r (snapshot days) = refl

    -- What a round adds.
    record Rounded (login : String) (p q : Progress F Q) (a : Resolved Q) : Type ℓ where
      period : q.response.period ≡ p.response.period
      found : q.found ≡ (p.found || not (is_other equal_fold login a))
      accounts :
          map listed q.response.accounts
          ≡ map listed p.response.accounts ++ (a.usage, aliases (to_lower a.usage.login)) ∷ []
      errors :
          q.response.errors
          ≡ p.response.errors
            ++ (if is_other equal_fold login a
                then []
                else load_errors a.endpoint
                    (load_daily a.endpoint.name a.endpoint.url a.usage.login p.response.period))

    round-Rounded :
        (login : String) (p : Progress F Q) (a : Resolved Q) → Rounded login p (round login p a) a
    unfolding add_account
    round-Rounded login p a = elim (Bool-cases (is_other equal_fold login a)) [
      | inl e ↦ record {
        period = rw e refl;
        found = rw e (sym (or-false p.found));
        accounts = rw e (map-append listed p.response.accounts _);
        errors = rw e (sym (append-nil p.response.errors));
      }
      | inr e ↦
          let r = canonical_account login a p.response in
          let l = load_daily a.endpoint.name a.endpoint.url a.usage.login p.response.period in
          record {
            period = rw e (loaded_period a r l);
            found = rw e (sym (or-true p.found));
            accounts = rw e (loaded_list a r l);
            errors = rw e (loaded_errors a r l);
          }
    ]

    -- What the rounds add.
    rounds :
        (login : String) (p : Progress F Q) (accounts : List (Resolved Q))
        → let q = add_accounts amount_of to_lower aliases equal_fold load_daily login p accounts in
          (q.response.period ≡ p.response.period)
          × (q.found ≡ (p.found || any (λ a. not (is_other equal_fold login a)) accounts))
          × (map listed q.response.accounts
              ≡ map listed p.response.accounts
                ++ map (λ a. (a.usage, aliases (to_lower a.usage.login))) accounts)
          × (q.response.errors
              ≡ p.response.errors ++ account_errors p.response.period login accounts)
    unfolding add_accounts
    rounds login p [] = (refl, sym (or-false p.found), sym (append-nil _), sym (append-nil _))
    rounds login p (a ∷ rest) =
        let h = round-Rounded login p a in
        let (period, found, all, errors) = rounds login (round login p a) rest in
        (
          period ∙ h.period,
          found ∙ either p.found _ _ _ h.found,
          longer (map listed p.response.accounts) _ _ h.accounts all,
          longer p.response.errors _ _ h.errors (
              errors
              ∙ ap (λ q. (round login p a).response.errors ++ account_errors q login rest)
                  h.period),
        )
      where
        either : (p q b c : Bool) → q ≡ (p || b) → (q || c) ≡ (p || (b || c))
        either p q b c h = ground arith

    any_other :
        (login : String) (accounts : List (Resolved Q))
        → (str_eq login "" || any (λ a. not (is_other equal_fold login a)) accounts)
          ≡ (str_eq login "" || any (λ a. equal_fold login a.usage.login) accounts)
    any_other login [] = refl
    any_other login (a ∷ rest) =
        same (str_eq login "") (equal_fold login a.usage.login) _ _ (any_other login rest)
      where
        same :
            (all named b c : Bool)
            → (all || b) ≡ (all || c)
            → (all || (not (not all && not named) || b)) ≡ (all || (named || c))
        same all named b c h = ground arith

    -- Whatever the loads give, the response lists all the accounts with their names, and `found` and the errors
    -- are what they should be.
    pub persisted_dashboard-IsReport :
        (t : Dates) (now : ℕ) (accounts : List (Resolved Q)) (failures : List Failure)
        (period login : String)
        → IsReport accounts failures period login (
            persisted_dashboard amount_of to_lower aliases equal_fold load_daily t now accounts
              failures period login)
    unfolding persisted_dashboard
    persisted_dashboard-IsReport t now accounts failures period login =
        let (at, found, all, errors) =
          rounds login (start_response failures period login) accounts in
        record {
          all_listed = all;
          is_found = found ∙ any_other login accounts;
          all_errors =
              last_error _ (failures ++ account_errors period login accounts)
                (unavailable login ∷ []) errors;
        }
