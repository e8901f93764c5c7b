-- ===== src/Server/Resolve/Logins.antt =====
-- The accounts that `resolve` gives.
use copilot_api_dashboard.Base.{
  String, Bool, true, false, Option, none, some, List, [], ◌∷◌, ◌++◌, ◌||◌, any, str_eq,
  if◌then◌else◌, All, All_mono, ◌≡◌, refl, ap, subst, arith, ◌∙◌, eq_iff, Bool-cases, inl, inr,
}
use copilot_api_dashboard.Server.Keyed.{find}
use copilot_api_dashboard.Server.Keyed.Sorted.{
  Distinct, Ascending, sort-Ascending, find-sort, ne_sym,
}
use copilot_api_dashboard.Server.Service.{Endpoint, Failure, Resolved, failure}
use copilot_api_dashboard.Server.Resolve.{
  Fetched, no_usage, fetched, deduplicate, add_answer, collect, resolve,
}

fst_false : (b c : Bool) → (b || c) ≡ false → b ≡ false
fst_false b c h = ground arith

snd_false : (b c : Bool) → (b || c) ≡ false → c ≡ false
snd_false b c h = ground arith

skip_seen {ℓ} :
    {A : Type ℓ} (seen : List String) (login k : String) (x : A) (o : Option A)
    → any (str_eq login) seen ≡ true
    → (if any (str_eq k) seen then none else o)
      ≡ (if any (str_eq k) seen then none else (if str_eq login k then some x else o))
skip_seen seen login k x o h = elim (Bool-cases (str_eq login k)) [
  | inl e ↦
      let old : any (str_eq k) seen ≡ true =
        subst (λ l. any (str_eq l) seen ≡ true) ((eq_iff login k).0 e) h in
      rw old
  | inr e ↦ rw e
]

take_first {ℓ} :
    {A : Type ℓ} (seen : List String) (login k : String) (x : A) (o : Option A)
    → any (str_eq login) seen ≡ false
    → (if str_eq login k
        then some x
        else (if str_eq k login || any (str_eq k) seen then none else o))
      ≡ (if any (str_eq k) seen then none else (if str_eq login k then some x else o))
take_first seen login k x o h = elim (Bool-cases (str_eq login k)) [
  | inl e ↦
      let new : any (str_eq k) seen ≡ false =
        subst (λ l. any (str_eq l) seen ≡ false) ((eq_iff login k).0 e) h in
      rw (e, new)
  | inr e ↦ rw (e, ne_sym login k e)
]

module _ {ℓ} {Q : Type ℓ} (to_lower : String → String) (usage_of : Endpoint → Fetched Q) where
  abbrev key : Resolved Q → String
  key a = to_lower a.usage.login

  -- The accounts of the endpoints that answer, in the order of the endpoints.
  abbrev pub answer_of : Endpoint → Fetched Q → List (Resolved Q)
  answer_of e (no_usage message) = []
  answer_of e (fetched usage) = record { endpoint = e; usage = usage } ∷ []

  abbrev pub answers : List Endpoint → List (Resolved Q)
  answers [] = []
  answers (e ∷ es) = answer_of e (usage_of e) ++ answers es

  -- The errors of those that do not.
  abbrev pub error_of : Endpoint → Fetched Q → List Failure
  error_of e (no_usage message) = failure e "usage" message ∷ []
  error_of e (fetched usage) = []

  abbrev pub usage_errors : List Endpoint → List Failure
  usage_errors [] = []
  usage_errors (e ∷ es) = error_of e (usage_of e) ++ usage_errors es

  collect-new :
      (es : List Endpoint) (seen : List String)
      → All (λ a. any (str_eq (key a)) seen ≡ false) (collect to_lower usage_of es seen).0
  unfolding collect
  collect-new [] seen = tt
  collect-new (e ∷ es) seen = by_answer (usage_of e) (collect-new es)
    where
      by_answer :
          (f : Fetched Q)
          → ((s : List String)
              → All (λ a. any (str_eq (key a)) s ≡ false) (collect to_lower usage_of es s).0)
          → All
              (λ a. any (str_eq (key a)) seen ≡ false)
              (add_answer to_lower e seen f (collect to_lower usage_of es)).0
      by_answer (no_usage message) rec = rec seen
      by_answer (fetched usage) rec = elim (Bool-cases (any (str_eq (to_lower usage.login)) seen)) [
        | inl h ↦ rw h (rec seen)
        | inr h ↦ rw h (
          h,
          All_mono (λ a k. snd_false (str_eq (key a) (to_lower usage.login)) _ k) _
              (rec (to_lower usage.login ∷ seen)),
        )
      ]

  collect-Distinct :
      (es : List Endpoint) (seen : List String) → Distinct key (collect to_lower usage_of es seen).0
  unfolding collect
  collect-Distinct [] seen = tt
  collect-Distinct (e ∷ es) seen = by_answer (usage_of e) (collect-Distinct es)
    where
      by_answer :
          (f : Fetched Q)
          → ((s : List String) → Distinct key (collect to_lower usage_of es s).0)
          → Distinct key (add_answer to_lower e seen f (collect to_lower usage_of es)).0
      by_answer (no_usage message) rec = rec seen
      by_answer (fetched usage) rec = elim (Bool-cases (any (str_eq (to_lower usage.login)) seen)) [
        | inl h ↦ rw h (rec seen)
        | inr h ↦ rw h (
          All_mono
              (λ a k.
                ne_sym (key a) (to_lower usage.login)
                  (fst_false (str_eq (key a) (to_lower usage.login)) _ k))
              _ (collect-new es (to_lower usage.login ∷ seen)),
          rec (to_lower usage.login ∷ seen),
        )
      ]

  find-collect :
      (k : String) (es : List Endpoint) (seen : List String)
      → find key k (collect to_lower usage_of es seen).0
        ≡ (if any (str_eq k) seen then none else find key k (answers es))
  unfolding collect find
  find-collect k [] seen = elim (Bool-cases (any (str_eq k) seen)) [ inl h ↦ rw h | inr h ↦ rw h ]
  find-collect k (e ∷ es) seen = by_answer (usage_of e) (find-collect k es)
    where
      by_answer :
          (f : Fetched Q)
          → ((s : List String)
              → find key k (collect to_lower usage_of es s).0
                ≡ (if any (str_eq k) s then none else find key k (answers es)))
          → find key k (add_answer to_lower e seen f (collect to_lower usage_of es)).0
            ≡ (if any (str_eq k) seen then none else find key k (answer_of e f ++ answers es))
      by_answer (no_usage message) rec = rec seen
      by_answer (fetched usage) rec = elim (Bool-cases (any (str_eq (to_lower usage.login)) seen)) [
        | inl h ↦ let login = to_lower usage.login in rw h (rec seen ∙ skip_seen seen login k _ _ h)
        | inr h ↦
            let login = to_lower usage.login in
            rw (h, rec (login ∷ seen)) (take_first seen login k _ _ h)
      ]

  errors-collect :
      (es : List Endpoint) (seen : List String)
      → (collect to_lower usage_of es seen).1 ≡ usage_errors es
  unfolding collect
  errors-collect [] seen = refl
  errors-collect (e ∷ es) seen = by_answer (usage_of e) (errors-collect es)
    where
      by_answer :
          (f : Fetched Q)
          → ((s : List String) → (collect to_lower usage_of es s).1 ≡ usage_errors es)
          → (add_answer to_lower e seen f (collect to_lower usage_of es)).1
            ≡ error_of e f ++ usage_errors es
      by_answer (no_usage message) rec = ap (failure e "usage" message ∷◌) (rec seen)
      by_answer (fetched usage) rec = elim (Bool-cases (any (str_eq (to_lower usage.login)) seen)) [
        | inl h ↦ rw h (rec seen)
        | inr h ↦ rw h (rec (to_lower usage.login ∷ seen))
      ]

  -- Of the endpoints that are left when those with the address or the name of an earlier one are dropped,
  -- `resolve` lists the accounts by their logins in lower case, each login once, with the account of the first
  -- endpoint that answers for it; it adds an error for each endpoint that does not answer.
  pub resolve_lem :
      (endpoints : List Endpoint) (failures : List Failure)
      → let es = deduplicate endpoints in
        let r = resolve to_lower usage_of endpoints failures in
        Ascending key r.0
        × ((k : String) → find key k r.0 ≡ find key k (answers es))
        × (r.1 ≡ failures ++ usage_errors es)
  unfolding resolve
  resolve_lem endpoints failures =
      let es = deduplicate endpoints in
      let d = collect-Distinct es [] in
      (
        sort-Ascending key _ d,
        λ k. find-sort key k _ d ∙ find-collect k es [],
        ap (failures ++◌) (errors-collect es []),
      )
