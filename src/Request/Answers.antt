-- ===== src/Request/Answers.antt =====
-- What a caller of `request` may rely on.
use copilot_api_dashboard.Base.{
  ℕ, String, Bool, true, false, Option, none, some, List, [], ◌∷◌, ◌≡◌, ◌≢◌, ◌⊎◌, inl, inr, ◌↔◌,
  sym, ◌∙◌, arith, Bool-cases, refl, decimal, ◌+++◌,
}
use copilot_api_dashboard.Request.{
  object, other, Settled, rejected, response, Envelope, Outcome, returned, thrown, is_thrown, is_ok,
  failure, read_object, request,
}
use copilot_api_dashboard.Model.{SourceError}

module _ {ℓ} {A : Type ℓ} (target operation : String) where
  -- The server's own answer, accepted: a status of success, or errors that explain the failure.
  abbrev pub IsServed : Settled A → Envelope A → Type ℓ
  IsServed s e =
      (status : ℕ) × (s ≡ response status (some (object (some e.errors) (some e.payload))))
      × ((is_ok status ≡ true) ⊎ (e.errors ≢ []))

  -- A failure that the page reports itself: no data, and one error that names the request.
  abbrev pub IsReported : Envelope A → Type ℓ
  IsReported e =
      (e.payload ≡ none)
      × ((message : String) × (e.errors
            ≡ record { target = target; operation = operation; message = message } ∷ []))

  failure-IsReported :
      (message : String) (e : Envelope A)
      → failure target operation message ≡ returned e
      → IsReported e
  failure-IsReported message e h = (ground arith, (message, ground arith))

  read_object_cases :
      (status : ℕ) (errors : Option (List SourceError)) (d : Option (Option A)) (e : Envelope A)
      → read_object target operation status errors d ≡ returned e
      → IsServed (response status (some (object errors d))) e ⊎ IsReported e
  unfolding read_object
  read_object_cases status none d e h = inr (failure-IsReported _ e h)
  read_object_cases status (some errors) none e h = inr (failure-IsReported _ e h)
  read_object_cases status (some []) (some d) e h = elim (Bool-cases (is_ok status)) [
    | inl fine ↦ inl (status, ground arith, inl fine)
    | inr bad ↦
        inr (failure-IsReported ("Request returned HTTP " +++ decimal status) e (rw bad at h))
  ]
  read_object_cases status (some (x ∷ errors)) (some d) e h =
      inl (status, ground arith, inr (ground arith))

  -- An envelope that `request` returns is the body that the server sent, with a status of success or
  -- with errors in it, or it has no data and exactly one error, which names the target and operation.
  request_cases :
      (aborted : Bool) (s : Settled A) (e : Envelope A)
      → request target operation aborted s ≡ returned e
      → IsServed s e ⊎ IsReported e
  unfolding request
  request_cases true rejected e h = cc
  request_cases false rejected e h = inr (failure-IsReported _ e h)
  request_cases true (response status none) e h = cc
  request_cases false (response status none) e h = inr (failure-IsReported _ e h)
  request_cases aborted (response status (some other)) e h = inr (failure-IsReported _ e h)
  request_cases aborted (response status (some (object errors d))) e h =
      read_object_cases status errors d e h

  -- The settlements that leave no body to read: a failed fetch, and a body that is no JSON.
  abbrev pub IsUnreadable : Settled A → Type 0
  IsUnreadable rejected = Unit
  IsUnreadable (response status none) = Unit
  IsUnreadable (response status (some body)) = ⊥

  read_object-ne-thrown :
      (status : ℕ) (errors : Option (List SourceError)) (d : Option (Option A))
      → read_object target operation status errors d ≢ thrown
  unfolding read_object
  read_object-ne-thrown status none d h = cc
  read_object-ne-thrown status (some errors) none h = cc
  read_object-ne-thrown status (some []) (some d) h = ground arith
  read_object-ne-thrown status (some (x ∷ errors)) (some d) h = cc

  -- `request` throws exactly when its signal is aborted and no body can be read.
  request-thrown_iff :
      (aborted : Bool) (s : Settled A)
      → (request target operation aborted s ≡ thrown) ↔ ((aborted ≡ true) × IsUnreadable s)
  unfolding request
  request-thrown_iff aborted rejected = ground arith
  request-thrown_iff aborted (response status none) = ground arith
  request-thrown_iff aborted (response status (some other)) = (λ h. cc, λ h. absurd h.1)
  request-thrown_iff aborted (response status (some (object errors d))) =
      (λ h. absurd (read_object-ne-thrown status errors d h), λ h. absurd h.1)

  -- While its signal is not aborted, `request` returns an envelope, whatever the server does.
  pub request_live :
      (s : Settled A) → (e : Envelope A) × (request target operation false s ≡ returned e)
  request_live s = of_outcome (request target operation false s) refl
    where
      of_outcome :
          (o : Outcome A)
          → request target operation false s ≡ o
          → (e : Envelope A) × (request target operation false s ≡ returned e)
      of_outcome (returned e) h = (e, h)
      of_outcome thrown h = cc (((request-thrown_iff false s).0 h).0)

  pub is_thrown-request :
      (aborted : Bool) (s : Settled A)
      → is_thrown (request target operation aborted s) ≡ true
      → aborted ≡ true
  is_thrown-request aborted s h =
      ((request-thrown_iff aborted s).0 (of_test (request target operation aborted s) h)).0
    where
      of_test : (o : Outcome A) → is_thrown o ≡ true → o ≡ thrown
      of_test (returned e) h = cc
      of_test thrown h = refl

  -- `request` throws if its signal is aborted and no body can be read, and only then. Otherwise it returns the
  -- body that the server sent, with a status of success or with errors in it, or no data and exactly one
  -- error, which names the target and operation.
  pub request_lem :
      (aborted : Bool) (s : Settled A)
      → ((request target operation aborted s ≡ thrown) × (aborted ≡ true) × IsUnreadable s)
        ⊎ ((e : Envelope A) × (request target operation aborted s ≡ returned e)
            × (IsServed s e ⊎ IsReported e)
            × ¬ ((aborted ≡ true) × IsUnreadable s))
  request_lem aborted s = of_outcome (request target operation aborted s) refl
    where
      of_outcome :
          (o : Outcome A)
          → request target operation aborted s ≡ o
          → ((o ≡ thrown) × (aborted ≡ true) × IsUnreadable s)
            ⊎ ((e : Envelope A) × (o ≡ returned e)
                × (IsServed s e ⊎ IsReported e)
                × ¬ ((aborted ≡ true) × IsUnreadable s))
      of_outcome thrown h =
          let (is_aborted, unreadable) = (request-thrown_iff aborted s).0 h in
          inl (refl, is_aborted, unreadable)
      of_outcome (returned e) h = inr (
        e,
        refl,
        request_cases aborted s e h,
        λ k. cc (sym h ∙ (request-thrown_iff aborted s).1 k),
      )
