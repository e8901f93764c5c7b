-- ===== src/Errors/Unique.antt =====
-- The list that is shown holds each error once.
use copilot_api_dashboard.Base.{
  Bool, true, false, List, [], ◌∷◌, ◌++◌, ◌≡◌, refl, arith, eq_iff, Bool-cases, inl, inr, any, ◌||◌,
  ◌∙◌,
}
use copilot_api_dashboard.Model.{SourceError}
use copilot_api_dashboard.Errors.{same_key, put_error, put_errors, unique_errors}

-- The error stands in the list, by its key.
abbrev pub shows : List SourceError → SourceError → Bool
shows us x = any (λ u. same_key u x) us

-- No two entries have the same key.
abbrev pub Distinct : List SourceError → Type 0
Distinct [] = Unit
Distinct (x ∷ xs) = (shows xs x ≡ false) × Distinct xs

same_key-eq : (a b : SourceError) → same_key a b ≡ true → a ≡ b
same_key-eq a b h =
    let p : a.target ≡ b.target = (eq_iff a.target b.target).0 (ground arith) in
    let q : a.operation ≡ b.operation = (eq_iff a.operation b.operation).0 (ground arith) in
    let r : a.message ≡ b.message = (eq_iff a.message b.message).0 (ground arith) in
    λ i. record { target = p i; operation = q i; message = r i }

same_key_self : (a : SourceError) → same_key a a ≡ true
same_key_self a =
    ground
      (arith, eq_iff a.target a.target, eq_iff a.operation a.operation, eq_iff a.message a.message)

same_key_comm : (a b : SourceError) → same_key a b ≡ false → same_key b a ≡ false
same_key_comm a b h = elim (Bool-cases (same_key b a)) [
  | inl e ↦ cc (rw (same_key-eq b a e) at h, same_key_self a)
  | inr e ↦ e
]

shows-put_error :
    (e x : SourceError) (us : List SourceError)
    → shows (put_error e us) x ≡ (same_key e x || shows us x)
unfolding put_error
shows-put_error e x [] = refl
shows-put_error e x (y ∷ us) = elim (Bool-cases (same_key y e)) [
  | inl h ↦ rw h (let same = same_key-eq y e h in rw same (ground arith))
  | inr h ↦ rw h (rw (shows-put_error e x us) (ground arith))
]

shows-put_errors :
    (es us : List SourceError) (x : SourceError)
    → shows (put_errors es us) x ≡ (shows es x || shows us x)
unfolding put_errors
shows-put_errors [] us x = refl
shows-put_errors (e ∷ es) us x =
    shows-put_errors es (put_error e us) x ∙ rw (shows-put_error e x us) (ground arith)

put_error-Distinct :
    (e : SourceError) (us : List SourceError) → Distinct us → Distinct (put_error e us)
unfolding put_error
put_error-Distinct e [] d = (refl, tt)
put_error-Distinct e (y ∷ us) d = elim (Bool-cases (same_key y e)) [
  | inl h ↦ rw h (let same = same_key-eq y e h in (rw (← same) (d.0), d.1))
  | inr h ↦ rw h (
    rw (shows-put_error e y us) (ground (arith, same_key_comm y e h, d.0)),
    put_error-Distinct e us d.1,
  )
]

put_errors-Distinct : (es us : List SourceError) → Distinct us → Distinct (put_errors es us)
unfolding put_errors
put_errors-Distinct [] us d = d
put_errors-Distinct (e ∷ es) us d =
    put_errors-Distinct es (put_error e us) (put_error-Distinct e us d)

-- `renderErrors` lists each error of the dashboard and of the events once: no two entries have the same
-- target, operation and message, and an error stands in the list exactly when it is one of the two lists'.
pub unique_errors_lem :
    (ds es : List SourceError)
    → Distinct (unique_errors ds es)
      × ((x : SourceError) → shows (unique_errors ds es) x ≡ shows (ds ++ es) x)
unfolding unique_errors
unique_errors_lem ds es =
    (put_errors-Distinct (ds ++ es) [] tt, λ x. shows-put_errors (ds ++ es) [] x ∙ ground arith)
