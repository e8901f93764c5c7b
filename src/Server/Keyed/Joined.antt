-- ===== src/Server/Keyed/Joined.antt =====
-- Entries appended to entries that lack their keys.
use copilot_api_dashboard.Base.{
  String, false, Option, none, some, List, [], ◌∷◌, ◌++◌, str_eq, All, ◌≡◌, refl, subst, Bool-cases,
  inl, inr,
}
use mathlib.Core.Option.{some-injective}
use copilot_api_dashboard.Server.Keyed.{find}
use copilot_api_dashboard.Server.Keyed.Sorted.{Distinct}

-- The first of two results that is there.
abbrev pub or_else {ℓ} : {A : Type ℓ} → Option A → Option A → Option A
or_else (some x) o = some x
or_else none o = o

module _ {ℓ} {A : Type ℓ} (key : A → String) where
  pub find-append :
      (k : String) (xs ys : List A)
      → find key k (xs ++ ys) ≡ or_else (find key k xs) (find key k ys)
  unfolding find
  find-append k [] ys = refl
  find-append k (x ∷ xs) ys = elim (Bool-cases (str_eq (key x) k)) [
    | inl e ↦ rw e
    | inr e ↦ rw e (find-append k xs ys)
  ]

  All-append {μ} : (P : A → Type μ) (xs ys : List A) → All P xs → All P ys → All P (xs ++ ys)
  All-append P [] ys p q = q
  All-append P (x ∷ xs) ys p q = (p.0, All-append P xs ys p.1 q)

  pub Distinct-append :
      (xs ys : List A)
      → Distinct key xs
      → Distinct key ys
      → All (λ x. All (λ y. str_eq (key x) (key y) ≡ false) ys) xs
      → Distinct key (xs ++ ys)
  Distinct-append [] ys d e h = e
  Distinct-append (x ∷ xs) ys d e h = (
    All-append (λ y. str_eq (key x) (key y) ≡ false) xs ys d.0 h.0,
    Distinct-append xs ys d.1 e h.1,
  )

  -- A property of all entries holds of what is found.
  pub All-find {μ} :
      (P : A → Type μ) (k : String) (xs : List A) (x : A) → All P xs → find key k xs ≡ some x → P x
  unfolding find
  All-find P k [] x h e = cc
  All-find P k (y ∷ ys) x h e = elim (Bool-cases (str_eq (key y) k)) [
    | inl f ↦ first (rw f at e) h.0
    | inr f ↦ All-find P k ys x h.1 (rw f at e)
  ]
    where
      first : some y ≡ some x → P y → P x
      first e p = subst P (some-injective y x e) p
