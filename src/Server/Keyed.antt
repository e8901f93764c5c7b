-- ===== src/Server/Keyed.antt =====
-- internal/dashboard/aggregate.go: the loops of `addTotals`, `mergeModels` and `mergeDay`. Each looks for
-- the first entry with a key, appends one if there is none, adds to it, and at last sorts the entries by key.
pub mod Sorted
pub mod Merging
pub mod Joined
use copilot_api_dashboard.Base.{
  String, Bool, true, false, Option, none, some, List, [], ◌∷◌, str_eq, text_lt, if◌then◌else◌,
}

module _ {ℓ} {A : Type ℓ} (key : A → String) where
  -- The first entry with this key.
  unfoldable pub find : String → List A → Option A
  find k [] = none
  find k (x ∷ xs) = if str_eq (key x) k then some x else find k xs

  -- `dst[index]`, or the entry that is appended, is given what is added; `add none` is a new entry with it.
  unfoldable pub put : String → (Option A → A) → List A → List A
  put k add [] = add none ∷ []
  put k add (x ∷ xs) = if str_eq (key x) k then add (some x) ∷ xs else x ∷ put k add xs

  -- `sort.Slice` by the key. The keys are distinct, so that its result does not depend on how it sorts.
  unfoldable pub insert : A → List A → List A
  insert x [] = x ∷ []
  insert x (y ∷ ys) = if text_lt (key x) (key y) then x ∷ y ∷ ys else y ∷ insert x ys

  unfoldable pub sort : List A → List A
  unfolding insert
  sort [] = []
  sort (x ∷ xs) = insert x (sort xs)

  -- The loop over what is added, where `name` is its key.
  unfoldable pub put_all {κ} :
      {B : Type κ} → (B → String) → (B → Option A → A) → List A → List B → List A
  unfolding put
  put_all name add xs [] = xs
  put_all name add xs (b ∷ bs) = put_all name add (put (name b) (add b) xs) bs

  unfoldable pub merge {κ} :
      {B : Type κ} → (B → String) → (B → Option A → A) → List A → List B → List A
  unfolding sort put_all
  merge name add xs bs = sort (put_all name add xs bs)
