-- ===== src/Sorting/Rows.antt =====
-- The rows of a sorted table.
use mathlib.Core.List.{Perm}
use mathlib.Core.List.Perm
use copilot_api_dashboard.Base.{
  ℕ, Bool, true, false, List, [], ◌∷◌, ◌≡◌, ◌≢◌, arith, Bool-cases, inl, inr, All,
}
use copilot_api_dashboard.Number.{Number, IsNumber}
use copilot_api_dashboard.Sorting.{
  Sign, positive, flip, Key, Collation, missing, is_positive, insert, sort, Sort, compare_rows,
  sorted_rows,
}
use copilot_api_dashboard.Sorting.Comparator.{
  IsOrder, IsCollation, RowKeys, compare_keys-IsOrder, missing_after,
}

module _ {ℓ} {A : Type ℓ} (cmp : A → A → Sign) where
  -- No element is after a later one.
  abbrev pub Sorted : List A → Type ℓ
  Sorted [] = Unit
  Sorted (x ∷ xs) = All (λ y. cmp x y ≢ positive) xs × Sorted xs

  insert-perm : (x : A) (ys : List A) → Perm (insert cmp x ys) (x ∷ ys)
  unfolding insert
  insert-perm x [] = Perm.refl (x ∷ [])
  insert-perm x (y ∷ ys) = elim (Bool-cases (is_positive (cmp x y))) [
    | inl e ↦ rw e (Perm.trans (Perm.cons y (insert-perm x ys)) (Perm.swap x y ys))
    | inr e ↦ rw e (Perm.refl (x ∷ y ∷ ys))
  ]

  pub sort-perm : (xs : List A) → Perm (sort cmp xs) xs
  unfolding sort
  sort-perm [] = Perm.refl []
  sort-perm (x ∷ xs) = Perm.trans (insert-perm x (sort cmp xs)) (Perm.cons x (sort-perm xs))

  All-insert {κ} : (P : A → Type κ) (x : A) (ys : List A) → P x → All P ys → All P (insert cmp x ys)
  unfolding insert
  All-insert P x [] p h = (p, tt)
  All-insert P x (y ∷ ys) p h = elim (Bool-cases (is_positive (cmp x y))) [
    | inl e ↦ rw e (h.0, All-insert P x ys p h.1)
    | inr e ↦ rw e (p, h)
  ]

  All-sort {κ} : (P : A → Type κ) (xs : List A) → All P xs → All P (sort cmp xs)
  unfolding sort
  All-sort P [] h = h
  All-sort P (x ∷ xs) h = All-insert P x (sort cmp xs) h.0 (All-sort P xs h.1)

  not_positive : (s : Sign) → is_positive s ≡ false → s ≢ positive
  not_positive s h e = cc (rw e at h)

  module _ {κ} (D : A → Type κ) (order : IsOrder D cmp) where
    before_rest :
        (x y : A) (zs : List A)
        → D x
        → D y
        → cmp x y ≢ positive
        → All D zs
        → All (λ z. cmp y z ≢ positive) zs
        → All (λ z. cmp x z ≢ positive) zs
    before_rest x y [] dx dy h dz g = tt
    before_rest x y (z ∷ zs) dx dy h dz g =
        (order.trans x y z dx dy dz.0 h g.0, before_rest x y zs dx dy h dz.1 g.1)

    insert-Sorted : (x : A) (ys : List A) → D x → All D ys → Sorted ys → Sorted (insert cmp x ys)
    unfolding insert flip
    insert-Sorted x [] dx dy s = (tt, tt)
    insert-Sorted x (y ∷ ys) dx dy s = elim (Bool-cases (is_positive (cmp x y))) [
      | inl e ↦
          let back : cmp y x ≢ positive = ground (arith, order.flips x y dx dy.0) in
          rw e (All-insert (λ z. cmp y z ≢ positive) x ys back s.0, insert-Sorted x ys dx dy.1 s.1)
      | inr e ↦
          let here = not_positive (cmp x y) e in
          rw e ((here, before_rest x y ys dx dy.0 here dy.1 s.0), s)
    ]

    pub sort-Sorted : (xs : List A) → All D xs → Sorted (sort cmp xs)
    unfolding sort
    sort-Sorted [] d = tt
    sort-Sorted (x ∷ xs) d =
        insert-Sorted x (sort cmp xs) d.0 (All-sort D xs d.1) (sort-Sorted xs d.1)

module _ {ℓ κ} {W : Type ℓ} ⦃n : Number W⦄ {A : Type κ} (laws : IsNumber W) (c : Collation W)
    (collation : IsCollation c) (getter : ℕ → A → Key W) where
  -- The keys of an item under a sort.
  abbrev pub keys : Sort → A → Key W × Key W
  keys s a = (getter s.column a, getter 0 a)

  compare_rows-IsOrder :
      (kind : Bool) (s : Sort)
      → IsOrder (λ a. RowKeys laws c collation kind (keys s a)) (compare_rows c getter s)
  unfolding compare_rows
  compare_rows-IsOrder kind s =
      let order = compare_keys-IsOrder laws c collation kind s.direction in
      record {
        flips = λ a b x y. order.flips (keys s a) (keys s b) x y;
        trans = λ a b k x y z. order.trans (keys s a) (keys s b) (keys s k) x y z;
      }

  -- The rows of a table are the items, each as often as it is given, and no row stands before one that the
  -- comparator puts first, if the sorted column has keys of one kind or none and the first column has texts.
  pub sorted_rows_lem :
      (kind : Bool) (s : Sort) (items : List A)
      → All (λ a. RowKeys laws c collation kind (keys s a)) items
      → Perm (sorted_rows c getter s items) items
        × Sorted (compare_rows c getter s) (sorted_rows c getter s items)
  unfolding sorted_rows
  sorted_rows_lem kind s items d = (
    sort-perm (compare_rows c getter s) items,
    sort-Sorted (compare_rows c getter s) _ (compare_rows-IsOrder kind s) items d,
  )

  -- Behind a row that misses the value of the sorted column, every row misses it.
  abbrev pub MissingLast : Sort → List A → Type 0
  MissingLast s [] = Unit
  MissingLast s (x ∷ xs) =
      (missing c (getter s.column x) ≡ true → All (λ y. missing c (getter s.column y) ≡ true) xs)
      × MissingLast s xs

  missing_rest :
      (s : Sort) (x : A) (ys : List A)
      → All (λ y. compare_rows c getter s x y ≢ positive) ys
      → missing c (getter s.column x) ≡ true
      → All (λ y. missing c (getter s.column y) ≡ true) ys
  unfolding compare_rows
  missing_rest s x [] h m = tt
  missing_rest s x (y ∷ ys) h m = (
    missing_after laws c collation s.direction (keys s x) (keys s y) h.0 m,
    missing_rest s x ys h.1 m,
  )

  Sorted-MissingLast :
      (s : Sort) (xs : List A) → Sorted (compare_rows c getter s) xs → MissingLast s xs
  Sorted-MissingLast s [] h = tt
  Sorted-MissingLast s (x ∷ xs) h = (missing_rest s x xs h.0, Sorted-MissingLast s xs h.1)

  -- In either direction the rows without a value in the sorted column come last, if that column has keys
  -- of one kind or none and the first column has texts.
  pub sorted_rows-MissingLast :
      (kind : Bool) (s : Sort) (items : List A)
      → All (λ a. RowKeys laws c collation kind (keys s a)) items
      → MissingLast s (sorted_rows c getter s items)
  sorted_rows-MissingLast kind s items d = Sorted-MissingLast s _ (sorted_rows_lem kind s items d).1
