-- ===== src/Sorting/Comparator.antt =====
-- The comparator of the rows is consistent: it is a total preorder on the rows of a table whose sorted
-- column holds texts only or numbers only, and whose first column holds names.
use copilot_api_dashboard.Base.{
  String, Bool, true, false, ◌||◌, if◌then◌else◌, ◌≡◌, ◌≢◌, arith, refl, Bool-cases, inl, inr, ◌∙◌,
  sym,
}
use copilot_api_dashboard.Number.{Number, IsNumber, ◌≼◌}
use copilot_api_dashboard.Sorting.{
  Sign, negative, zero, positive, Direction, ascending, descending, flip, times, or_else, Key,
  absent, number, words, Collation, missing, compare, missing_last, compare_keys,
}

-- `flip` on the other side, and "not after" is transitive.
pub record IsOrder {ℓ κ} {A : Type ℓ} (D : A → Type κ) (cmp : A → A → Sign) : Type (ℓ ⊔ κ) where
  pub flips : (a b : A) → D a → D b → cmp b a ≡ flip (cmp a b)
  pub trans :
      (a b c : A) → D a → D b → D c → cmp a b ≢ positive → cmp b c ≢ positive → cmp a c ≢ positive

flip-flip : (s : Sign) → flip (flip s) ≡ s
unfolding flip
flip-flip negative = refl
flip-flip zero = refl
flip-flip positive = refl

flip-or_else : (a b : Sign) → or_else (flip a) (flip b) ≡ flip (or_else a b)
unfolding flip or_else
flip-or_else negative b = refl
flip-or_else zero b = refl
flip-or_else positive b = refl

-- An order, and where it does not decide a second one.
module _ {ℓ κ} {A : Type ℓ} (D : A → Type κ) (f g : A → A → Sign) where
  or_else-IsOrder : IsOrder D f → IsOrder D g → IsOrder D (λ a b. or_else (f a b) (g a b))
  unfolding flip or_else
  or_else-IsOrder p q = record {
    flips = λ a b x y. ground (arith, p.flips a b x y, q.flips a b x y);
    trans = λ a b c x y z h k. ground (
      arith,
      p.trans a b c x y z,
      p.trans c a b z x y,
      p.trans b c a y z x,
      p.flips a b x y,
      p.flips b c y z,
      p.flips a c x z,
      q.trans a b c x y z,
    );
  }

-- The texts or the numbers of a column, or no value.
abbrev pub OfKind {ℓ} : {W : Type ℓ} → Bool → Key W → Type 0
OfKind kind absent = Unit
OfKind true (words s) = Unit
OfKind false (number w) = Unit
OfKind kind key = ⊥

pub record IsCollation {ℓ} {W : Type ℓ} (c : Collation W) : Type ℓ where
  pub flips : (a b : String) → c.collate b a ≡ flip (c.collate a b)
  pub trans :
      (x y z : String)
      → c.collate x y ≢ positive
      → c.collate y z ≢ positive
      → c.collate x z ≢ positive

module _ {ℓ} {W : Type ℓ} ⦃n : Number W⦄ (laws : IsNumber W) (c : Collation W)
    (collation : IsCollation c) where
  open laws use {le_trans, le_of_not_lt, le_of_lt, le_of_eq, eq_iff, lt_of_le-not_eq, not_lt_of_le}

  number_flips :
      (a b : W)
      → n.is_nan a ≡ false
      → n.is_nan b ≡ false
      → compare c (number b) (number a) ≡ flip (compare c (number a) (number b))
  unfolding compare flip
  number_flips a b x y = ground (
    arith,
    le_of_eq a b,
    le_of_eq b a,
    eq_iff a b,
    eq_iff b a,
    le_of_lt a b,
    not_lt_of_le a b,
    le_of_not_lt a b,
    lt_of_le-not_eq b a,
  )

  number_le : (a b : W) → compare c (number a) (number b) ≢ positive → a ≼ b
  unfolding compare
  number_le a b h = ground (arith, le_of_eq a b, le_of_lt a b)

  le_number : (a b : W) → a ≼ b → compare c (number a) (number b) ≢ positive
  unfolding compare
  le_number a b h = ground (arith, lt_of_le-not_eq a b)

  -- Keys of one kind that are not missing.
  abbrev Present : Bool → Key W → Type 0
  Present kind a = OfKind kind a × (missing c a ≡ false)

  compare_flips :
      (kind : Bool) (a b : Key W)
      → Present kind a
      → Present kind b
      → compare c b a ≡ flip (compare c a b)
  unfolding compare missing
  compare_flips true (words a) (words b) x y = collation.flips a b
  compare_flips false (number a) (number b) x y = number_flips a b x.1 y.1
  compare_flips kind a b x y = ground arith

  compare_trans :
      (kind : Bool) (a b k : Key W)
      → Present kind a
      → Present kind b
      → Present kind k
      → compare c a b ≢ positive
      → compare c b k ≢ positive
      → compare c a k ≢ positive
  unfolding compare missing
  compare_trans true (words a) (words b) (words k) x y z h g = collation.trans a b k h g
  compare_trans false (number a) (number b) (number k) x y z h g =
      le_number a k (le_trans a b k (number_le a b h) (number_le b k g))
  compare_trans kind a b k x y z h g = ground arith

  -- The first part of the comparator: missing values last, then by direction.
  abbrev by_column : Direction → Key W → Key W → Sign
  by_column d a b =
      if missing c a || missing c b
      then missing_last (missing c a) (missing c b)
      else times (compare c a b) d

  by_column-IsOrder : (kind : Bool) (d : Direction) → IsOrder (OfKind kind) (by_column d)
  unfolding flip times missing_last
  by_column-IsOrder kind ascending = record {
    flips = λ a b x y. ground (arith, compare_flips kind a b);
    trans = λ a b k x y z h g. ground (arith, compare_trans kind a b k);
  }
  by_column-IsOrder kind descending = record {
    flips = λ a b x y. ground (arith, compare_flips kind a b, flip-flip (compare c a b));
    trans = λ a b k x y z h g. ground (
      arith,
      compare_trans kind k b a,
      compare_flips kind a b,
      compare_flips kind b k,
      compare_flips kind a k,
    );
  }

  -- The keys of a row: in the sorted column, of one kind or missing, and in the first one, a text.
  abbrev pub RowKeys : Bool → Key W × Key W → Type 0
  RowKeys kind (v, name) = OfKind kind v × Present true name

  compare_keys_lem :
      (d : Direction) (x y : Key W × Key W)
      → compare_keys c d x y ≡ or_else (by_column d x.0 y.0) (compare c x.1 y.1)
  unfolding compare_keys
  compare_keys_lem d (v, a) (w, b) = elim (Bool-cases (missing c v || missing c w)) [
    | inl e ↦ rw e
    | inr e ↦ rw e
  ]

  -- In either direction, on rows whose keys are of one kind and whose names are texts, the callback of
  -- `sort` is a total preorder: exchanging its arguments negates it, and "not after" is transitive.
  pub compare_keys-IsOrder :
      (kind : Bool) (d : Direction) → IsOrder (RowKeys kind) (compare_keys c d)
  compare_keys-IsOrder kind d =
      let column = by_column-IsOrder kind d in
      let both =
        or_else-IsOrder (RowKeys kind) (λ x y. by_column d x.0 y.0) (λ x y. compare c x.1 y.1)
          (record {
            flips = λ a b x y. column.flips a.0 b.0 x.0 y.0;
            trans = λ a b k x y z. column.trans a.0 b.0 k.0 x.0 y.0 z.0;
          })
          (record {
            flips = λ a b x y. compare_flips true a.1 b.1 x.1 y.1;
            trans = λ a b k x y z. compare_trans true a.1 b.1 k.1 x.1 y.1 z.1;
          }) in
      record {
        flips = λ a b x y. rw (compare_keys_lem d b a, compare_keys_lem d a b) (both.flips a b x y);
        trans = λ a b k x y z h g e.
            both.trans a b k x y z (λ q. h (compare_keys_lem d a b ∙ q))
              (λ q. g (compare_keys_lem d b k ∙ q)) (sym (compare_keys_lem d a k) ∙ e);
      }

  -- A missing value is never before a value, in either direction.
  pub missing_after :
      (d : Direction) (x y : Key W × Key W)
      → compare_keys c d x y ≢ positive
      → missing c x.0 ≡ true
      → missing c y.0 ≡ true
  unfolding compare_keys missing_last
  missing_after d (v, a) (w, b) h m = elim (Bool-cases (missing c w)) [
    | inl e ↦ e
    | inr e ↦ absurd (h (rw (m, e)))
  ]
