-- ===== src/Sorting.antt =====
-- web/app.js: the order of the rows of a table (`sortableTable`) and the clicks on its headers.
pub mod Comparator
pub mod Rows
pub mod Headers
pub mod Redraw
use copilot_api_dashboard.Base.{
  ℕ, String, Bool, true, false, Option, none, some, List, [], ◌∷◌, ◌&&◌, ◌||◌, not, if◌then◌else◌,
  ◌==◌,
}
use copilot_api_dashboard.Model.{Value, undefined, null, boolean, num, text}
use copilot_api_dashboard.Number.{Number}

-- The sign of what a comparator returns.
pub data Sign : Type 0 where
  negative zero positive : Sign

pub data Direction : Type 0 where
  ascending descending : Direction

unfoldable pub flip : Sign → Sign
flip negative = positive
flip zero = zero
flip positive = negative

-- `sign * sort.direction`
unfoldable pub times : Sign → Direction → Sign
unfolding flip
times s ascending = s
times s descending = flip s

-- `a || b` on numbers
unfoldable pub or_else : Sign → Sign → Sign
or_else zero b = b
or_else a b = a

-- `Number(missing(av)) - Number(missing(bv))`
unfoldable pub missing_last : Bool → Bool → Sign
missing_last false true = negative
missing_last true false = positive
missing_last a b = zero

-- What a getter of a column returns.
pub data Key {ℓ} (W : Type ℓ) : Type ℓ where
  absent : Key W
  number : W → Key W
  words : String → Key W
  truth : Bool → Key W

-- `localeCompare` with base sensitivity, and JavaScript's order of keys of two types or of truth values.
pub record Collation {ℓ} (W : Type ℓ) : Type ℓ where
  pub collate : String → String → Sign
  pub mixed : Key W → Key W → Sign

module _ {ℓ} {W : Type ℓ} ⦃n : Number W⦄ (c : Collation W) where
  open c use {collate, mixed}

  -- `value == null || (typeof value === "number" && Number.isNaN(value))`
  unfoldable pub missing : Key W → Bool
  missing absent = true
  missing (number w) = n.is_nan w
  missing (words s) = false
  missing (truth b) = false

  unfoldable pub compare : Key W → Key W → Sign
  compare (words a) (words b) = collate a b
  compare (number a) (number b) = if n.eq a b then zero else if n.lt a b then negative else positive
  compare a b = mixed a b

  -- The callback of `sort`, on the keys of the sorted column and of the first column.
  unfoldable pub compare_keys : Direction → Key W × Key W → Key W × Key W → Sign
  unfolding missing compare missing_last times or_else
  compare_keys d (av, a) (bv, b) =
      if missing av || missing bv
      then or_else (missing_last (missing av) (missing bv)) (compare a b)
      else or_else (times (compare av bv) d) (compare a b)

abbrev pub is_positive : Sign → Bool
is_positive positive = true
is_positive s = false

-- `Array.prototype.sort`, which is stable.
module _ {ℓ} {A : Type ℓ} (cmp : A → A → Sign) where
  unfoldable pub insert : A → List A → List A
  insert x [] = x ∷ []
  insert x (y ∷ ys) =
      let rest = insert x ys in if is_positive (cmp x y) then y ∷ rest else x ∷ y ∷ ys

  unfoldable pub sort : List A → List A
  unfolding insert
  sort [] = []
  sort (x ∷ xs) = insert x (sort xs)

pub record Sort : Type 0 where
  pub column : ℕ
  pub direction : Direction

abbrev pub reversed : Direction → Direction
reversed ascending = descending
reversed descending = ascending

-- A click on the button of a column.
unfoldable pub click_header : ℕ → Sort → Sort
click_header column sort = record {
  column = column;
  direction = if sort.column == column then reversed sort.direction else ascending;
}

-- `if (disabledCost && sorts[id].column === headers.length - 1) sorts[id] = { column: 0, direction: 1 };`
unfoldable pub without_cost : Bool → ℕ → Sort → Sort
without_cost disabled_cost last_column sort =
    if disabled_cost && (sort.column == last_column)
    then record { column = 0; direction = ascending }
    else sort

-- The rows of a table whose getters give the keys of an item in a column.
module _ {ℓ κ} {W : Type ℓ} ⦃n : Number W⦄ {A : Type κ} (c : Collation W)
    (getter : ℕ → A → Key W) where
  unfoldable pub compare_rows : Sort → A → A → Sign
  unfolding compare_keys
  compare_rows s a b =
      compare_keys c s.direction (getter s.column a, getter 0 a) (getter s.column b, getter 0 b)

  unfoldable pub sorted_rows : Sort → List A → List A
  unfolding compare_rows sort
  sorted_rows s items = sort (compare_rows s) items
