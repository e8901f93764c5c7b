-- ===== src/Number/Milli.antt =====
-- The laws can be met: thousandths, with `none` for NaN.
use copilot_api_dashboard.Base.{
  ℕ, ◌+◌, ◌-◌, ◌*◌, ◌/◌, ◌%◌, ◌≤◌, if◌then◌else◌, Bool, true, false, ◌≡◌, Option, none, some, ltb,
  leb, ◌==◌, arith, refl,
}
use Prim.Native.Nat.{max, min}
use native.Mathlib.Nat.{div-le_of_le-mul}
use copilot_api_dashboard.Number.{Number, IsNumber, ◌≼◌, max_safe_integer}

abbrev pub Milli : Type 0
Milli = Option ℕ

abbrev on_tests : (ℕ → ℕ → Bool) → Milli → Milli → Bool
on_tests f (some a) (some b) = f a b
on_tests f _ _ = false

abbrev on_values : (ℕ → ℕ → ℕ) → Milli → Milli → Milli
on_values f (some a) (some b) = some (f a b)
on_values f _ _ = none

abbrev has_value : Milli → Bool
has_value none = false
has_value (some a) = true

abbrev no_value : Milli → Bool
no_value none = true
no_value (some a) = false

abbrev rounded : Milli → Milli
rounded none = none
rounded (some a) = some ((a + 500) / 1000 * 1000)

abbrev place : Milli → Option ℕ
place none = none
place (some a) = if a % 1000 == 0 then some (a / 1000) else none

instance abbrev pub milli_number : Number Milli
milli_number = record {
  of_ℕ = λ k. some (k * 1000);
  is_nan = no_value;
  is_finite = has_value;
  eq = on_tests λ a b. a == b;
  lt = on_tests ltb;
  le = on_tests leb;
  add = on_values λ a b. a + b;
  sub = on_values λ a b. a - b;
  mul = on_values λ a b. a * b / 1000;
  div = on_values λ a b. a * 1000 / b;
  max = on_values max;
  min = on_values min;
  round = λ a. rounded a;
  index = λ a. place a;
}

-- On thousandths: a part of a whole is at most one, and a fraction of a number is at most the number.
div_part : (a b : ℕ) → a ≤ b → a * 1000 / b ≤ 1000
div_part a b h = div-le_of_le-mul b (omega arith)

mul_part : (a b : ℕ) → a ≤ 1000 → a * b / 1000 ≤ b
mul_part a b h = div-le_of_le-mul 1000 (grind arith)

fraction :
    (a b : Milli)
    → some 0 ≼ a
    → a ≼ b
    → milli_number.lt (some 0) b ≡ true
    → milli_number.is_finite b ≡ true
    → (some 0 ≼ milli_number.div a b) × (milli_number.div a b ≼ some 1000)
fraction none b h k p f = cc
fraction (some a) none h k p f = cc
fraction (some a) (some b) h k p f = ground (arith, div_part a b)

product :
    (a b : Milli)
    → some 0 ≼ a
    → a ≼ some 1000
    → some 0 ≼ b
    → milli_number.is_finite b ≡ true
    → milli_number.mul a b ≼ b
product none b h k p f = cc
product (some a) none h k p f = cc
product (some a) (some b) h k p f = ground (arith, mul_part a b)

round_place :
    (a : Milli) (k : ℕ)
    → k ≤ max_safe_integer
    → some 0 ≼ a
    → a ≼ some (k * 1000)
    → (j : ℕ) × (j ≤ k) × (place (rounded a) ≡ some j)
round_place none k h p q = cc
round_place (some a) k h p q = ((a + 500) / 1000, ground arith, ground arith)

pub Milli-IsNumber : IsNumber Milli
Milli-IsNumber = record {
  finite-not_nan = λ a h. ground arith;
  finite_of_bounds = λ a b c h k p q. ground arith;
  finite_numeral = λ k h. refl;
  le_numeral = λ j k h p. ground arith;
  lt_numeral = λ j k h p. ground arith;
  le_refl = λ a h. ground arith;
  le_trans = λ a b c h k. ground arith;
  not_nan_of_le = λ a b h. ground arith;
  le_of_not_lt = λ a b h k l. ground arith;
  le_of_lt = λ a b h. ground arith;
  lt_of_le-not_eq = λ a b h k. ground arith;
  not_lt_of_le = λ a b h. ground arith;
  eq_iff = λ a b h k p q. ground arith;
  le_of_eq = λ a b h. ground arith;
  max_left = λ a b h k. ground arith;
  max_right = λ a b h k. ground arith;
  max_cases = λ a b h k. ground arith;
  max_least = λ a b c h k. ground arith;
  min_left = λ a b h k. ground arith;
  min_right = λ a b h k. ground arith;
  min_greatest = λ a b c h k. ground arith;
  sub_nonneg = λ a b h k l. ground arith;
  sub_le = λ a b h k l. ground arith;
  sub_mono = λ a b c h k. ground arith;
  sub_anti = λ a b c h k l m. ground arith;
  sub-not_nan = λ a b h k. ground arith;
  sub_pos = λ a b h k l. ground arith;
  sub_numeral = λ j k h l. ground arith;
  index_numeral = λ k h. ground arith;
  index-round = round_place;
  add_left = λ a b h k. ground arith;
  add_right = λ a b h k. ground arith;
  div_fraction = fraction;
  div_nonneg = λ a b h k l. ground arith;
  mul_nonneg = λ a b h k l m. ground arith;
  mul_fraction = product;
}
