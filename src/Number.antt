-- ===== src/Number.antt =====
-- JavaScript's numbers, which are no part of the program: the operations that web/app.js uses, as an
-- interface, and the laws of IEEE 754 arithmetic that the theorems rest on.
pub mod Milli
use copilot_api_dashboard.Base.{
  ℕ, ◌-◌, Bool, true, false, Option, none, some, ◌≡◌, ◌≤◌, ◌<◌, ◌⊎◌, not,
}
use copilot_api_dashboard.Model.{Value, undefined, null, boolean, num, text}

pub record Number {ℓ} (W : Type ℓ) : Type ℓ where
  -- a numeral of the program
  pub of_ℕ : ℕ → W
  pub is_nan : W → Bool
  -- `Number.isFinite`
  pub is_finite : W → Bool
  -- `===`, `<` and `<=`
  pub eq : W → W → Bool
  pub lt : W → W → Bool
  pub le : W → W → Bool
  pub add : W → W → W
  pub sub : W → W → W
  pub mul : W → W → W
  pub div : W → W → W
  -- `Math.max`, `Math.min` and `Math.round`
  pub max : W → W → W
  pub min : W → W → W
  pub round : W → W
  -- the place in an array that a number names
  pub index : W → Option ℕ

infix 4 ◌≼◌
abbrev pub ◌≼◌ {ℓ} : {W : Type ℓ} ⦃n : Number W⦄ → W → W → Type 0
◌≼◌ ⦃n⦄ a b = n.le a b ≡ true

-- `Number.MAX_SAFE_INTEGER`
abbrev pub max_safe_integer : ℕ
max_safe_integer = 9_007_199_254_740_991

-- The operations round to the nearest number, so they are monotone and exact where the result is a number
-- already; an order between numbers that are not NaN is total.
pub record IsNumber {ℓ} (W : Type ℓ) ⦃n : Number W⦄ : Type ℓ where
  pub finite-not_nan : (a : W) → n.is_finite a ≡ true → n.is_nan a ≡ false
  pub finite_of_bounds :
      (a b c : W)
      → n.is_finite a ≡ true
      → n.is_finite c ≡ true
      → a ≼ b
      → b ≼ c
      → n.is_finite b ≡ true
  pub finite_numeral : (k : ℕ) → k ≤ max_safe_integer → n.is_finite (n.of_ℕ k) ≡ true
  pub le_numeral : (j k : ℕ) → j ≤ k → k ≤ max_safe_integer → n.of_ℕ j ≼ n.of_ℕ k
  pub lt_numeral : (j k : ℕ) → j < k → k ≤ max_safe_integer → n.lt (n.of_ℕ j) (n.of_ℕ k) ≡ true
  pub le_refl : (a : W) → n.is_nan a ≡ false → a ≼ a
  pub le_trans : (a b c : W) → a ≼ b → b ≼ c → a ≼ c
  pub not_nan_of_le : (a b : W) → a ≼ b → (n.is_nan a ≡ false) × (n.is_nan b ≡ false)
  pub le_of_not_lt : (a b : W) → n.is_nan a ≡ false → n.is_nan b ≡ false → n.lt a b ≡ false → b ≼ a
  pub le_of_lt : (a b : W) → n.lt a b ≡ true → a ≼ b
  pub lt_of_le-not_eq : (a b : W) → a ≼ b → n.eq a b ≡ false → n.lt a b ≡ true
  pub not_lt_of_le : (a b : W) → a ≼ b → n.lt b a ≡ false
  pub eq_iff : (a b : W) → n.is_nan a ≡ false → n.is_nan b ≡ false → a ≼ b → b ≼ a → n.eq a b ≡ true
  pub le_of_eq : (a b : W) → n.eq a b ≡ true → (a ≼ b) × (b ≼ a)
  pub max_left : (a b : W) → n.is_nan a ≡ false → n.is_nan b ≡ false → a ≼ n.max a b
  pub max_right : (a b : W) → n.is_nan a ≡ false → n.is_nan b ≡ false → b ≼ n.max a b
  pub max_cases :
      (a b : W) → n.is_nan a ≡ false → n.is_nan b ≡ false → (n.max a b ≡ a) ⊎ (n.max a b ≡ b)
  pub max_least : (a b c : W) → a ≼ c → b ≼ c → n.max a b ≼ c
  pub min_left : (a b : W) → n.is_nan a ≡ false → n.is_nan b ≡ false → n.min a b ≼ a
  pub min_right : (a b : W) → n.is_nan a ≡ false → n.is_nan b ≡ false → n.min a b ≼ b
  pub min_greatest : (a b c : W) → c ≼ a → c ≼ b → c ≼ n.min a b
  -- from a number up to which something is taken away
  pub sub_nonneg : (a b : W) → n.is_finite a ≡ true → b ≼ a → n.of_ℕ 0 ≼ b → n.of_ℕ 0 ≼ n.sub a b
  pub sub_le :
      (a b : W) → n.is_finite a ≡ true → n.is_finite b ≡ true → n.of_ℕ 0 ≼ b → n.sub a b ≼ a
  pub sub_mono : (a b c : W) → n.is_finite c ≡ true → a ≼ b → n.sub a c ≼ n.sub b c
  pub sub_anti :
      (a b c : W)
      → n.is_nan a ≡ false
      → n.is_finite b ≡ true
      → n.is_finite c ≡ true
      → b ≼ c
      → n.sub a c ≼ n.sub a b
  pub sub-not_nan :
      (a b : W) → n.is_finite a ≡ true → n.is_nan b ≡ false → n.is_nan (n.sub a b) ≡ false
  pub sub_pos :
      (a b : W)
      → n.is_finite a ≡ true
      → n.is_finite b ≡ true
      → n.lt a b ≡ true
      → n.lt (n.of_ℕ 0) (n.sub b a) ≡ true
  pub sub_numeral :
      (j k : ℕ) → j ≤ k → k ≤ max_safe_integer → n.sub (n.of_ℕ k) (n.of_ℕ j) ≡ n.of_ℕ (k - j)
  pub index_numeral : (k : ℕ) → k ≤ max_safe_integer → n.index (n.of_ℕ k) ≡ some k
  -- `Math.round` gives an integer between the integers around its argument
  pub index-round :
      (a : W) (k : ℕ)
      → k ≤ max_safe_integer
      → n.of_ℕ 0 ≼ a
      → a ≼ n.of_ℕ k
      → (j : ℕ) × (j ≤ k) × (n.index (n.round a) ≡ some j)
  pub add_left : (a b : W) → n.of_ℕ 0 ≼ a → n.of_ℕ 0 ≼ b → a ≼ n.add a b
  pub add_right : (a b : W) → n.of_ℕ 0 ≼ a → n.of_ℕ 0 ≼ b → b ≼ n.add a b
  -- a part of a positive whole is a fraction
  pub div_fraction :
      (a b : W)
      → n.of_ℕ 0 ≼ a
      → a ≼ b
      → n.lt (n.of_ℕ 0) b ≡ true
      → n.is_finite b ≡ true
      → (n.of_ℕ 0 ≼ n.div a b) × (n.div a b ≼ n.of_ℕ 1)
  pub div_nonneg :
      (a b : W)
      → n.of_ℕ 0 ≼ a
      → n.lt (n.of_ℕ 0) b ≡ true
      → n.is_finite b ≡ true
      → n.of_ℕ 0 ≼ n.div a b
  pub mul_nonneg :
      (a b : W)
      → n.is_finite a ≡ true
      → n.is_finite b ≡ true
      → n.of_ℕ 0 ≼ a
      → n.of_ℕ 0 ≼ b
      → n.of_ℕ 0 ≼ n.mul a b
  pub mul_fraction :
      (a b : W) → n.of_ℕ 0 ≼ a → a ≼ n.of_ℕ 1 → n.of_ℕ 0 ≼ b → n.is_finite b ≡ true → n.mul a b ≼ b

-- `numeric`: a finite number.
unfoldable pub numeric {ℓ} : {W : Type ℓ} ⦃n : Number W⦄ → Value W → Bool
numeric ⦃n⦄ (num w) = n.is_finite w
numeric v = false
