-- ===== src/Base/Digits.antt =====
-- The characters of a number in decimal.
use Prim.Native.Nat.{ℕ, zero, suc, ◌/◌, ◌%◌}
use Prim.Native.Char.{code}
use Prim.Native.String.{String}
use text.Mathlib.TextLemmas.{nil-append, cons-append}
use native.Mathlib.Omega.{arith}
use mathlib.Core.Path.{◌≡◌, ap, ◌∙◌}
use mathlib.Core.Logic.{inl, inr}
use mathlib.Core.Bool.{Bool, true, false, ◌||◌}
use mathlib.Core.List.{List, [], ◌∷◌, ◌++◌}
use copilot_api_dashboard.Base.Tests.{Bool-cases, ◌==◌, if◌then◌else◌, ltb}
use copilot_api_dashboard.Base.Lists.{any}
use copilot_api_dashboard.Base.Texts.{codes, digit, digits_from, decimal, ◌+++◌}

codes-append : (s t : String) → codes (s +++ t) ≡ codes s ++ codes t
codes-append String.[] t = ap codes (nil-append t)
codes-append (String.◌∷◌ c s) t = ap codes (cons-append c s t) ∙ ap (code c ∷◌) (codes-append s t)

pub any-append-false :
    (p : ℕ → Bool) (s t : List ℕ) → any p s ≡ false → any p t ≡ false → any p (s ++ t) ≡ false
any-append-false p [] t h k = k
any-append-false p (c ∷ s) t h k =
    or-false (p c) (any p (s ++ t)) (ground arith) (any-append-false p s t (ground arith) k)
  where
    or-false : (b c : Bool) → b ≡ false → c ≡ false → (b || c) ≡ false
    or-false b c h k = ground arith

module _ (p : ℕ → Bool) (digits : any p (codes "0123456789") ≡ false) where
  any-codes-if :
      (b : Bool) (s t : String)
      → any p (codes s) ≡ false
      → any p (codes t) ≡ false
      → any p (codes (if b then s else t)) ≡ false
  any-codes-if true s t h k = h
  any-codes-if false s t h k = k

  any-codes-digit : (d : ℕ) → any p (codes (digit d)) ≡ false
  unfolding digit
  any-codes-digit d = any-codes-if (d == 0) "0" _ (ground arith) (
      any-codes-if (d == 1) "1" _ (ground arith) (
        any-codes-if (d == 2) "2" _ (ground arith) (
          any-codes-if (d == 3) "3" _ (ground arith) (
            any-codes-if (d == 4) "4" _ (ground arith) (
              any-codes-if (d == 5) "5" _ (ground arith) (
                any-codes-if (d == 6) "6" _ (ground arith) (
                  any-codes-if (d == 7) "7" _ (ground arith)
                    (any-codes-if (d == 8) "8" _ (ground arith) (ground arith)))))))))

  any-codes-digits_from : (n v : ℕ) → any p (codes (digits_from n v)) ≡ false
  unfolding digits_from
  any-codes-digits_from zero v = any-codes-digit v
  any-codes-digits_from (suc n) v = elim (Bool-cases (ltb v 10)) [
    | inl e ↦ rw (e) (any-codes-digit v)
    | inr e ↦
        rw (e, codes-append)
          (any-append-false p (codes (digits_from n (v / 10))) (codes (digit (v % 10)))
            (any-codes-digits_from n (v / 10)) (any-codes-digit (v % 10)))
  ]

  -- A test that no digit passes, no character of a number passes.
  pub any-codes-decimal : (v : ℕ) → any p (codes (decimal v)) ≡ false
  unfolding decimal
  any-codes-decimal v = any-codes-digits_from v v
