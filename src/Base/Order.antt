-- ===== src/Base/Order.antt =====
-- The order of texts by their characters, as Go's `<` has it.
use Prim.Native.Nat.{Ordering}
use Prim.Native.String.compare
use Prim.Native.String.{String, compare}
use text.Mathlib.Text.{is_lt}
use text.Mathlib.TextEquality.{path_by_compare}
use text.Mathlib.TextPositions.{compare_refl}
use native.Mathlib.Omega.{arith}
use mathlib.Core.Path.{◌≡◌, sym, ◌∙◌}
use mathlib.Core.Bool.{Bool, true, false}

abbrev flipped : Ordering → Ordering
flipped Ordering.lt = Ordering.gt
flipped Ordering.eq = Ordering.eq
flipped Ordering.gt = Ordering.lt

compare_flip : (s t : String) → compare t s ≡ flipped (compare s t)
compare_flip String.[] String.[] = rw compare.nil-nil
compare_flip String.[] (String.◌∷◌ d t) = rw (compare.nil-cons d t, compare.cons-nil d t)
compare_flip (String.◌∷◌ c s) String.[] = rw (compare.nil-cons c s, compare.cons-nil c s)
compare_flip (String.◌∷◌ c s) (String.◌∷◌ d t) =
    rw (compare.cons-cons c d s t, compare.cons-cons d c t s) (ground (arith, compare_flip s t))

compare_trans :
    (r s t : String)
    → compare r s ≡ Ordering.lt
    → compare s t ≡ Ordering.lt
    → compare r t ≡ Ordering.lt
compare_trans String.[] s (String.◌∷◌ e t) h k = compare.nil-cons e t
compare_trans String.[] String.[] String.[] h k = h
compare_trans String.[] (String.◌∷◌ d s) String.[] h k = cc (sym (compare.cons-nil d s) ∙ k)
compare_trans (String.◌∷◌ c r) String.[] t h k = cc (sym (compare.cons-nil c r) ∙ h)
compare_trans (String.◌∷◌ c r) (String.◌∷◌ d s) String.[] h k = cc (sym (compare.cons-nil d s) ∙ k)
compare_trans (String.◌∷◌ c r) (String.◌∷◌ d s) (String.◌∷◌ e t) h k =
    let first = sym (compare.cons-cons c d r s) ∙ h in
    let second = sym (compare.cons-cons d e s t) ∙ k in
    compare.cons-cons c e r t ∙ ground (arith, first, second, compare_trans r s t)

unfoldable pub text_lt : String → String → Bool
text_lt s t = is_lt (compare s t)

pub text_lt_irrefl : (s : String) → text_lt s s ≡ false
unfolding text_lt
text_lt_irrefl s = rw (compare_refl s)

pub text_lt_trans : (r s t : String) → text_lt r s ≡ true → text_lt s t ≡ true → text_lt r t ≡ true
unfolding text_lt
text_lt_trans r s t h k = ground (arith, compare_trans r s t)

-- Two texts are equal if neither is before the other.
pub text_lt_total : (s t : String) → text_lt s t ≡ false → text_lt t s ≡ false → s ≡ t
unfolding text_lt
text_lt_total s t h k = path_by_compare s t (ground (arith, compare_flip s t))
