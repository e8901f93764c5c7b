-- ===== src/Base/Texts.antt =====
-- Text in two forms: a `String` where the program compares whole texts, and the list of its code
-- units where the program writes or walks it.
use Prim.Native.Nat.{ℕ, zero, suc, ◌/◌, ◌%◌}
use Prim.Native.Char.{code}
use Prim.Native.String.{String, ◌++◌}
use text.Mathlib.Text.{◌==◌ as same_text}
use text.Mathlib.TextEquality.{eq_iff}
use mathlib.Core.Path.{◌≡◌, refl}
use mathlib.Core.Bool.{Bool, true, false, ◌&&◌}
use copilot_api_dashboard.Base.Tests.{◌==◌, if◌then◌else◌, ltb}
use mathlib.Core.List.{List, [], ◌∷◌}

-- The characters of a text, each by its code.
abbrev pub codes : String → List ℕ
codes String.[] = []
codes (String.◌∷◌ c s) = code c ∷ codes s

abbrev pub str_eq : String → String → Bool
str_eq = same_text

pub str_eq_self : (s : String) → str_eq s s ≡ true
str_eq_self s = (eq_iff s s).1 refl

abbrev pub text_eq : List ℕ → List ℕ → Bool
text_eq [] [] = true
text_eq [] (d ∷ t) = false
text_eq (c ∷ s) [] = false
text_eq (c ∷ s) (d ∷ t) = (c == d) && text_eq s t

-- A number in decimal, as a template string writes it.
unfoldable pub digit : ℕ → String
digit d =
    if d == 0
    then "0"
    else if d == 1
    then "1"
    else if d == 2
    then "2"
    else if d == 3
    then "3"
    else if d == 4
    then "4"
    else if d == 5
    then "5"
    else if d == 6
    then "6"
    else if d == 7
    then "7"
    else if d == 8
    then "8"
    else "9"

-- With `n` for the number of digits at most.
unfoldable pub digits_from : ℕ → ℕ → String
unfolding digit
digits_from zero v = digit v
digits_from (suc n) v =
    let higher = digits_from n (v / 10) in if ltb v 10 then digit v else higher ++ digit (v % 10)

unfoldable pub decimal : ℕ → String
unfolding digits_from
decimal v = digits_from v v

infixr 65 ◌+++◌
abbrev pub ◌+++◌ : String → String → String
s +++ t = s ++ t
