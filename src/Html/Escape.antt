-- ===== src/Html/Escape.antt =====
-- What `escapeHTML` promises: a browser reads back the text, and no character of it is markup.
use copilot_api_dashboard.Base.{
  ℕ, [], ◌∷◌, ◌++◌, ◌==◌, if◌then◌else◌, codes, text_eq, any, Bool, ◌||◌, true, false, ◌≡◌, refl,
  ap, arith, Option, none, some, ◌∙◌,
}
use copilot_api_dashboard.Html.{Text, entity, escape_html}

-- The character that a reference stands for, by its name, for the five that `escapeHTML` writes.
reference : Text → Text
reference name =
    if text_eq name (codes "amp")
    then b'&' ∷ []
    else if text_eq name (codes "lt")
    then b'<' ∷ []
    else if text_eq name (codes "gt")
    then b'>' ∷ []
    else if text_eq name (codes "quot")
    then 34 ∷ []
    else if text_eq name (codes "#39")
    then 39 ∷ []
    else b'&' ∷ (name ++ b';' ∷ [])

-- A reader of character data: `none` between references, `some name` behind an `&`.
unfoldable pub decode : Option Text → Text → Text
unfolding reference
decode none [] = []
decode (some name) [] = b'&' ∷ name
decode none (c ∷ s) = elim (c == b'&') [ true ↦ decode (some []) s | false ↦ c ∷ decode none s ]
decode (some name) (c ∷ s) = elim (c == b';') [
  | true ↦ reference name ++ decode none s
  | false ↦ decode (some (name ++ c ∷ [])) s
]

decode-entity : (c : ℕ) (s : Text) → decode none (entity c ++ s) ≡ c ∷ decode none s
unfolding decode entity
decode-entity c s = ground arith

-- The characters that open or close a tag, or the value of an attribute.
abbrev pub is_markup : ℕ → Bool
is_markup c = (c == b'<') || (c == b'>') || (c == 34) || (c == 39)

any-is_markup-entity : (c : ℕ) (s : Text) → any is_markup (entity c ++ s) ≡ any is_markup s
unfolding entity
any-is_markup-entity c s = ground arith

-- For every text, its escaped form holds none of the characters `<`, `>`, `"` and `'`, and decoding the
-- character references of the escaped form gives the text back.
pub escape_html_lem :
    (s : Text) → (any is_markup (escape_html s) ≡ false) × (decode none (escape_html s) ≡ s)
unfolding escape_html decode
escape_html_lem [] = (refl, refl)
escape_html_lem (c ∷ s) = (
  any-is_markup-entity c (escape_html s) ∙ (escape_html_lem s).0,
  decode-entity c (escape_html s) ∙ ap (c ∷◌) (escape_html_lem s).1,
)
