-- ===== src/Html.antt =====
-- web/app.js: `escapeHTML`, and the fragments that put text into the page.
pub mod Escape
pub mod Reader
pub mod Fragments
pub mod Templates
use copilot_api_dashboard.Base.{
  ℕ, String, Option, none, some, List, [], ◌∷◌, ◌++◌, ◌==◌, if◌then◌else◌, codes,
}

abbrev pub Text : Type 0
Text = List ℕ

-- The table of replacements that the callback of `replace` indexes; another character stays.
unfoldable pub entity : ℕ → Text
entity c =
    if c == b'&'
    then codes "&amp;"
    else if c == b'<'
    then codes "&lt;"
    else if c == b'>'
    then codes "&gt;"
    else if c == 34
    then codes "&quot;"
    else if c == 39
    then codes "&#39;"
    else c ∷ []

unfoldable pub escape_html : Text → Text
escape_html [] = []
escape_html (c ∷ s) = entity c ++ escape_html s

-- A template string: its literals, and the texts that it puts between them.
pub data Part : Type 0 where
  lit : String → Part
  hole : Text → Part

unfoldable pub html : List Part → Text
html [] = []
html (lit s ∷ ps) = codes s ++ html ps
html (hole t ∷ ps) = t ++ html ps

unfoldable pub empty : Text → Text
unfolding html escape_html
empty message = html (lit "<p class=\"empty\">" ∷ hole (escape_html message) ∷ lit "</p>" ∷ [])

-- `escapeHTML(value)` of a text that may be missing: `value ?? "—"`
unfoldable pub escape_or_dash : Option String → Text
unfolding escape_html
escape_or_dash none = codes "—"
escape_or_dash (some s) = escape_html (codes s)

-- `list.join("")`
abbrev pub join : List Text → Text
join [] = []
join (t ∷ ts) = t ++ join ts
