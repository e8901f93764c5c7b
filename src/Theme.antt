-- ===== src/Theme.antt =====
-- web/app.js: the theme of the page (`currentTheme`, `nextTheme`, `setTheme`).
pub mod Cycle
use Prim.Native.Nat.{◌%◌}
use copilot_api_dashboard.Base.{
  ℕ, suc, ◌+◌, String, Bool, true, false, Option, none, some, List, [], ◌∷◌, if◌then◌else◌, str_eq,
  length, get_elem?, ◌≡◌, arith, eq_iff, ◌+++◌,
}

-- `Object.keys(themeNames)`, and its values.
abbrev pub themes : List String
themes = "auto" ∷ "light" ∷ "dark" ∷ []

unfoldable pub theme_name : String → String
theme_name theme =
    if str_eq theme "auto"
    then "Auto"
    else if str_eq theme "light"
    then "Light"
    else if str_eq theme "dark"
    then "Dark"
    else "undefined"

-- `themes.indexOf(theme) + 1`: 0 for a theme that is not in the list.
unfoldable pub index_of_next : String → List String → ℕ
index_of_next theme [] = 0
index_of_next theme (t ∷ ts) =
    let rest = index_of_next theme ts in
    if str_eq t theme then 1 else elim rest [ ℕ.zero ↦ 0 | ℕ.suc k ↦ suc (suc k) ]

unfoldable pub next_theme : String → Option String
unfolding index_of_next
next_theme theme = get_elem? themes (index_of_next theme themes % length themes)

-- The page: the `data-theme` attribute, the stored theme, whether storage can be written, the label of
-- the button and the announcement.
pub record Page : Type 0 where
  pub theme : Option String
  pub stored : Option String
  pub storage : Bool
  pub title : String
  pub announcement : String

unfoldable pub current_theme : Page → String
current_theme p = elim p.theme [ none ↦ "auto" | some t ↦ t ]

abbrev pub name_or_undefined : Option String → String
name_or_undefined none = "undefined"
name_or_undefined (some t) = theme_name t

unfoldable pub label_theme : String → String
unfolding theme_name next_theme
label_theme theme =
    theme_name theme +++ " theme (click for " +++ name_or_undefined (next_theme theme) +++ ")"

abbrev pub unless_auto : String → Option String
unless_auto theme = if str_eq theme "auto" then none else some theme

unfoldable pub set_theme : String → Page → Page
unfolding theme_name label_theme
set_theme theme p = record p {
  theme = unless_auto theme;
  stored = if p.storage then unless_auto theme else p.stored;
  title = label_theme theme;
  announcement = theme_name theme +++ " theme.";
}

-- The listener of the button.
unfoldable pub click_theme : Page → Page
unfolding current_theme next_theme set_theme
click_theme p = elim (next_theme (current_theme p)) [ none ↦ p | some t ↦ set_theme t p ]
