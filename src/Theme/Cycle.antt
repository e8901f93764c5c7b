-- ===== src/Theme/Cycle.antt =====
-- The button goes round the themes.
use copilot_api_dashboard.Base.{
  String, true, false, some, str_eq, ◌≡◌, ◌⊎◌, arith, eq_iff, any, refl, inl, inr, if◌then◌else◌,
}
use copilot_api_dashboard.Theme.{themes, next_theme, Page, current_theme, set_theme, click_theme}

-- The theme that is set is the page's theme, and it is what the next load of the page finds in storage,
-- unless storage cannot be written, which keeps what it had.
set_theme_lem :
    (t : String) (p : Page)
    → (current_theme (set_theme t p) ≡ t)
      × ((set_theme t p).stored ≡ (if p.storage then (set_theme t p).theme else p.stored))
unfolding current_theme set_theme
set_theme_lem t p = (ground (arith, eq_iff t "auto"), refl)

click-current :
    (p : Page) (s t : String)
    → current_theme p ≡ s
    → next_theme s ≡ some t
    → current_theme (click_theme p) ≡ t
unfolding click_theme current_theme
click-current p s t h n = rw (h, click_theme, n) (set_theme_lem t p).0

auto-next : next_theme "auto" ≡ some "light"
unfolding next_theme
auto-next = refl

light-next : next_theme "light" ≡ some "dark"
unfolding next_theme
light-next = refl

dark-next : next_theme "dark" ≡ some "auto"
unfolding next_theme
dark-next = refl

theme-cases :
    (t : String) → any (str_eq t) themes ≡ true → (t ≡ "auto") ⊎ ((t ≡ "light") ⊎ (t ≡ "dark"))
theme-cases t h = ground (arith, eq_iff t "auto", eq_iff t "light", eq_iff t "dark")

-- From any of the three themes, three clicks on the button lead back to it, and one click does not.
pub click_theme_cycle :
    (p : Page)
    → any (str_eq (current_theme p)) themes ≡ true
    → (current_theme (click_theme (click_theme (click_theme p))) ≡ current_theme p)
      × (str_eq (current_theme (click_theme p)) (current_theme p) ≡ false)
click_theme_cycle p h = elim (theme-cases (current_theme p) h) [
  | inl e ↦
      let a = click-current p "auto" "light" e auto-next in
      let b = click-current (click_theme p) "light" "dark" a light-next in
      rw (click-current _ "dark" "auto" b dark-next, e, a) (refl, refl)
  | inr (inl e) ↦
      let a = click-current p "light" "dark" e light-next in
      let b = click-current (click_theme p) "dark" "auto" a dark-next in
      rw (click-current _ "auto" "light" b auto-next, e, a) (refl, refl)
  | inr (inr e) ↦
      let a = click-current p "dark" "auto" e dark-next in
      let b = click-current (click_theme p) "auto" "light" a auto-next in
      rw (click-current _ "light" "dark" b light-next, e, a) (refl, refl)
]
