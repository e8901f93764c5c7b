-- ===== src/Html/Templates.antt =====
-- Reading a template: its literals in turn with the texts that are put between them.
use copilot_api_dashboard.Base.{
  ℕ, String, Bool, true, false, List, [], ◌∷◌, ◌++◌, ◌==◌, ◌≡◌, refl, ap, ◌∙◌, arith, codes,
  Bool-cases, inl, inr,
}
use copilot_api_dashboard.Html.{Text, Part, lit, hole, html}
use copilot_api_dashboard.Html.Reader.{
  Mode, outside, inside, quoted, broken, Reader, ends_in_slash, close_element, is_page_tag,
  read_page_tag, read_tag, step_in, read, between, IsFragment, IsValue,
}
use copilot_api_dashboard.Html.Fragments.{read-append}

-- The reader with more elements open around it.
abbrev pub under : Reader → List Text → Reader
under r names = record r { open_names = r.open_names ++ names }

abbrev pub is_whole : Reader → Bool
is_whole r = elim r.mode [ broken ↦ false | _ ↦ true ]

close_element-under :
    (name : Text) (open_names names : List Text)
    → is_whole (close_element name open_names) ≡ true
    → close_element name (open_names ++ names) ≡ under (close_element name open_names) names
close_element-under name [] names h = cc
close_element-under name (x ∷ xs) names h = ground arith

read_page_tag-under :
    (t : Text) (open_names names : List Text)
    → is_whole (read_page_tag t open_names) ≡ true
    → read_page_tag t (open_names ++ names) ≡ under (read_page_tag t open_names) names
read_page_tag-under [] open_names names h = cc
read_page_tag-under (c ∷ t) open_names names h = elim (Bool-cases (c == b'/')) [
  | inl e ↦
      rw (read_page_tag, e) (close_element-under t open_names names (rw (read_page_tag, e) at h))
  | inr e ↦ elim (Bool-cases (ends_in_slash (c ∷ t))) [
    | inl g ↦ rw (read_page_tag, e, g)
    | inr g ↦ rw (read_page_tag, e, g)
  ]
]

read_tag-under :
    (t : Text) (open_names names : List Text)
    → is_whole (read_tag t open_names) ≡ true
    → read_tag t (open_names ++ names) ≡ under (read_tag t open_names) names
read_tag-under t open_names names h = elim (Bool-cases (is_page_tag t)) [
  | inl e ↦ rw (read_tag, e) (read_page_tag-under t open_names names (rw (read_tag, e) at h))
  | inr e ↦ cc (rw (read_tag, e) at h)
]

step_in-under :
    (m : Mode) (c : ℕ) (r : Reader) (names : List Text)
    → is_whole (step_in m c r) ≡ true
    → step_in m c (under r names) ≡ under (step_in m c r) names
unfolding step_in
step_in-under outside c r names h = elim (Bool-cases (c == b'<')) [
  | inl e ↦ rw (step_in, e)
  | inr e ↦ rw (step_in, e)
]
step_in-under quoted c r names h = elim (Bool-cases (c == 34)) [
  | inl e ↦ rw (step_in, e)
  | inr e ↦ rw (step_in, e)
]
step_in-under broken c r names h = refl
step_in-under inside c r names h = elim (Bool-cases (c == 34)) [
  | inl e ↦ rw (step_in, e)
  | inr e ↦ elim (Bool-cases (c == b'>')) [
    | inr g ↦ rw (step_in, e, g)
    | inl g ↦ rw (step_in, e, g) (read_tag-under r.tag r.open_names names (rw (step_in, e, g) at h))
  ]
]

-- A reader that is broken stays so.
read-is_whole : (s : Text) (r : Reader) → is_whole (read r s) ≡ true → is_whole r ≡ true
unfolding read step_in
read-is_whole [] r h = h
read-is_whole (c ∷ s) r h = stepped r.mode c r refl (read-is_whole s (step_in r.mode c r) h)
  where
    stepped :
        (m : Mode) (d : ℕ) (q : Reader)
        → q.mode ≡ m
        → is_whole (step_in m d q) ≡ true
        → is_whole q ≡ true
    stepped outside d q e k = rw (is_whole, e)
    stepped inside d q e k = rw (is_whole, e)
    stepped quoted d q e k = rw (is_whole, e)
    stepped broken d q e k = k

read-under :
    (s : Text) (r : Reader) (names : List Text)
    → is_whole (read r s) ≡ true
    → read (under r names) s ≡ under (read r s) names
unfolding read
read-under [] r names h = refl
read-under (c ∷ s) r names h =
    ap (λ q. read q s) (step_in-under r.mode c r names (read-is_whole s (step_in r.mode c r) h))
    ∙ read-under s (step_in r.mode c r) names h

-- What may be put into a template where the reader is: a fragment between tags, a value in the quotes of an
-- attribute, and nothing elsewhere.
abbrev pub HoleFits : Mode → Text → Text → Type 0
HoleFits outside [] t = IsFragment t
HoleFits quoted tag t = IsValue t
HoleFits m tag t = ⊥

abbrev pub Through : Bool → Type 0 → Type 0
Through true P = P
Through false P = ⊥

-- A template whose literals the reader gets through, and ends between tags, if its holes fit.
abbrev pub Fits : Reader → List Part → Type 0
Fits r [] = r ≡ between []
Fits r (lit s ∷ ps) = Through (is_whole (read r (codes s))) (Fits (read r (codes s)) ps)
Fits r (hole t ∷ ps) = HoleFits r.mode r.tag t × Fits r ps

Through-elim : (b : Bool) {P : Type 0} → Through b P → (b ≡ true) × P
Through-elim true h = (refl, h)
Through-elim false h = absurd h

read_hole :
    (m : Mode) (tag t : Text) (open_names names : List Text)
    → HoleFits m tag t
    → read (record { mode = m; tag = tag; open_names = open_names ++ names }) t
      ≡ record { mode = m; tag = tag; open_names = open_names ++ names }
read_hole outside [] t open_names names h = h (open_names ++ names)
read_hole outside (c ∷ tag) t open_names names h = absurd h
read_hole inside tag t open_names names h = absurd h
read_hole quoted tag t open_names names h = h tag (open_names ++ names)
read_hole broken tag t open_names names h = absurd h

html-reads :
    (ps : List Part) (r : Reader) (names : List Text)
    → Fits r ps
    → read (under r names) (html ps) ≡ between names
unfolding html read
html-reads [] r names h = ap (λ q. under q names) h
html-reads (lit s ∷ ps) r names h =
    read-append (under r names) (codes s) (html ps)
    ∙ ap (λ q. read q (html ps)) (read-under (codes s) r names (Through-elim _ h).0)
    ∙ html-reads ps (read r (codes s)) names (Through-elim (is_whole (read r (codes s))) h).1
html-reads (hole t ∷ ps) r names h =
    read-append (under r names) t (html ps)
    ∙ ap (λ q. read q (html ps)) (read_hole r.mode r.tag t r.open_names names h.0)
    ∙ html-reads ps r names h.1

-- A template is a fragment if its holes fit.
pub html-IsFragment : (ps : List Part) → Fits (between []) ps → IsFragment (html ps)
html-IsFragment ps h names = html-reads ps (between []) names h

-- A literal that the reader gets through, and ends where it was.
pub literal-IsFragment :
    (s : String) → read (between []) (codes s) ≡ between [] → IsFragment (codes s)
literal-IsFragment s h names =
    read-under (codes s) (between []) names (ap is_whole h) ∙ ap (λ q. under q names) h
