-- ===== src/Html/Fragments.antt =====
-- What the parts of a template do to a browser's reading.
use copilot_api_dashboard.Base.{
  ℕ, String, Bool, true, false, Option, none, some, List, [], ◌∷◌, ◌++◌, any, All, map, ◌==◌, ◌≡◌,
  refl, ap, ◌∙◌, arith, if◌then◌else◌, codes,
}
use copilot_api_dashboard.Html.{Text, escape_html, escape_or_dash, join}
use copilot_api_dashboard.Html.Escape.{is_markup, escape_html_lem}
use copilot_api_dashboard.Html.Reader.{
  outside, quoted, Reader, step_in, read, between, in_value, IsFragment, IsValue,
}

pub read-append : (r : Reader) (s t : Text) → read r (s ++ t) ≡ read (read r s) t
unfolding read
read-append r [] t = refl
read-append r (c ∷ s) t = read-append (step_in r.mode c r) s t

pub append-IsFragment : (s t : Text) → IsFragment s → IsFragment t → IsFragment (s ++ t)
append-IsFragment s t h k names = rw (read-append, h names) (k names)

pub nil-IsFragment : IsFragment []
unfolding read
nil-IsFragment names = refl

pub join-IsFragment : (ts : List Text) → All IsFragment ts → IsFragment (join ts)
join-IsFragment [] h = nil-IsFragment
join-IsFragment (t ∷ ts) h = append-IsFragment t (join ts) h.0 (join-IsFragment ts h.1)

-- A text without markup characters, as numbers are formatted.
abbrev pub IsPlain : Text → Type 0
IsPlain t = any is_markup t ≡ false

pub plain-IsFragment : (t : Text) → IsPlain t → IsFragment t
unfolding read step_in
plain-IsFragment [] h names = refl
plain-IsFragment (c ∷ t) h names =
    ap (λ r. read r t) (outside_step c names (ground arith))
    ∙ plain-IsFragment t (ground arith) names
  where
    outside_step :
        (d : ℕ) (open_now : List Text)
        → (d == b'<') ≡ false
        → step_in outside d (between open_now) ≡ between open_now
    outside_step d open_now e = rw (step_in, e)

pub plain-IsValue : (t : Text) → IsPlain t → IsValue t
unfolding read step_in
plain-IsValue [] h name names = refl
plain-IsValue (c ∷ t) h name names =
    ap (λ r. read r t) (quoted_step c (ground arith)) ∙ plain-IsValue t (ground arith) name names
  where
    quoted_step :
        (d : ℕ) → (d == 34) ≡ false → step_in quoted d (in_value name names) ≡ in_value name names
    quoted_step d e = rw (step_in, e)

-- An escaped text is character data wherever it stands, and stays in the value of an attribute.
pub escape_html-IsFragment : (s : Text) → IsFragment (escape_html s)
escape_html-IsFragment s = plain-IsFragment (escape_html s) (escape_html_lem s).0

pub escape_html-IsValue : (s : Text) → IsValue (escape_html s)
escape_html-IsValue s = plain-IsValue (escape_html s) (escape_html_lem s).0

pub escape_or_dash-IsFragment : (s : Option String) → IsFragment (escape_or_dash s)
unfolding escape_or_dash
escape_or_dash-IsFragment none = plain-IsFragment (codes "—") refl
escape_or_dash-IsFragment (some s) = escape_html-IsFragment (codes s)

pub escape_or_dash-IsValue : (s : Option String) → IsValue (escape_or_dash s)
unfolding escape_or_dash
escape_or_dash-IsValue none = plain-IsValue (codes "—") refl
escape_or_dash-IsValue (some s) = escape_html-IsValue (codes s)

pub if-IsFragment :
    (b : Bool) (s t : Text) → IsFragment s → IsFragment t → IsFragment (if b then s else t)
if-IsFragment true s t h k = h
if-IsFragment false s t h k = k

pub if-IsPlain :
    (b : Bool) (s t : String)
    → IsPlain (codes s)
    → IsPlain (codes t)
    → IsPlain (codes (if b then s else t))
if-IsPlain true s t h k = h
if-IsPlain false s t h k = k

pub All-map {ℓ} :
    {A : Type ℓ} (g : A → Text)
    → ((a : A) → IsFragment (g a))
    → (xs : List A) → All IsFragment (map g xs)
All-map g h [] = tt
All-map g h (x ∷ xs) = (h x, All-map g h xs)

pub All-if :
    (b : Bool) (ss ts : List Text)
    → All IsFragment ss
    → All IsFragment ts
    → All IsFragment (if b then ss else ts)
All-if true ss ts h k = h
All-if false ss ts h k = k
