-- ===== src/Markup/Safe.antt =====
-- web/app.js: the markup of the values, read as a browser reads it.
pub mod Tables
pub mod Rows
pub mod Parts
pub mod Pages
pub mod Plots
use copilot_api_dashboard.Base.{
  ℕ, String, Bool, true, false, Option, none, some, List, [], ◌∷◌, ◌++◌, map, All, ◌≡◌, refl, codes,
  if◌then◌else◌, str_eq, ◌&&◌, any,
}
use copilot_api_dashboard.Model.{Value, undefined, null, boolean, num, text, Cost, Usage}
use copilot_api_dashboard.Number.{Number}
use copilot_api_dashboard.Quota.{cache_hit_rate}
use copilot_api_dashboard.Html.{Text, escape_html, Part, lit, hole, html, join}
use copilot_api_dashboard.Html.Reader.{read, IsValue, IsFragment}
use copilot_api_dashboard.Html.Fragments.{
  nil-IsFragment, append-IsFragment, join-IsFragment, IsPlain, plain-IsFragment, plain-IsValue,
  escape_html-IsFragment, if-IsFragment,
}
use copilot_api_dashboard.Html.Templates.{html-IsFragment, literal-IsFragment}
use copilot_api_dashboard.Markup.{
  Format, dash, finite, percent, number, tokens, cache_hit_rate_text, duration, outcome_text,
  request_outcome, display_amount, money_of, money,
}

-- Formatted numbers hold no markup characters. Compact numbers and amounts of money are escaped.
pub record IsFormat {ℓ} {W : Type ℓ} (f : Format W) : Type ℓ where
  pub locale-IsPlain : (w : W) → IsPlain (f.locale w)
  pub locale_one-IsPlain : (w : W) → IsPlain (f.locale_one w)
  pub fixed-IsPlain : (k : ℕ) (w : W) → IsPlain (f.fixed k w)
  pub written-IsPlain : (w : W) → IsPlain (f.written w)

pub dash-IsFragment : IsFragment dash
dash-IsFragment = plain-IsFragment dash refl

by_cases-IsFragment {ℓ} :
    {A : Type ℓ} (o : Option A) (s : Text) (t : A → Text)
    → IsFragment s
    → ((a : A) → IsFragment (t a))
    → IsFragment (elim o [ none ↦ s | some a ↦ t a ])
by_cases-IsFragment none s t h k = h
by_cases-IsFragment (some a) s t h k = k a

outcome_text-IsFragment : (s : String) → IsFragment (outcome_text s)
unfolding read
outcome_text-IsFragment s =
    if-IsFragment (str_eq s "completed") _ _ (plain-IsFragment (codes "Completed") refl) (
      if-IsFragment (str_eq s "cancelled") _ _
        (literal-IsFragment "<span class=\"outcome outcome-cancelled\">Cancelled</span>" refl)
        (if-IsFragment (str_eq s "error") _ _
          (literal-IsFragment "<span class=\"outcome outcome-error\">Error</span>" refl)
          dash-IsFragment))

module _ {ℓ} {W : Type ℓ} ⦃n : Number W⦄ (f : Format W) (ok : IsFormat f) where
  open ok use {locale-IsPlain, locale_one-IsPlain, fixed-IsPlain, written-IsPlain}

  pub percent-IsFragment : (w : W) → IsFragment (percent f w)
  percent-IsFragment w = plain-IsFragment (f.locale_one w) (locale_one-IsPlain w)

  pub percent-IsValue : (w : W) → IsValue (percent f w)
  percent-IsValue w = plain-IsValue (f.locale_one w) (locale_one-IsPlain w)

  pub written-IsValue : (w : W) → IsValue (f.written w)
  written-IsValue w = plain-IsValue (f.written w) (written-IsPlain w)

  pub number-IsFragment : (v : Value W) → IsFragment (number f v)
  unfolding number
  number-IsFragment v =
      by_cases-IsFragment (finite v) _ _ dash-IsFragment
        λ w. plain-IsFragment (f.locale w) (locale-IsPlain w)

  pub tokens-IsFragment : (v : Value W) → IsFragment (tokens f v)
  unfolding tokens
  tokens-IsFragment v =
      by_cases-IsFragment (finite v) _ _ dash-IsFragment λ w. escape_html-IsFragment (f.compact w)

  pub cache_hit_rate_text-IsFragment : (u : Option (Usage W)) → IsFragment (cache_hit_rate_text f u)
  unfolding cache_hit_rate_text
  cache_hit_rate_text-IsFragment u = by_cases-IsFragment (cache_hit_rate u) _ _ dash-IsFragment λ w.
      append-IsFragment (f.locale_one w) (codes "%") (percent-IsFragment w)
        (plain-IsFragment (codes "%") refl)

  fixed-IsFragment :
      (k : ℕ) (w : W) (s : String) → IsPlain (codes s) → IsFragment (f.fixed k w ++ codes s)
  fixed-IsFragment k w s h =
      append-IsFragment (f.fixed k w) (codes s) (plain-IsFragment (f.fixed k w) (fixed-IsPlain k w))
        (plain-IsFragment (codes s) h)

  pub duration-IsFragment : (v : Value W) → IsFragment (duration f v)
  unfolding duration
  duration-IsFragment v = by_cases-IsFragment (finite v) _ _ dash-IsFragment λ w.
      if-IsFragment (n.lt w (n.of_ℕ 0)) _ _ dash-IsFragment (
        if-IsFragment (n.lt w (n.of_ℕ 1000)) _ _ (fixed-IsFragment 0 w " ms" refl)
          (fixed-IsFragment 2 (n.div w (n.of_ℕ 1000)) " s" refl))

  pub request_outcome-IsFragment : (v : Value W) → IsFragment (request_outcome f v)
  unfolding request_outcome
  request_outcome-IsFragment undefined = dash-IsFragment
  request_outcome-IsFragment null = dash-IsFragment
  request_outcome-IsFragment (boolean b) = dash-IsFragment
  request_outcome-IsFragment (num w) = dash-IsFragment
  request_outcome-IsFragment (text s) = outcome_text-IsFragment s

  money_of-IsFragment : (c : Cost W) → IsFragment (money_of f c)
  unfolding money_of read
  money_of-IsFragment c =
      by_cases-IsFragment (finite c.total_cost_nanos) _ _ dash-IsFragment
        λ w. html-IsFragment _ (escape_html-IsFragment _, refl)

  money_of-All : (cs : List (Cost W)) → All IsFragment (map (money_of f) cs)
  money_of-All [] = tt
  money_of-All (c ∷ cs) = (money_of-IsFragment c, money_of-All cs)

  pub money-IsFragment : (cs : Option (List (Cost W))) → IsFragment (money f cs)
  unfolding money
  money-IsFragment none = dash-IsFragment
  money-IsFragment (some []) = dash-IsFragment
  money-IsFragment (some (c ∷ cs)) =
      join-IsFragment (map (money_of f) (c ∷ cs)) (money_of-All (c ∷ cs))
