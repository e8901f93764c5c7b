-- ===== src/Markup/Safe/Parts.antt =====
-- web/app.js: the cards of `renderQuotas`, and `empty`, read as a browser reads them.
use copilot_api_dashboard.Base.{
  String, Bool, true, false, Option, [], ◌∷◌, ◌++◌, refl, codes, str_eq,
}
use copilot_api_dashboard.Model.{Quota}
use copilot_api_dashboard.Number.{Number}
use copilot_api_dashboard.Quota.{used_percent_value, used_value}
use copilot_api_dashboard.Html.{Text, escape_html, empty, lit, hole, html}
use copilot_api_dashboard.Html.Reader.{read, IsFragment, IsValue}
use copilot_api_dashboard.Html.Fragments.{
  nil-IsFragment, append-IsFragment, plain-IsFragment, plain-IsValue, IsPlain, if-IsPlain,
  escape_html-IsFragment, if-IsFragment,
}
use copilot_api_dashboard.Html.Templates.{html-IsFragment}
use copilot_api_dashboard.Markup.{Format, dash, value_of, finite, percent}
use copilot_api_dashboard.Markup.Cells.{
  is_unlimited, quota_used, quota_remaining, quota_total, usage_level, progress_of,
}
use copilot_api_dashboard.Markup.Sections.{
  class_attribute, or_muted, quota_bar, quota_article, metered_quota, limited_quota,
  unlimited_quota, quota_card,
}
use copilot_api_dashboard.Markup.Safe.{
  IsFormat, percent-IsFragment, percent-IsValue, written-IsValue, by_cases-IsFragment,
  dash-IsFragment,
}
use copilot_api_dashboard.Markup.Safe.Rows.{
  quota_used-IsFragment, quota_remaining-IsFragment, quota_total-IsFragment,
}

pub empty-IsFragment : (t : Text) → IsFragment (empty t)
unfolding empty html read
empty-IsFragment t =
    html-IsFragment (lit "<p class=\"empty\">" ∷ hole (escape_html t) ∷ lit "</p>" ∷ [])
      (escape_html-IsFragment t, refl)

or_muted-IsValue : (s : String) → IsValue (codes (or_muted s))
or_muted-IsValue s = plain-IsValue (codes (or_muted s)) (
    if-IsPlain (str_eq s "exhausted") "exhausted" _ refl
      (if-IsPlain (str_eq s "warning") "warning" "muted" refl refl))

module _ {ℓ} {W : Type ℓ} ⦃n : Number W⦄ (f : Format W) (ok : IsFormat f) where
  quota_bar-IsFragment :
      (label : String) (b c : Bool) (p : W)
      → IsPlain (codes label)
      → IsFragment (quota_bar f label (class_attribute b c) p)
  unfolding quota_bar read
  quota_bar-IsFragment label true c p h = html-IsFragment _ (
    written-IsValue f ok (progress_of f p),
    (plain-IsValue (codes label) h, (percent-IsValue f ok p, refl)),
  )
  quota_bar-IsFragment label false true p h = html-IsFragment _ (
    written-IsValue f ok (progress_of f p),
    (plain-IsValue (codes label) h, (percent-IsValue f ok p, refl)),
  )
  quota_bar-IsFragment label false false p h = html-IsFragment _ (
    written-IsValue f ok (progress_of f p),
    (plain-IsValue (codes label) h, (percent-IsValue f ok p, refl)),
  )

  quota_article-IsFragment :
      (label level shown bar used total remaining : Text)
      → IsFragment label
      → IsValue level
      → IsFragment shown
      → IsFragment bar
      → IsFragment used
      → IsFragment total
      → IsFragment remaining
      → IsFragment (quota_article f label level shown bar used total remaining)
  unfolding read
  quota_article-IsFragment label level shown bar used total remaining a b c d e g h =
      html-IsFragment _ (a, (b, (c, (d, (e, (g, (h, refl)))))))

  metered_quota-IsFragment :
      (label level : String) (shown bar : Text) (q : Option (Quota W))
      → IsPlain (codes label)
      → IsFragment shown
      → IsFragment bar
      → IsFragment (metered_quota f label level shown bar q)
  unfolding metered_quota
  metered_quota-IsFragment label level shown bar q h k l =
      quota_article-IsFragment (codes label) (codes (or_muted level)) shown bar (quota_used f q)
        (quota_total f q) (quota_remaining f q) (plain-IsFragment (codes label) h)
        (or_muted-IsValue level) k l (quota_used-IsFragment f ok q) (quota_total-IsFragment f ok q)
        (quota_remaining-IsFragment f ok q)

  limited_quota-IsFragment :
      (label : String) (q : Option (Quota W))
      → IsPlain (codes label)
      → IsFragment (limited_quota f label q)
  unfolding limited_quota
  limited_quota-IsFragment label q h =
      by_cases-IsFragment (finite (value_of (used_percent_value q))) _ _
        (metered_quota-IsFragment label "" dash (empty dash) q h dash-IsFragment
          (empty-IsFragment dash))
        λ p.
          metered_quota-IsFragment label (usage_level f p) (percent f p ++ codes "% used") _ q h
            (append-IsFragment (percent f p) (codes "% used") (percent-IsFragment f ok p)
              (plain-IsFragment (codes "% used") refl))
            (quota_bar-IsFragment label (str_eq (usage_level f p) "exhausted")
              (str_eq (usage_level f p) "warning") p h)

  unlimited_quota-IsFragment :
      (label : String) (q : Option (Quota W))
      → IsPlain (codes label)
      → IsFragment (unlimited_quota f label q)
  unfolding unlimited_quota read
  unlimited_quota-IsFragment label q h = html-IsFragment _ (
    plain-IsFragment (codes label) h,
    (
      by_cases-IsFragment (finite (value_of (used_value q))) _ _ nil-IsFragment
          λ w. html-IsFragment _ (quota_used-IsFragment f ok q, refl),
      refl,
    ),
  )

  pub quota_card-IsFragment :
      (label : String) (q : Option (Quota W))
      → IsPlain (codes label)
      → IsFragment (quota_card f label q)
  unfolding quota_card
  quota_card-IsFragment label q h =
      if-IsFragment (is_unlimited q) (unlimited_quota f label q) (limited_quota f label q)
        (unlimited_quota-IsFragment label q h) (limited_quota-IsFragment label q h)
