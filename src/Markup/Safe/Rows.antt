-- ===== src/Markup/Safe/Rows.antt =====
-- web/app.js: the rows of the tables (`renderModels`, `renderAccounts`, `renderTrend`, `renderErrors`,
-- `renderEvents`), read as a browser reads them.
use copilot_api_dashboard.Base.{String, Option, some, [], ◌∷◌, map, refl, codes, str_eq}
use copilot_api_dashboard.Model.{
  Value, SourceError, Quota, Usage, Account, Day, ModelUsage, RequestEvent,
}
use copilot_api_dashboard.Number.{Number}
use copilot_api_dashboard.Quota.{used_percent_value}
use copilot_api_dashboard.Html.{Text, escape_html}
use copilot_api_dashboard.Html.Reader.{read, IsFragment, IsValue}
use copilot_api_dashboard.Html.Fragments.{
  nil-IsFragment, append-IsFragment, join-IsFragment, plain-IsFragment, plain-IsValue,
  escape_html-IsFragment, escape_or_dash-IsFragment, escape_or_dash-IsValue, if-IsFragment,
  if-IsPlain,
}
use copilot_api_dashboard.Html.Templates.{html-IsFragment, literal-IsFragment}
use copilot_api_dashboard.Markup.{Format, value_of, finite, tokens}
use copilot_api_dashboard.Markup.Cells.{
  is_unlimited, field, costs_of, is_padded, number_cell, quota_used, quota_remaining, quota_total,
  usage_level, with_class, progress_of, rounded, usage_bar, quota_usage, token_cells, model_row,
  account_row, day_row, cost_list, event_row, error_row,
}
use copilot_api_dashboard.Markup.Safe.{
  IsFormat, percent-IsFragment, percent-IsValue, written-IsValue, by_cases-IsFragment,
  dash-IsFragment, number-IsFragment, tokens-IsFragment, cache_hit_rate_text-IsFragment,
  duration-IsFragment, request_outcome-IsFragment, money-IsFragment,
}

number_cell-IsFragment : (t : Text) → IsFragment t → IsFragment (number_cell t)
unfolding read
number_cell-IsFragment t h = html-IsFragment _ (h, refl)

unlimited-IsFragment : IsFragment (codes "Unlimited")
unlimited-IsFragment = plain-IsFragment (codes "Unlimited") refl

with_class-IsValue : (s : String) → IsValue (codes (with_class s))
with_class-IsValue s = plain-IsValue (codes (with_class s)) (
    if-IsPlain (str_eq s "exhausted") " exhausted" _ refl
      (if-IsPlain (str_eq s "warning") " warning" "" refl refl))

module _ {ℓ} {W : Type ℓ} ⦃n : Number W⦄ (f : Format W) (ok : IsFormat f) where
  pub quota_used-IsFragment : (q : Option (Quota W)) → IsFragment (quota_used f q)
  unfolding quota_used
  quota_used-IsFragment q = number-IsFragment f ok _

  pub quota_remaining-IsFragment : (q : Option (Quota W)) → IsFragment (quota_remaining f q)
  unfolding quota_remaining
  quota_remaining-IsFragment q =
      if-IsFragment (is_unlimited q) _ _ unlimited-IsFragment (number-IsFragment f ok _)

  pub quota_total-IsFragment : (q : Option (Quota W)) → IsFragment (quota_total f q)
  unfolding quota_total
  quota_total-IsFragment q =
      if-IsFragment (is_unlimited q) _ _ unlimited-IsFragment (number-IsFragment f ok _)

  usage_bar-IsFragment : (r : W) → IsFragment (usage_bar f r)
  unfolding usage_bar read
  usage_bar-IsFragment r = html-IsFragment _ (
    with_class-IsValue (usage_level f r),
    (
      written-IsValue f ok (progress_of f r),
      (percent-IsValue f ok r, (percent-IsFragment f ok r, refl)),
    ),
  )

  quota_usage-IsFragment : (q : Option (Quota W)) → IsFragment (quota_usage f q)
  unfolding quota_usage read
  quota_usage-IsFragment q =
      if-IsFragment (is_unlimited q) _ _
        (literal-IsFragment "<span class=\"unlimited\">Unlimited</span>" refl)
        (by_cases-IsFragment (finite (value_of (used_percent_value q))) _ _ dash-IsFragment
          λ p. usage_bar-IsFragment (rounded f p))

  count_cell-IsFragment : (v : Value W) → IsFragment (number_cell (tokens f v))
  count_cell-IsFragment v = number_cell-IsFragment (tokens f v) (tokens-IsFragment f ok v)

  token_cells-IsFragment : (u : Usage W) → IsFragment (token_cells f u)
  unfolding token_cells
  token_cells-IsFragment u =
      join-IsFragment
        (map (λ v. number_cell (tokens f v))
          (u.input_tokens ∷ u.output_tokens ∷ u.cache_read_input_tokens
            ∷ u.cache_creation_input_tokens ∷ []))
        (
          count_cell-IsFragment u.input_tokens,
          (
            count_cell-IsFragment u.output_tokens,
            (
              count_cell-IsFragment u.cache_read_input_tokens,
              (count_cell-IsFragment u.cache_creation_input_tokens, tt),
            ),
          ),
        )

  pub model_row-IsFragment : (m : ModelUsage W) → IsFragment (model_row f m)
  unfolding model_row read
  model_row-IsFragment m = html-IsFragment _ (
    escape_or_dash-IsFragment m.model,
    (
      token_cells-IsFragment m.usage,
      (
        cache_hit_rate_text-IsFragment f ok (some m.usage),
        (
          tokens-IsFragment f ok m.usage.total_tokens,
          (
            number-IsFragment f ok m.usage.request_count,
            (money-IsFragment f ok m.usage.costs, refl),
          ),
        ),
      ),
    ),
  )

  pub account_row-IsFragment :
      (name : Option String) (a : Account W) → IsFragment (account_row f name a)
  unfolding account_row read
  account_row-IsFragment name a = html-IsFragment _ (
    escape_or_dash-IsFragment name,
    (
      escape_or_dash-IsFragment a.copilot_plan,
      (
        quota_usage-IsFragment a.premium_interactions,
        (
          quota_used-IsFragment a.premium_interactions,
          (
            quota_remaining-IsFragment a.premium_interactions,
            (
              quota_total-IsFragment a.premium_interactions,
              (
                tokens-IsFragment f ok (field (λ u. u.total_tokens) a.totals),
                (
                  number-IsFragment f ok (field (λ u. u.request_count) a.totals),
                  (money-IsFragment f ok (costs_of a.totals), refl),
                ),
              ),
            ),
          ),
        ),
      ),
    ),
  )

  pub day_row-IsFragment : (d : Day W) → IsFragment (day_row f d)
  unfolding day_row read
  day_row-IsFragment d = html-IsFragment _ (
    append-IsFragment (escape_html (codes d.date)) _ (escape_html-IsFragment (codes d.date)) (
        if-IsFragment (is_padded d) _ _
          (literal-IsFragment " <span class=\"not-recorded\">Not recorded</span>" refl)
          nil-IsFragment),
    (
      tokens-IsFragment f ok (field (λ u. u.total_tokens) d.totals),
      (
        number-IsFragment f ok (field (λ u. u.request_count) d.totals),
        (money-IsFragment f ok (costs_of d.totals), refl),
      ),
    ),
  )

  pub event_row-IsFragment : (e : RequestEvent W) → IsFragment (event_row f e)
  unfolding event_row read
  event_row-IsFragment e = html-IsFragment _ (
    escape_or_dash-IsValue e.created_at_utc,
    (
      escape_or_dash-IsFragment e.local_time,
      (
        escape_or_dash-IsFragment e.model,
        (
          escape_or_dash-IsFragment e.endpoint,
          (
            token_cells-IsFragment e.counts,
            (
              duration-IsFragment f ok e.duration_ms,
              (
                tokens-IsFragment f ok e.counts.total_tokens,
                (
                  money-IsFragment f ok (cost_list f e.cost),
                  (request_outcome-IsFragment f ok e.request_outcome, refl),
                ),
              ),
            ),
          ),
        ),
      ),
    ),
  )

pub error_row-IsFragment : (e : SourceError) → IsFragment (error_row e)
unfolding error_row read
error_row-IsFragment e = html-IsFragment _ (
  escape_html-IsFragment (codes e.target),
  (escape_html-IsFragment (codes e.operation), (escape_html-IsFragment (codes e.message), refl)),
)
