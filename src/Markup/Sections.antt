-- ===== src/Markup/Sections.antt =====
-- web/app.js: the markup of the sections (`renderQuotas`, `renderMetrics`, `trendTooltip`, `renderModels`,
-- `renderAccounts`, and the markup that `renderErrors`, `renderDashboard` and `renderEvents` write).
use copilot_api_dashboard.Base.{
  String, Bool, true, false, Option, none, some, List, [], ◌∷◌, ◌++◌, map, length, if◌then◌else◌,
  codes, str_eq, ◌==◌,
}
use copilot_api_dashboard.Model.{
  Value, SourceError, Quota, Usage, Account, Day, ModelUsage, RequestEvent,
}
use copilot_api_dashboard.Number.{Number}
use copilot_api_dashboard.Quota.{used_percent_value, used_value}
use copilot_api_dashboard.Html.{Text, escape_html, escape_or_dash, empty, lit, hole, html, join}
use copilot_api_dashboard.Markup.{
  Format, accounts, models, dash, value_of, finite, number, percent, tokens, cache_hit_rate_text,
  money, table, metric,
}
use copilot_api_dashboard.Markup.Cells.{
  is_unlimited, field, costs_of, quota_used, quota_remaining, quota_total, usage_level, progress_of,
  model_row, account_row, is_padded, event_row, error_row,
}
use copilot_api_dashboard.Sorting.{Sort}
use copilot_api_dashboard.Names.{account_name}

-- The attribute of a bar whose level is "exhausted", or "warning".
abbrev pub class_attribute : Bool → Bool → String
class_attribute true warning = " class=\"exhausted\""
class_attribute false true = " class=\"warning\""
class_attribute false false = ""

abbrev pub class_of : String → String
class_of level = class_attribute (str_eq level "exhausted") (str_eq level "warning")

-- `level || "muted"`
abbrev pub or_muted : String → String
or_muted level =
    if str_eq level "exhausted"
    then "exhausted"
    else if str_eq level "warning"
    then "warning"
    else "muted"

module _ {ℓ} {W : Type ℓ} ⦃n : Number W⦄ (f : Format W) where
  open f use {written}

  unfoldable pub quota_bar : String → String → W → Text
  quota_bar label class_text p = html (
      lit "<progress"
      ∷ lit class_text
      ∷ lit " value=\""
      ∷ hole (written (progress_of f p))
      ∷ lit "\" max=\"100\" aria-label=\""
      ∷ hole (codes label)
      ∷ lit ": "
      ∷ hole (percent f p)
      ∷ lit "% used\"></progress>"
      ∷ [])

  -- The template of `shown`, the level and the bar, and of the used, total and remaining requests.
  abbrev pub quota_article : Text → Text → Text → Text → Text → Text → Text → Text
  quota_article label level shown bar used total remaining = html (
      lit "<article class=\"quota\"><div class=\"quota-top\"><h3>"
      ∷ hole label
      ∷ lit "</h3><span class=\""
      ∷ hole level
      ∷ lit "\">"
      ∷ hole shown
      ∷ lit "</span></div>\n      "
      ∷ hole bar
      ∷ lit "\n      <div class=\"quota-values\"><span>"
      ∷ hole used
      ∷ lit " used / "
      ∷ hole total
      ∷ lit "</span><span>"
      ∷ hole remaining
      ∷ lit " remaining</span></div></article>"
      ∷ [])

  unfoldable pub metered_quota : String → String → Text → Text → Option (Quota W) → Text
  unfolding quota_used quota_remaining quota_total
  metered_quota label level shown bar q =
      quota_article (codes label) (codes (or_muted level)) shown bar (quota_used f q)
        (quota_total f q) (quota_remaining f q)

  unfoldable pub limited_quota : String → Option (Quota W) → Text
  unfolding metered_quota quota_bar usage_level
  limited_quota label q = elim (finite (value_of (used_percent_value q))) [
    | none ↦ metered_quota label "" dash (empty dash) q
    | some p ↦
        metered_quota label (usage_level f p) (percent f p ++ codes "% used")
          (quota_bar label (class_of (usage_level f p)) p) q
  ]

  unfoldable pub unlimited_quota : String → Option (Quota W) → Text
  unfolding quota_used
  unlimited_quota label q = html (
      lit "<article class=\"quota\"><div class=\"quota-top\"><h3>"
      ∷ hole (codes label)
      ∷ lit "</h3><span class=\"unlimited\">Unlimited</span></div>"
      ∷ hole (elim (finite (value_of (used_value q))) [
        | none ↦ []
        | some w ↦ html (
            lit "<div class=\"quota-values\"><span>"
            ∷ hole (quota_used f q)
            ∷ lit " used</span></div>"
            ∷ [])
      ])
      ∷ lit "</article>"
      ∷ [])

  unfoldable pub quota_card : String → Option (Quota W) → Text
  unfolding limited_quota unlimited_quota
  quota_card label q = if is_unlimited q then unlimited_quota label q else limited_quota label q

  -- `account?.quota_snapshots?.[key]`
  abbrev pub quota_of : (Account W → Option (Quota W)) → Option (Account W) → Option (Quota W)
  quota_of get none = none
  quota_of get (some a) = get a

  unfoldable pub render_quotas : Option (Account W) → Text
  unfolding quota_card
  render_quotas a = join (
      quota_card "Premium interactions" (quota_of (λ x. x.premium_interactions) a)
      ∷ quota_card "Chat" (quota_of (λ x. x.chat) a)
      ∷ quota_card "Completions" (quota_of (λ x. x.completions) a)
      ∷ [])

  -- `account` is `state.account`.
  abbrev pub account_metrics : String → Option (Usage W) → List Text
  account_metrics account t =
      if str_eq account ""
      then []
      else metric "Input tokens" (tokens f (field (λ u. u.input_tokens) t))
        ∷ metric "Output tokens" (tokens f (field (λ u. u.output_tokens) t))
        ∷ metric "Cache read" (tokens f (field (λ u. u.cache_read_input_tokens) t))
        ∷ metric "Cache creation" (tokens f (field (λ u. u.cache_creation_input_tokens) t))
        ∷ []

  unfoldable pub render_metrics : String → Option (Usage W) → Text
  render_metrics account t = join (
      metric "Total tokens" (tokens f (field (λ u. u.total_tokens) t))
      ∷ metric "Requests" (number f (field (λ u. u.request_count) t))
      ∷ metric "Cost" (money f (costs_of t))
      ∷ (account_metrics account t ++ metric "Cache hit rate" (cache_hit_rate_text f t) ∷ []))

  unfoldable pub trend_tooltip : Day W → Text
  trend_tooltip d =
      if is_padded d
      then html (
          lit "<strong>"
          ∷ hole (escape_html (codes d.date))
          ∷ lit "</strong><span class=\"chart-tooltip-empty\">No recorded usage</span>"
          ∷ [])
      else html (
          lit "<strong>"
          ∷ hole (escape_html (codes d.date))
          ∷ lit "</strong><dl><div><dt>Total tokens</dt><dd>"
          ∷ hole (tokens f (field (λ u. u.total_tokens) d.totals))
          ∷ lit "</dd></div><div><dt>Requests</dt><dd>"
          ∷ hole (number f (field (λ u. u.request_count) d.totals))
          ∷ lit "</dd></div><div><dt>Cost</dt><dd>"
          ∷ hole (money f (costs_of d.totals))
          ∷ lit "</dd></div></dl>"
          ∷ [])

  abbrev pub model_columns : List String
  model_columns =
      "Model" ∷ "Input" ∷ "Output" ∷ "Cache read" ∷ "Cache creation" ∷ "Cache hit rate" ∷ "Tokens"
      ∷ "Requests" ∷ "Cost" ∷ []

  -- `sorted` is the rows' items as `sortableTable` orders them, and `s` and `disabled_cost` what it found.
  unfoldable pub render_models : Sort → Bool → Option (List (ModelUsage W)) → Text
  render_models s disabled_cost none = empty dash
  render_models s disabled_cost (some []) = empty (codes "No model usage for this period.")
  render_models s disabled_cost (some (m ∷ sorted)) =
      table "Model breakdown" model_columns (map (model_row f) (m ∷ sorted)) (some (models, s))
        disabled_cost

  abbrev pub account_columns : List String
  account_columns =
      "Account" ∷ "Plan" ∷ "Usage" ∷ "Used" ∷ "Remaining" ∷ "Total" ∷ "Tokens" ∷ "Requests" ∷ "Cost"
      ∷ []

  -- `all` is the accounts in the server's order, by which they are named.
  unfoldable pub render_accounts :
      Bool → Bool → Sort → Bool → List (Account W) → List (Account W) → Text
  render_accounts show_names has_errors s disabled_cost all [] = empty (
      if has_errors
      then codes "No accounts available."
      else codes
          "No accounts found. Add endpoints to the endpoints file, or run Copilot API containers on a Docker network shared with the dashboard.")
  render_accounts show_names has_errors s disabled_cost all (a ∷ sorted) =
      table "Account usage" account_columns
        (map (λ x. account_row f (account_name show_names all x) x) (a ∷ sorted))
        (some (accounts, s)) disabled_cost

  abbrev pub event_columns : List String
  event_columns =
      "Time" ∷ "Model" ∷ "Endpoint" ∷ "Input" ∷ "Output" ∷ "Cache read" ∷ "Cache creation"
      ∷ "Duration" ∷ "Tokens" ∷ "Cost" ∷ "Outcome" ∷ []

  unfoldable pub events_table : List (RequestEvent W) → Text
  events_table [] = empty (codes "No request events for this period.")
  events_table (e ∷ events) =
      table "Request events" event_columns (map (event_row f) (e ∷ events)) none false

  -- The markup of the selected account. `account` is the one of the list, if it is there.
  unfoldable pub identity : String → Option (Account W) → Text
  identity login account =
      if str_eq login ""
      then []
      else html (
          lit "<h2>"
          ∷ hole (escape_html (codes login))
          ∷ lit "</h2><span class=\"muted\">"
          ∷ hole (escape_or_dash (elim account [ none ↦ none | some a ↦ a.copilot_plan ]))
          ∷ lit " · Quota resets "
          ∷ hole (escape_or_dash (elim account [ none ↦ none | some a ↦ a.quota_reset_date ]))
          ∷ lit "</span>"
          ∷ [])

  -- The alert and the table of the errors; `number(unique.size)` is `count`.
  unfoldable pub errors_alert : List SourceError → Text
  errors_alert [] = []
  errors_alert (e ∷ es) = html (
      lit "<span>"
      ∷ hole (number f (Value.num (n.of_ℕ (length (e ∷ es)))))
      ∷ lit " data source "
      ∷ hole (if length (e ∷ es) == 1 then codes "error" else codes "errors")
      ∷ lit ".</span>"
      ∷ lit " <a href=\"#errors-section\">View details</a>"
      ∷ [])

unfoldable pub errors_table : List SourceError → Text
errors_table [] = []
errors_table (e ∷ es) =
    table "Data source errors" ("Target" ∷ "Operation" ∷ "Error" ∷ []) (map error_row (e ∷ es)) none
      false
