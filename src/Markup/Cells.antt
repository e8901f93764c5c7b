-- ===== src/Markup/Cells.antt =====
-- web/app.js: the quota cells and the rows of the tables (`quotaUsed`, `quotaRemaining`, `quotaTotal`,
-- `usageLevel`, `quotaUsage`, and the row templates of `renderModels`, `renderAccounts`, `renderTrend`,
-- `renderErrors` and `renderEvents`).
use copilot_api_dashboard.Base.{
  String, Bool, false, Option, none, some, List, [], ◌∷◌, ◌++◌, map, if◌then◌else◌, codes, str_eq,
}
use copilot_api_dashboard.Model.{
  Value, undefined, SourceError, Cost, Quota, Usage, Account, Day, ModelUsage, RequestEvent,
}
use copilot_api_dashboard.Number.{Number}
use copilot_api_dashboard.Quota.{
  is_true, is_false, metered_entitlement, remaining_value, used_percent_value, used_value,
}
use copilot_api_dashboard.Html.{Text, escape_html, escape_or_dash, lit, hole, html, join}
use copilot_api_dashboard.Markup.{
  Format, dash, value_of, finite, number, percent, tokens, cache_hit_rate_text, duration,
  request_outcome, money,
}

abbrev pub is_unlimited {ℓ} : {W : Type ℓ} → Option (Quota W) → Bool
is_unlimited none = false
is_unlimited (some q) = is_true q.unlimited

-- A field of a usage that may be missing.
abbrev pub field {ℓ} : {W : Type ℓ} → (Usage W → Value W) → Option (Usage W) → Value W
field get none = undefined
field get (some u) = get u

abbrev pub costs_of {ℓ} : {W : Type ℓ} → Option (Usage W) → Option (List (Cost W))
costs_of none = none
costs_of (some u) = u.costs

-- `day.recorded === false`
abbrev pub is_padded {ℓ} : {W : Type ℓ} → Day W → Bool
is_padded d = is_false d.recorded

abbrev pub number_cell : Text → Text
number_cell t = html (lit "<td class=\"number\">" ∷ hole t ∷ lit "</td>" ∷ [])

-- A class behind another one, if there is one.
abbrev pub with_class : String → String
with_class s =
    if str_eq s "exhausted" then " exhausted" else if str_eq s "warning" then " warning" else ""

module _ {ℓ} {W : Type ℓ} ⦃n : Number W⦄ where
  abbrev pub entitlement_of : Option (Quota W) → Option W
  entitlement_of none = none
  entitlement_of (some q) = metered_entitlement q

module _ {ℓ} {W : Type ℓ} ⦃n : Number W⦄ (f : Format W) where
  open f use {written}

  unfoldable pub quota_used : Option (Quota W) → Text
  quota_used q = number f (value_of (used_value q))

  unfoldable pub quota_remaining : Option (Quota W) → Text
  quota_remaining q =
      if is_unlimited q then codes "Unlimited" else number f (value_of (remaining_value q))

  unfoldable pub quota_total : Option (Quota W) → Text
  quota_total q =
      if is_unlimited q then codes "Unlimited" else number f (value_of (entitlement_of q))

  -- `Math.round(percent * 10) / 10`
  abbrev pub rounded : W → W
  rounded p = n.div (n.round (n.mul p (n.of_ℕ 10))) (n.of_ℕ 10)

  unfoldable pub usage_level : W → String
  usage_level p =
      if n.le (n.of_ℕ 100) (rounded p)
      then "exhausted"
      else if n.le (n.of_ℕ 90) (rounded p)
      then "warning"
      else ""

  -- `Math.min(100, Math.max(0, percent))`
  abbrev pub progress_of : W → W
  progress_of p = n.min (n.of_ℕ 100) (n.max (n.of_ℕ 0) p)

  unfoldable pub usage_bar : W → Text
  unfolding usage_level
  usage_bar r = html (
      lit "<span class=\"quota-usage"
      ∷ hole (codes (with_class (usage_level r)))
      ∷ lit "\"><progress value=\""
      ∷ hole (written (progress_of r))
      ∷ lit "\" max=\"100\" aria-label=\""
      ∷ hole (percent f r)
      ∷ lit "% used\"></progress><span class=\"quota-usage-value\">"
      ∷ hole (percent f r)
      ∷ lit "%</span></span>"
      ∷ [])

  unfoldable pub quota_usage : Option (Quota W) → Text
  unfolding usage_bar
  quota_usage q =
      if is_unlimited q
      then codes "<span class=\"unlimited\">Unlimited</span>"
      else elim (finite (value_of (used_percent_value q))) [
        | none ↦ dash
        | some p ↦ usage_bar (rounded p)
      ]

  -- The cells of the four counts of tokens.
  unfoldable pub token_cells : Usage W → Text
  token_cells u = join (
      map (λ v. number_cell (tokens f v))
        (u.input_tokens ∷ u.output_tokens ∷ u.cache_read_input_tokens
          ∷ u.cache_creation_input_tokens ∷ []))

  unfoldable pub model_row : ModelUsage W → Text
  unfolding token_cells
  model_row m = html (
      lit "<tr><td class=\"text-cell\">"
      ∷ hole (escape_or_dash m.model)
      ∷ lit "</td>"
      ∷ hole (token_cells m.usage)
      ∷ lit "<td class=\"number\">"
      ∷ hole (cache_hit_rate_text f (some m.usage))
      ∷ lit "</td><td class=\"number\">"
      ∷ hole (tokens f m.usage.total_tokens)
      ∷ lit "</td><td class=\"number\">"
      ∷ hole (number f m.usage.request_count)
      ∷ lit "</td><td class=\"number\">"
      ∷ hole (money f m.usage.costs)
      ∷ lit "</td></tr>"
      ∷ [])

  -- `name` is `accountName(a)`.
  unfoldable pub account_row : Option String → Account W → Text
  unfolding quota_usage quota_used quota_remaining quota_total
  account_row name a = html (
      lit "<tr><td class=\"text-cell\">"
      ∷ hole (escape_or_dash name)
      ∷ lit "</td><td>"
      ∷ hole (escape_or_dash a.copilot_plan)
      ∷ lit "</td><td class=\"number\">"
      ∷ hole (quota_usage a.premium_interactions)
      ∷ lit "</td><td class=\"number\">"
      ∷ hole (quota_used a.premium_interactions)
      ∷ lit "</td><td class=\"number\">"
      ∷ hole (quota_remaining a.premium_interactions)
      ∷ lit "</td><td class=\"number\">"
      ∷ hole (quota_total a.premium_interactions)
      ∷ lit "</td><td class=\"number\">"
      ∷ hole (tokens f (field (λ u. u.total_tokens) a.totals))
      ∷ lit "</td><td class=\"number\">"
      ∷ hole (number f (field (λ u. u.request_count) a.totals))
      ∷ lit "</td><td class=\"number\">"
      ∷ hole (money f (costs_of a.totals))
      ∷ lit "</td></tr>"
      ∷ [])

  unfoldable pub day_row : Day W → Text
  day_row d = html (
      lit "<tr><td>"
      ∷ hole (
          escape_html (codes d.date)
          ++ (if is_padded d
              then codes " <span class=\"not-recorded\">Not recorded</span>"
              else []))
      ∷ lit "</td><td class=\"number\">"
      ∷ hole (tokens f (field (λ u. u.total_tokens) d.totals))
      ∷ lit "</td><td class=\"number\">"
      ∷ hole (number f (field (λ u. u.request_count) d.totals))
      ∷ lit "</td><td class=\"number\">"
      ∷ hole (money f (costs_of d.totals))
      ∷ lit "</td></tr>"
      ∷ [])

  -- `e.cost ? [e.cost] : null`
  abbrev pub cost_list : Option (Cost W) → Option (List (Cost W))
  cost_list none = none
  cost_list (some c) = some (c ∷ [])

  unfoldable pub event_row : RequestEvent W → Text
  unfolding token_cells
  event_row e = html (
      lit "<tr><td title=\""
      ∷ hole (escape_or_dash e.created_at_utc)
      ∷ lit "\">"
      ∷ hole (escape_or_dash e.local_time)
      ∷ lit "</td><td class=\"text-cell\">"
      ∷ hole (escape_or_dash e.model)
      ∷ lit "</td><td>"
      ∷ hole (escape_or_dash e.endpoint)
      ∷ lit "</td>"
      ∷ hole (token_cells e.counts)
      ∷ lit "<td class=\"number\">"
      ∷ hole (duration f e.duration_ms)
      ∷ lit "</td><td class=\"number\">"
      ∷ hole (tokens f e.counts.total_tokens)
      ∷ lit "</td><td class=\"number\">"
      ∷ hole (money f (cost_list e.cost))
      ∷ lit "</td><td>"
      ∷ hole (request_outcome f e.request_outcome)
      ∷ lit "</td></tr>"
      ∷ [])

unfoldable pub error_row : SourceError → Text
error_row e = html (
    lit "<tr><td>"
    ∷ hole (escape_html (codes e.target))
    ∷ lit "</td><td>"
    ∷ hole (escape_html (codes e.operation))
    ∷ lit "</td><td>"
    ∷ hole (escape_html (codes e.message))
    ∷ lit "</td></tr>"
    ∷ [])
