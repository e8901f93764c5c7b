-- ===== src/Markup/Safe/Pages.antt =====
-- web/app.js: what the page writes into its elements (`renderQuotas`, `renderMetrics`, `trendTooltip`,
-- `renderModels`, `renderAccounts`, `renderErrors`, `renderEvents` and `renderDashboard`), read as a browser
-- reads it.
use copilot_api_dashboard.Base.{
  String, Bool, false, Option, none, some, List, [], ◌∷◌, ◌++◌, map, All, refl, codes,
  if◌then◌else◌, str_eq, length, ◌==◌,
}
use copilot_api_dashboard.Model.{Value, SourceError, Usage, Account, Day, ModelUsage, RequestEvent}
use copilot_api_dashboard.Number.{Number}
use copilot_api_dashboard.Html.{Text, join}
use copilot_api_dashboard.Html.Reader.{read, IsFragment}
use copilot_api_dashboard.Html.Fragments.{
  All-map, All-if, nil-IsFragment, append-IsFragment, join-IsFragment, plain-IsFragment,
  escape_html-IsFragment, escape_or_dash-IsFragment, if-IsFragment,
}
use copilot_api_dashboard.Html.Templates.{html-IsFragment}
use copilot_api_dashboard.Markup.{
  Format, accounts, models, dash, number, tokens, money, cache_hit_rate_text, metric,
}
use copilot_api_dashboard.Markup.Cells.{
  field, costs_of, is_padded, model_row, account_row, event_row, error_row,
}
use copilot_api_dashboard.Markup.Sections.{
  quota_of, render_quotas, account_metrics, render_metrics, trend_tooltip, model_columns,
  render_models, account_columns, render_accounts, event_columns, events_table, identity,
  errors_alert, errors_table,
}
use copilot_api_dashboard.Sorting.{Sort}
use copilot_api_dashboard.Names.{account_name}
use copilot_api_dashboard.Markup.Safe.{
  IsFormat, number-IsFragment, tokens-IsFragment, cache_hit_rate_text-IsFragment, money-IsFragment,
}
use copilot_api_dashboard.Markup.Safe.Tables.{table-IsFragment, metric-IsFragment}
use copilot_api_dashboard.Markup.Safe.Parts.{empty-IsFragment, quota_card-IsFragment}
use copilot_api_dashboard.Markup.Safe.Rows.{
  model_row-IsFragment, account_row-IsFragment, event_row-IsFragment, error_row-IsFragment,
}

join-append-IsFragment :
    (ss ts : List Text) → All IsFragment ss → All IsFragment ts → IsFragment (join (ss ++ ts))
join-append-IsFragment [] ts h k = join-IsFragment ts k
join-append-IsFragment (s ∷ ss) ts h k =
    append-IsFragment s (join (ss ++ ts)) h.0 (join-append-IsFragment ss ts h.1 k)

module _ {ℓ} {W : Type ℓ} ⦃n : Number W⦄ (f : Format W) (ok : IsFormat f) where
  render_quotas-IsFragment : (a : Option (Account W)) → IsFragment (render_quotas f a)
  unfolding render_quotas
  render_quotas-IsFragment a =
      append-IsFragment _ _
        (quota_card-IsFragment f ok "Premium interactions"
          (quota_of f (λ x. x.premium_interactions) a) refl)
        (append-IsFragment _ _ (quota_card-IsFragment f ok "Chat" (quota_of f (λ x. x.chat) a) refl)
          (append-IsFragment _ []
            (quota_card-IsFragment f ok "Completions" (quota_of f (λ x. x.completions) a) refl)
            nil-IsFragment))

  count_metric-IsFragment :
      (label : String) (get : Usage W → Value W) (t : Option (Usage W))
      → IsFragment (metric label (tokens f (field get t)))
  count_metric-IsFragment label get t =
      metric-IsFragment label (tokens f (field get t)) (tokens-IsFragment f ok (field get t))

  account_metrics-All :
      (account : String) (t : Option (Usage W)) → All IsFragment (account_metrics f account t)
  account_metrics-All account t = All-if (str_eq account "") [] _ tt (
    count_metric-IsFragment "Input tokens" (λ u. u.input_tokens) t,
    (
      count_metric-IsFragment "Output tokens" (λ u. u.output_tokens) t,
      (
        count_metric-IsFragment "Cache read" (λ u. u.cache_read_input_tokens) t,
        (count_metric-IsFragment "Cache creation" (λ u. u.cache_creation_input_tokens) t, tt),
      ),
    ),
  )

  render_metrics-IsFragment :
      (account : String) (t : Option (Usage W)) → IsFragment (render_metrics f account t)
  unfolding render_metrics
  render_metrics-IsFragment account t =
      append-IsFragment _ _ (count_metric-IsFragment "Total tokens" (λ u. u.total_tokens) t) (
        append-IsFragment _ _
          (metric-IsFragment "Requests" (number f (field (λ u. u.request_count) t))
            (number-IsFragment f ok (field (λ u. u.request_count) t)))
          (append-IsFragment _ _
            (metric-IsFragment "Cost" (money f (costs_of t)) (money-IsFragment f ok (costs_of t)))
            (join-append-IsFragment (account_metrics f account t) _ (account_metrics-All account t)
              (
                metric-IsFragment "Cache hit rate" (cache_hit_rate_text f t)
                    (cache_hit_rate_text-IsFragment f ok t),
                tt,
              ))))

  -- If the numbers that the page does not escape are written without markup characters, then for whatever
  -- day the markup of the chart's tooltip is a fragment.
  trend_tooltip-IsFragment : (d : Day W) → IsFragment (trend_tooltip f d)
  unfolding trend_tooltip read
  trend_tooltip-IsFragment d =
      if-IsFragment (is_padded d) _ _
        (html-IsFragment _ (escape_html-IsFragment (codes d.date), refl))
        (html-IsFragment _ (
          escape_html-IsFragment (codes d.date),
          (
            tokens-IsFragment f ok (field (λ u. u.total_tokens) d.totals),
            (
              number-IsFragment f ok (field (λ u. u.request_count) d.totals),
              (money-IsFragment f ok (costs_of d.totals), refl),
            ),
          ),
        ))

  render_models-IsFragment :
      (s : Sort) (b : Bool) (ms : Option (List (ModelUsage W)))
      → IsFragment (render_models f s b ms)
  unfolding render_models
  render_models-IsFragment s b none = empty-IsFragment dash
  render_models-IsFragment s b (some []) =
      empty-IsFragment (codes "No model usage for this period.")
  render_models-IsFragment s b (some (m ∷ ms)) =
      table-IsFragment "Model breakdown" (model_columns f) (map (model_row f) (m ∷ ms))
        (some (models, s)) b (All-map (model_row f) (model_row-IsFragment f ok) (m ∷ ms))

  render_accounts-IsFragment :
      (show_names has_errors : Bool) (s : Sort) (b : Bool) (all sorted : List (Account W))
      → IsFragment (render_accounts f show_names has_errors s b all sorted)
  unfolding render_accounts
  render_accounts-IsFragment show_names has_errors s b all [] =
      empty-IsFragment (if has_errors then _ else _)
  render_accounts-IsFragment show_names has_errors s b all (a ∷ sorted) =
      table-IsFragment "Account usage" (account_columns f)
        (map (λ x. account_row f (account_name show_names all x) x) (a ∷ sorted))
        (some (accounts, s)) b
        (All-map (λ x. account_row f (account_name show_names all x) x)
          (λ x. account_row-IsFragment f ok (account_name show_names all x) x) (a ∷ sorted))

  identity-IsFragment : (login : String) (a : Option (Account W)) → IsFragment (identity f login a)
  unfolding identity read
  identity-IsFragment login a = if-IsFragment (str_eq login "") [] _ nil-IsFragment (
      html-IsFragment _ (
        escape_html-IsFragment (codes login),
        (escape_or_dash-IsFragment _, (escape_or_dash-IsFragment _, refl)),
      ))

  -- If the numbers that the page does not escape are written without markup characters, then for whatever
  -- data, selected account and order of the rows the markup of the quotas, of the metrics, of the selected
  -- account, of the table of models and of the table of accounts is a fragment: it closes what it opens, and
  -- has no tag or attribute but the page's own.
  pub dashboard-IsFragment :
      (account : String) (a : Option (Account W)) (t : Option (Usage W)) (s : Sort) (b : Bool)
      (ms : Option (List (ModelUsage W))) (show_names has_errors : Bool)
      (all sorted : List (Account W))
      → IsFragment (render_quotas f a)
        × IsFragment (render_metrics f account t)
        × IsFragment (identity f account a)
        × IsFragment (render_models f s b ms)
        × IsFragment (render_accounts f show_names has_errors s b all sorted)
  dashboard-IsFragment account a t s b ms show_names has_errors all sorted = (
    render_quotas-IsFragment a,
    render_metrics-IsFragment account t,
    identity-IsFragment account a,
    render_models-IsFragment s b ms,
    render_accounts-IsFragment show_names has_errors s b all sorted,
  )

  -- If the numbers that the page does not escape are written without markup characters, then for whatever
  -- events the markup of their table is a fragment.
  events_table-IsFragment : (es : List (RequestEvent W)) → IsFragment (events_table f es)
  unfolding events_table
  events_table-IsFragment [] = empty-IsFragment (codes "No request events for this period.")
  events_table-IsFragment (e ∷ es) =
      table-IsFragment "Request events" (event_columns f) (map (event_row f) (e ∷ es)) none false
        (All-map (event_row f) (event_row-IsFragment f ok) (e ∷ es))

  errors_alert-IsFragment : (es : List SourceError) → IsFragment (errors_alert f es)
  unfolding errors_alert read
  errors_alert-IsFragment [] = nil-IsFragment
  errors_alert-IsFragment (e ∷ es) = html-IsFragment _ (
    number-IsFragment f ok (Value.num (n.of_ℕ (length (e ∷ es)))),
    (
      if-IsFragment (length (e ∷ es) == 1) (codes "error") (codes "errors")
          (plain-IsFragment (codes "error") refl) (plain-IsFragment (codes "errors") refl),
      refl,
    ),
  )

  -- If the numbers that the page does not escape are written without markup characters, then for whatever
  -- errors the markup of the alert and of the table of errors are fragments.
  errors-IsFragment :
      (es : List SourceError) → IsFragment (errors_alert f es) × IsFragment (errors_table es)
  unfolding errors_table
  errors-IsFragment [] = (errors_alert-IsFragment [], nil-IsFragment)
  errors-IsFragment (e ∷ es) = (
    errors_alert-IsFragment (e ∷ es),
    table-IsFragment "Data source errors" ("Target" ∷ "Operation" ∷ "Error" ∷ [])
        (map error_row (e ∷ es)) none false (All-map error_row error_row-IsFragment (e ∷ es)),
  )

  -- If the numbers that the page does not escape are written without markup characters, then for whatever
  -- events, errors and days the markup of the table of events, of the alert, of the table of errors and of the
  -- tooltip of the chart are fragments.
  pub lists-IsFragment :
      (es : List (RequestEvent W)) (errors : List SourceError) (day : Day W)
      → IsFragment (events_table f es)
        × IsFragment (errors_alert f errors)
        × IsFragment (errors_table errors)
        × IsFragment (trend_tooltip f day)
  lists-IsFragment es errors day =
      let (alert, table) = errors-IsFragment errors in
      (events_table-IsFragment es, alert, table, trend_tooltip-IsFragment day)
