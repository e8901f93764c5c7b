-- ===== src/Tests/Markups.antt =====
-- The markup of the page, over thousandths, with texts from the server that hold markup.
use copilot_api_dashboard.Base.{
  ◌/◌, ◌<◌, ◌-◌, true, false, none, some, [], ◌∷◌, ◌≡◌, refl, arith, codes, decimal,
  any-codes-decimal, All, any, ◌==◌,
}
use copilot_api_dashboard.Model.{
  undefined, null, boolean, num, text, SourceError, Account, Day, Usage, Quota, ModelUsage,
  RequestEvent,
}
use copilot_api_dashboard.Number.Milli.{Milli, milli_number}
use copilot_api_dashboard.Html.{Text}
use copilot_api_dashboard.Html.Escape.{is_markup}
use copilot_api_dashboard.Html.Reader.{IsFragment}
use copilot_api_dashboard.Html.Fragments.{IsPlain}
use copilot_api_dashboard.Sorting.{Sort, ascending}
use copilot_api_dashboard.Markup.{Format}
use copilot_api_dashboard.Markup.Sections.{
  render_quotas, render_metrics, trend_tooltip, identity, render_models, render_accounts,
  events_table, errors_alert, errors_table,
}
use copilot_api_dashboard.Markup.Trend.{label_indexes, render_trend}
use copilot_api_dashboard.Markup.Trend.Labels.{IsRising, label_indexes_lem}
use copilot_api_dashboard.Number.Milli.{Milli-IsNumber}
use copilot_api_dashboard.Names.{
  account_name, labels, counts_of, set_labels, label, map_get, map_set,
}
use copilot_api_dashboard.Markup.Cells.{costs_of}
use copilot_api_dashboard.Markup.Keys.{day_key, model_key, account_key}
use copilot_api_dashboard.Markup.Keys.Tables.{IsTable, sortable_rows_lem}
use copilot_api_dashboard.Tests.Tables.{by_length, by_length-IsCollation, by_cost}
use copilot_api_dashboard.Markup.Safe.{IsFormat}
use copilot_api_dashboard.Markup.Safe.Pages.{dashboard-IsFragment, lists-IsFragment}
use copilot_api_dashboard.Markup.Safe.Plots.{render_trend-IsFragment}

-- The whole part of a number.
abbrev whole : Milli → Text
whole none = codes "NaN"
whole (some k) = codes (decimal (k / 1000))

whole-IsPlain : (w : Milli) → IsPlain (whole w)
whole-IsPlain none = refl
whole-IsPlain (some k) = any-codes-decimal is_markup refl (k / 1000)

abbrev whole_format : Format Milli
whole_format = record {
  locale = whole;
  locale_one = whole;
  compact = whole;
  compact_one = whole;
  amount = λ b w. whole w;
  fixed = λ k w. whole w;
  written = whole;
}

whole_format-IsFormat : IsFormat whole_format
whole_format-IsFormat = record {
  locale-IsPlain = whole-IsPlain;
  locale_one-IsPlain = whole-IsPlain;
  fixed-IsPlain = λ k w. whole-IsPlain w;
  written-IsPlain = whole-IsPlain;
}

abbrev some_usage : Usage Milli
some_usage = record {
  input_tokens = num (some 1_000);
  output_tokens = num (some 2_000);
  cache_read_input_tokens = null;
  cache_creation_input_tokens = undefined;
  total_tokens = num (some 3_000);
  request_count = num (some 1_000);
  costs = some (record { currency = "<b>"; total_cost_nanos = num (some 5_000) } ∷ []);
}

abbrev half_used : Quota Milli
half_used = record {
  entitlement = num (some 300_000);
  quota_remaining = num (some 150_000);
  percent_remaining = num (some 50_000);
  credits_used = null;
  unlimited = boolean false;
  has_quota = boolean true;
}

abbrev mallory : Account Milli
mallory = record {
  login = "\"><script>";
  display_name = none;
  copilot_plan = some "<plan>";
  quota_reset_date = none;
  premium_interactions = some half_used;
  chat = none;
  completions = none;
  totals = some some_usage;
}

abbrev model_of_mallory : ModelUsage Milli
model_of_mallory = record { model = some "<img src=x>"; usage = some_usage }

abbrev by_first : Sort
by_first = record { column = 0; direction = ascending }

abbrev some_day : Day Milli
some_day = record { date = "<i>2026</i>"; recorded = boolean true; totals = some some_usage }

abbrev some_event : RequestEvent Milli
some_event = record {
  local_time = none;
  created_at_utc = some "\" onclick=\"x";
  model = some "<img src=x>";
  endpoint = some "/v1/messages";
  counts = some_usage;
  duration_ms = num (some 1_500_000);
  cost = none;
  request_outcome = text "error";
}

abbrev some_error : SourceError
some_error = record { target = "<a>"; operation = "usage"; message = "\"'&" }

dashboard-IsFragment_example :
    IsFragment (render_quotas whole_format (some mallory))
    × IsFragment (render_metrics whole_format mallory.login (some some_usage))
    × IsFragment (identity whole_format mallory.login (some mallory))
    × IsFragment (render_models whole_format by_first false (some (model_of_mallory ∷ [])))
    × IsFragment
        (render_accounts whole_format true false by_first false (mallory ∷ []) (mallory ∷ []))
dashboard-IsFragment_example =
    dashboard-IsFragment whole_format whole_format-IsFormat mallory.login (some mallory)
      (some some_usage) by_first false (some (model_of_mallory ∷ [])) true false (mallory ∷ [])
      (mallory ∷ [])

lists-IsFragment_example :
    IsFragment (events_table whole_format (some_event ∷ []))
    × IsFragment (errors_alert whole_format (some_error ∷ []))
    × IsFragment (errors_table (some_error ∷ []))
    × IsFragment (trend_tooltip whole_format some_day)
lists-IsFragment_example =
    lists-IsFragment whole_format whole_format-IsFormat (some_event ∷ []) (some_error ∷ []) some_day

render_trend-IsFragment_example : IsFragment (
    render_trend whole_format false true
      (some 700_000)
      by_first
      false
      (some (some_day ∷ some_day ∷ []))
      (some_day ∷ some_day ∷ []))
render_trend-IsFragment_example =
    render_trend-IsFragment whole_format whole_format-IsFormat false true (some 700_000) by_first
      false (some (some_day ∷ some_day ∷ [])) (some_day ∷ some_day ∷ [])

label_indexes_lem_example :
    All (◌< 2) (label_indexes false 2)
    × IsRising (label_indexes false 2)
    × (any (0 ==◌) (label_indexes false 2) ≡ true)
    × (any ((2 - 1) ==◌) (label_indexes false 2) ≡ true)
label_indexes_lem_example = label_indexes_lem false 2 (omega arith)

label_indexes_of_five : label_indexes false 5 ≡ 0 ∷ 2 ∷ 4 ∷ []
unfolding label_indexes
label_indexes_of_five = refl

sortable_rows_lem_example :
    IsTable Milli-IsNumber by_length by_length-IsCollation day_key
      (λ d. costs_of d.totals)
      3
      (some_day ∷ [])
      by_cost
    × IsTable Milli-IsNumber by_length by_length-IsCollation model_key
        (λ m. m.usage.costs)
        8
        (model_of_mallory ∷ [])
        by_cost
    × IsTable Milli-IsNumber by_length by_length-IsCollation
        (account_key (account_name true (mallory ∷ [])))
        (λ a. costs_of a.totals)
        8
        (mallory ∷ [])
        by_cost
unfolding account_name labels counts_of set_labels label map_get map_set
sortable_rows_lem_example =
    sortable_rows_lem Milli-IsNumber by_length by_length-IsCollation
      (account_name true (mallory ∷ [])) (some_day ∷ []) (model_of_mallory ∷ []) (mallory ∷ [])
      by_cost ((tt, tt), tt) ((tt, (tt, tt, tt, tt, tt, tt)), tt) ((tt, (tt, tt)), tt)
