-- ===== src/Tests/Values.antt =====
-- Requests, filters, accounts, errors, quotas and themes.
use copilot_api_dashboard.Base.{
  ℕ, String, Bool, true, false, none, some, List, [], ◌∷◌, ◌≡◌, ◌⊎◌, refl, codes, any, str_eq,
  if◌then◌else◌,
}
use copilot_api_dashboard.Model.{undefined, boolean, num, SourceError, Account, Quota, Usage}
use copilot_api_dashboard.Html.{escape_html}
use copilot_api_dashboard.Html.Escape.{decode, is_markup, escape_html_lem}
use copilot_api_dashboard.Request.{Settled, response, object, Envelope, thrown, returned, request}
use copilot_api_dashboard.Request.Answers.{IsServed, IsReported, IsUnreadable, request_lem}
use copilot_api_dashboard.Filters.{Query, filter_query, location_filters}
use copilot_api_dashboard.Filters.Roundtrip.{location_filters-filter_query, location_filters_idem}
use copilot_api_dashboard.Accounts.{select_value, same_login, canonical, account_options, has_login}
use copilot_api_dashboard.Accounts.Select.{canonical_lem}
use copilot_api_dashboard.Errors.{unique_errors}
use copilot_api_dashboard.Errors.Unique.{Distinct, shows, unique_errors_lem}
use copilot_api_dashboard.Number.{◌≼◌}
use copilot_api_dashboard.Number.Milli.{Milli, Milli-IsNumber, milli_number}
use copilot_api_dashboard.Quota.{
  metered_entitlement, remaining_value, used_percent_value, used_value, cache_hit_rate,
}
use copilot_api_dashboard.Quota.Bounds.{
  used_percent_value_bounds, used_value_bounds, cache_hit_rate_bounds,
}
use copilot_api_dashboard.Theme.{Page, current_theme, click_theme}
use copilot_api_dashboard.Theme.Cycle.{click_theme_cycle}

escape_html_lem_example :
    (any is_markup (escape_html (codes "<b a=\"x\">&'")) ≡ false)
    × (decode none (escape_html (codes "<b a=\"x\">&'")) ≡ codes "<b a=\"x\">&'")
escape_html_lem_example = escape_html_lem (codes "<b a=\"x\">&'")

abbrev unreachable : SourceError
unreachable = record { target = "ann"; operation = "sync"; message = "unreachable" }

-- A status of failure that the server explains, with the data it has all the same.
abbrev explained : Settled ℕ
explained = response 502 (some (object (some (unreachable ∷ [])) (some (some 7))))

abbrev answered : Envelope ℕ
answered = record { payload = some 7; errors = unreachable ∷ [] }

request_lem_example :
    ((request "ann" "sync" true explained ≡ thrown)
      × (◌≡◌ {A = Bool} true true)
      × IsUnreadable "ann" "sync" explained)
    ⊎ ((e : Envelope ℕ) × (request "ann" "sync" true explained ≡ returned e)
        × (IsServed "ann" "sync" explained e ⊎ IsReported "ann" "sync" e)
        × ¬ ((◌≡◌ {A = Bool} true true) × IsUnreadable "ann" "sync" explained))
request_lem_example = request_lem "ann" "sync" true explained

location_filters-filter_query_example :
    location_filters (filter_query "ann" "today")
    ≡ record { account = "ann"; period = "today"; valid_period = true }
location_filters-filter_query_example = location_filters-filter_query "ann" "today" refl

abbrev odd_query : Query
odd_query = ("period", "yesterday") ∷ ("account", "ann") ∷ []

location_filters_idem_example :
    location_filters
      (filter_query (location_filters odd_query).account (location_filters odd_query).period)
    ≡ record (location_filters odd_query) { valid_period = true }
location_filters_idem_example = location_filters_idem odd_query

abbrev lower : String → String
lower s = if str_eq s "Ann" then "ann" else s

abbrev account : String → Account ℕ
account login = record {
  login = login;
  display_name = none;
  copilot_plan = none;
  quota_reset_date = none;
  premium_interactions = none;
  chat = none;
  completions = none;
  totals = none;
}

abbrev accounts : List (Account ℕ)
accounts = account "bob" ∷ account "Ann" ∷ []

canonical_lem_example :
    (same_login lower (canonical lower "ann" accounts) "ann" ≡ true)
    × (has_login (canonical lower "ann" accounts) accounts
        ≡ any (λ (a : Account ℕ). same_login lower a.login "ann") accounts)
    × (select_value (account_options lower "ann" accounts) (canonical lower "ann" accounts)
        ≡ canonical lower "ann" accounts)
canonical_lem_example = canonical_lem lower "ann" accounts

abbrev timeout' : SourceError
timeout' = record { target = "ann"; operation = "events"; message = "Network request failed" }

unique_errors_lem_example :
    Distinct (unique_errors (timeout' ∷ []) (timeout' ∷ []))
    × ((x : SourceError)
        → shows (unique_errors (timeout' ∷ []) (timeout' ∷ [])) x
          ≡ shows (timeout' ∷ timeout' ∷ []) x)
unique_errors_lem_example = unique_errors_lem (timeout' ∷ []) (timeout' ∷ [])

-- 300 a month, of which 75, or a quarter, is left.
abbrev quota : Quota Milli
quota = record {
  entitlement = num (some 300_000);
  quota_remaining = num (some 75_000);
  percent_remaining = num (some 25_000);
  credits_used = undefined;
  unlimited = boolean false;
  has_quota = undefined;
}

used_percent_value_bounds_example :
    (◌≼◌ {W = Milli} (some 0) (some 75_000)) × (◌≼◌ {W = Milli} (some 75_000) (some 100_000))
unfolding used_percent_value
used_percent_value_bounds_example =
    used_percent_value_bounds Milli-IsNumber (some quota) (some 75_000) refl

used_value_bounds_example :
    (◌≼◌ {W = Milli} (some 0) (some 225_000)) × (◌≼◌ {W = Milli} (some 225_000) (some 300_000))
unfolding used_value metered_entitlement remaining_value
used_value_bounds_example =
    used_value_bounds Milli-IsNumber quota (some 300_000) (some 75_000) (some 225_000) refl refl
      refl

abbrev usage : Usage Milli
usage = record {
  input_tokens = num (some 30_000);
  output_tokens = undefined;
  cache_read_input_tokens = num (some 60_000);
  cache_creation_input_tokens = num (some 10_000);
  total_tokens = undefined;
  request_count = undefined;
  costs = none;
}

cache_hit_rate_bounds_example :
    (◌≼◌ {W = Milli} (some 0) (some 60_000)) × (◌≼◌ {W = Milli} (some 60_000) (some 100_000))
unfolding cache_hit_rate
cache_hit_rate_bounds_example = cache_hit_rate_bounds Milli-IsNumber (some usage) (some 60_000) refl

abbrev page : Page
page = record {
  theme = some "dark";
  stored = some "dark";
  storage = true;
  title = "";
  announcement = "";
}

click_theme_cycle_example :
    (current_theme (click_theme (click_theme (click_theme page))) ≡ current_theme page)
    × (str_eq (current_theme (click_theme page)) (current_theme page) ≡ false)
unfolding current_theme
click_theme_cycle_example = click_theme_cycle page refl
