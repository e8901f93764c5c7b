-- ===== src/Tests/Servers.antt =====
-- The server: usage of two accounts, days of the winter of 2024, and amounts that are the nanos.
use mathlib.Core.List.Permᴰ.{swap}
use copilot_api_dashboard.Base.{
  ℕ, zero, suc, ◌+◌, ◌-◌, ◌*◌, ◌/◌, ◌%◌, ◌≤◌, ◌<◌, ltb, ◌==◌, ◌&&◌, ◌+++◌, sym, eq_iff,
  text_lt_trans, Bool-cases, inl, inr, Bool, String, true, none, some, List, [], ◌∷◌, ◌++◌, ◌≡◌,
  refl, arith, str_eq, text_lt, if◌then◌else◌,
}
use copilot_api_dashboard.Server.{Totals, UpstreamDay, Day}
use copilot_api_dashboard.Server.Keyed.{find}
use copilot_api_dashboard.Server.Keyed.Sorted.{Ascending}
use copilot_api_dashboard.Server.Numbers.{tokens}
use copilot_api_dashboard.Server.Fill.{Dates, blank_day, fill_days}
use copilot_api_dashboard.Server.Fill.Filled.{IsDates}
use copilot_api_dashboard.Server.Fill.Spans.{IsShownFor, fill_days_lem}
use copilot_api_dashboard.Server.Service.{
  Endpoint, Usage, Resolved, Loaded, no_snapshot, snapshot, Progress, summarize_days, merge_days,
  persisted_dashboard,
}
use copilot_api_dashboard.Server.Service.Agreement.{Agree, persisted_dashboard-Agree}
use copilot_api_dashboard.Server.Service.Reports.{IsReport, persisted_dashboard-IsReport}
use copilot_api_dashboard.Server.Service.Orders.{days_perm}
use copilot_api_dashboard.Server.Service.Calendars.{
  IsShown, loaded_days, persisted_dashboard-IsShown,
}
use copilot_api_dashboard.Server.Resolve.{Fetched, no_usage, fetched, deduplicate, resolve}
use copilot_api_dashboard.Server.Resolve.Logins.{answers, usage_errors, resolve_lem}
use copilot_api_dashboard.Server.Tasks.{
  begins, finishes, waits, closed, TaskEvent, task_events, no_tasks,
}
use copilot_api_dashboard.Server.Tasks.Waits.{due, task_events_lem, wait_for_sync_lem}

abbrev digits : List String
digits = "0" ∷ "1" ∷ "2" ∷ "3" ∷ "4" ∷ "5" ∷ "6" ∷ "7" ∷ "8" ∷ "9" ∷ []

abbrev nth : List String → ℕ → String
nth [] n = ""
nth (s ∷ rest) zero = s
nth (s ∷ rest) (suc n) = nth rest n

abbrev two_digits : ℕ → String
two_digits n = nth digits (n / 10) +++ nth digits (n % 10)

abbrev day_text : ℕ → String
day_text d =
    if ltb d 31 then "2024-01-" +++ two_digits (d + 1) else "2024-02-" +++ two_digits (d - 30)

-- Days of January and February 2024 from 0; a day has 24 hours.
abbrev winter : Dates
winter = record {
  format = λ time. day_text (time / 24);
  parse = λ s. if str_eq s "2024-01-01" then some 0 else none;
  weekday = λ time. (time / 24 + 1) % 7;
  year = λ time. 2024;
  month = λ time. if ltb (time / 24) 31 then 1 else 2;
  day = λ time. if ltb (time / 24) 31 then time / 24 + 1 else time / 24 - 30;
  date = λ year month day. if month == 1 then 24 * (day - 1) else 24 * (day + 30);
  add_days = λ time n. time + 24 * n;
  back_days = λ time n. time - 24 * n;
}

abbrev midnight : ℕ → ℕ
midnight d = 24 * d

abbrev is_next : ℕ → Bool
is_next zero = true
is_next (suc d) = text_lt (day_text d) (day_text (suc d)) && is_next d

in_order : is_next 58 ≡ true
unfolding text_lt
in_order = refl

next : (b d : ℕ) → is_next b ≡ true → d < b → text_lt (day_text d) (day_text (suc d)) ≡ true
next zero d e h = absurd (omega arith)
next (suc b) d e h = elim (Bool-cases (d == b)) [
  | inl f ↦ let same : d ≡ b = ground arith in rw same (grind arith)
  | inr f ↦ next b d (grind arith) (ground arith)
]

mono : (a b : ℕ) → a < b → b ≤ 58 → text_lt (day_text a) (day_text b) ≡ true
mono a zero h k = absurd (omega arith)
mono a (suc b) h k = elim (Bool-cases (a == b)) [
  | inl f ↦ let same : a ≡ b = ground arith in rw same (next 58 b in_order k)
  | inr f ↦
      text_lt_trans (day_text a) (day_text b) (day_text (suc b))
        (mono a b (ground arith) (omega arith)) (next 58 b in_order k)
]

day_of : (d : ℕ) → 24 * d / 24 ≡ d
day_of d = omega arith

winter-IsDates : IsDates winter midnight 58
winter-IsDates = record {
  midnight_mono = λ a b h. omega arith;
  format_mono = λ a b h k. rw (day_of a, day_of b) (mono a b h k);
  add_midnight = λ d n. omega arith;
  back_midnight = λ d n h. omega arith;
  parse_midnight = read;
  weekday_lt = λ d. omega arith;
  weekday_suc = λ d. omega arith;
  date_first = first;
}
  where
    read :
        (s : String) (x : ℕ)
        → winter.parse s ≡ some x
        → (d : ℕ) × (x ≡ midnight d) × (winter.format (midnight d) ≡ s)
    read s x e = elim (Bool-cases (str_eq s "2024-01-01")) [
      | inl f ↦ (0, grind arith, sym ((eq_iff s "2024-01-01").0 f))
      | inr f ↦ absurd (cc (rw f at e))
    ]

    first :
        (d : ℕ)
        → (s : ℕ) × (winter.date 2024 (winter.month (midnight d)) 1 ≡ midnight s)
          × (winter.year (midnight s) ≡ winter.year (midnight d))
          × (winter.month (midnight s) ≡ winter.month (midnight d))
          × (winter.day (midnight s) ≡ 1)
    first d = elim (Bool-cases (ltb (24 * d / 24) 31)) [
      | inl e ↦ (0, rw e refl, refl, rw e refl, refl)
      | inr e ↦ (31, rw e refl, refl, rw e refl, refl)
    ]

abbrev totals_of : ℕ → Totals ℕ
totals_of n = record {
  input = n;
  output = n;
  cache_read = 0;
  cache_creation = 0;
  requests = 1;
  tokens = n;
  nano_aiu = none;
  costs = some (record { amount = n; currency = "USD"; nanos = n } ∷ []);
}

abbrev usage_on : String → ℕ → UpstreamDay ℕ
usage_on date n = record {
  date = date;
  totals = totals_of n;
  models = record { model = "gpt"; totals = totals_of n } ∷ [];
}

abbrev two_days : List (UpstreamDay ℕ)
two_days = usage_on "2024-01-03" 5 ∷ usage_on "2024-01-01" 7 ∷ []

abbrev other_order : List (UpstreamDay ℕ)
other_order = usage_on "2024-01-01" 7 ∷ usage_on "2024-01-03" 5 ∷ []

abbrev nanos : ℕ → ℕ
nanos n = n

abbrev recorded_days : List (Day ℕ)
recorded_days = merge_days nanos [] (usage_on "2024-02-02" 5 ∷ [])

-- The week before five o'clock on the 6th of February, day 36.
filled_dates :
    fill_days winter (some recorded_days) "last_7_days" 869
    ≡ some (
        blank_day "2024-01-31" ∷ blank_day "2024-02-01" ∷ recorded_days
        ++ blank_day "2024-02-03"
          ∷ blank_day "2024-02-04"
          ∷ blank_day "2024-02-05"
          ∷ blank_day "2024-02-06"
          ∷ [])
unfolding fill_days merge_days text_lt
filled_dates = refl

fill_days_lem_example :
    (shown : List (Day ℕ)) × (fill_days winter (some recorded_days) "last_7_days" 869 ≡ some shown)
    × IsShownFor winter midnight "last_7_days" 36 recorded_days shown
unfolding merge_days
fill_days_lem_example =
    fill_days_lem winter midnight 58 winter-IsDates "last_7_days" 869 36 recorded_days refl
      (omega arith) (omega arith) (tt, tt)

abbrev user : String → Usage ℕ
user login = record { login = login; plan = none; reset_date = none; quotas = none }

abbrev endpoint_of : String → Endpoint
endpoint_of name = record { name = name; url = name; source = "yaml"; api_key = "" }

abbrev two_accounts : List (Resolved ℕ)
two_accounts =
    record { endpoint = endpoint_of "one"; usage = user "ada" }
    ∷ record { endpoint = endpoint_of "two"; usage = user "bob" }
    ∷ []

abbrev load : String → String → String → String → Loaded ℕ
load name url login period = if str_eq login "ada" then snapshot two_days else no_snapshot

abbrev same : String → String
same s = s

abbrev no_alias : String → String
no_alias s = ""

abbrev dashboard : Progress ℕ ℕ
dashboard =
    persisted_dashboard nanos same no_alias str_eq load winter 869 two_accounts [] "last_7_days" ""

persisted_dashboard-Agree_example : Agree tokens dashboard.response.totals dashboard.response.days
persisted_dashboard-Agree_example =
    persisted_dashboard-Agree ℕ tokens nanos same no_alias str_eq load winter 869 two_accounts []
      "last_7_days" ""

persisted_dashboard-IsReport_example :
    IsReport same no_alias str_eq load two_accounts [] "last_7_days" "" dashboard
persisted_dashboard-IsReport_example =
    persisted_dashboard-IsReport same no_alias str_eq load nanos winter 869 two_accounts []
      "last_7_days" ""

days_perm_example :
    (summarize_days nanos two_days ≡ summarize_days nanos other_order)
    × (merge_days nanos [] two_days ≡ merge_days nanos [] other_order)
days_perm_example = days_perm nanos two_days other_order (swap refl refl)

persisted_dashboard-IsShown_example :
    IsShown winter midnight "last_7_days" 36
      (loaded_days str_eq load "last_7_days" "" two_accounts)
      dashboard.response.days
persisted_dashboard-IsShown_example =
    persisted_dashboard-IsShown nanos same no_alias str_eq load winter midnight 58 869 36
      two_accounts [] "last_7_days" "" winter-IsDates refl (omega arith) (omega arith)

abbrev three_endpoints : List Endpoint
three_endpoints = endpoint_of "two" ∷ endpoint_of "one" ∷ endpoint_of "two" ∷ []

abbrev fetch : Endpoint → Fetched ℕ
fetch e = if str_eq e.name "one" then fetched (user "ada") else no_usage "timeout"

resolve_lem_example :
    let es = deduplicate three_endpoints in
    let r = resolve same fetch three_endpoints [] in
    Ascending (λ a. same a.usage.login) r.0
    × ((k : String)
        → find (λ a. same a.usage.login) k r.0
          ≡ find (λ a. same a.usage.login) k (answers same fetch es))
    × (r.1 ≡ [] ++ usage_errors same fetch es)
resolve_lem_example = resolve_lem same fetch three_endpoints []

abbrev before_stop : List TaskEvent
before_stop = begins ∷ begins ∷ finishes ∷ begins ∷ []

abbrev after_stop : List TaskEvent
after_stop = finishes ∷ begins ∷ waits ∷ finishes ∷ []

task_events_lem_example :
    let r = task_events (before_stop ++ waits ∷ after_stop) no_tasks in
    (r.service.tasks ≡ r.running) × (r.service.done ≡ due r)
task_events_lem_example = task_events_lem (before_stop ++ waits ∷ after_stop)

wait_for_sync_lem_example :
    (task_events (before_stop ++ waits ∷ after_stop) no_tasks).service.done ≡ closed
unfolding task_events
wait_for_sync_lem_example = wait_for_sync_lem before_stop after_stop (omega arith)
