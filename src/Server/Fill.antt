-- ===== src/Server/Fill.antt =====
-- internal/dashboard/aggregate.go: `fillDays`. A `time.Time` is a number, the greater the later.
pub mod Filled
pub mod Firsts
pub mod Spans
use copilot_api_dashboard.Base.{
  ℕ, zero, suc, ◌+◌, ◌-◌, ◌%◌, String, Bool, true, false, Option, none, some, List, [], ◌∷◌, ◌++◌,
  ◌&&◌, ◌||◌, any, map, str_eq, ltb, leb, if◌then◌else◌,
}
use copilot_api_dashboard.Server.{Totals, Day, zero_totals}
use copilot_api_dashboard.Server.Keyed.{sort}

-- What package `time` gives, in the location of `now`: the text "2006-01-02" of a time and the time that is read
-- from one, the weekday (Sunday is 0), year, month and day of a time, `time.Date` of a year, month and day at
-- midnight, and `AddDate` of so many days, or so many days back. Nothing is said here of how these agree.
pub record Dates : Type 0 where
  pub format : ℕ → String
  pub parse : String → Option ℕ
  pub weekday : ℕ → ℕ
  pub year : ℕ → ℕ
  pub month : ℕ → ℕ
  pub day : ℕ → ℕ
  pub date : ℕ → ℕ → ℕ → ℕ
  pub add_days : ℕ → ℕ → ℕ
  pub back_days : ℕ → ℕ → ℕ

-- `maxFilledLifetimeDays`
abbrev pub max_filled_lifetime_days : ℕ
max_filled_lifetime_days = 366

abbrev pub unless_long : Dates → ℕ → Option ℕ → Option ℕ
unless_long t today none = none
unless_long t today (some start) =
    if ltb (t.add_days start (max_filled_lifetime_days - 1)) today then none else some start

-- Each round makes `date` later, so that there is at most one for each time from `start` to `today`, and one
-- for the test that ends the loop.
abbrev pub fill_fuel : ℕ → ℕ → ℕ
fill_fuel start today = suc (suc today - start)

-- `Day{Date: key, Totals: upstream.Totals{Costs: []upstream.Cost{}}, Models: []upstream.Model{}}`
abbrev pub blank_day {ℓ} : {F : Type ℓ} → String → Day F
blank_day key = record { date = key; recorded = false; totals = zero_totals (some []); models = [] }

abbrev pub is_known {ℓ} : {F : Type ℓ} → List (Day F) → String → Bool
is_known days key = any (str_eq key) (map (λ d. d.date) days)

abbrev pub or_days {ℓ} : {F : Type ℓ} → List (Day F) → Option (List (Day F)) → List (Day F)
or_days days none = days
or_days days (some filled) = sort (λ d. d.date) filled

abbrev pub is_left {ℓ} : {F : Type ℓ} → String → List (Day F) → Bool
is_left period [] = str_eq period "today" || str_eq period "lifetime"
is_left period (d ∷ ds) = str_eq period "today"

-- Midnight of the day of `now`.
abbrev pub today_of : Dates → ℕ → ℕ
today_of t now = t.date (t.year now) (t.month now) (t.day now)

module _ {ℓ} {F : Type ℓ} (t : Dates) where
  open t use {format, parse, weekday, year, month, date, add_days, back_days}

  -- The first of the days and of `start`; `none` if a date cannot be read.
  unfoldable pub earliest : ℕ → List (Day F) → Option ℕ
  earliest start [] = some start
  earliest start (d ∷ ds) = elim (parse d.date) [
    | none ↦ none
    | some read ↦ earliest (if ltb read start then read else start) ds
  ]

  -- The day from which the days are filled; `none` where they are returned as they are.
  unfoldable pub start_of : String → ℕ → List (Day F) → Option ℕ
  unfolding earliest
  start_of period today days =
      if str_eq period "this_week"
      then some (back_days today ((weekday today + 6) % 7))
      else if str_eq period "last_7_days"
      then some (back_days today 6)
      else if str_eq period "this_month"
      then some (date (year today) (month today) 1)
      else if str_eq period "last_30_days"
      then some (back_days today 29)
      else if str_eq period "lifetime"
      then unless_long t today (earliest (back_days today 6) days)
      else none

  -- `for date := start; !date.After(today); date = date.AddDate(0, 0, 1)`; `none` when the fuel runs out.
  unfoldable pub fill_from : ℕ → ℕ → ℕ → (String → Bool) → List (Day F) → Option (List (Day F))
  fill_from zero at today known days = none
  fill_from (suc fuel) at today known days =
      let rest =
        fill_from fuel (add_days at 1) today known
          (if known (format at) then days else days ++ blank_day (format at) ∷ []) in
      if leb at today then rest else some days

  unfoldable pub fill_days : Option (List (Day F)) → String → ℕ → Option (List (Day F))
  unfolding start_of fill_from sort
  fill_days none period now = none
  fill_days (some days) period now =
      let today = today_of t now in
      if is_left period days then some days else elim (start_of period today days) [
        | none ↦ some days
        | some start ↦
            some (or_days days (fill_from (fill_fuel start today) start today (is_known days) days))
      ]
