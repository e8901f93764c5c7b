-- ===== src/Sorting/Headers.antt =====
-- web/app.js: the headers of a sorted table (`headerCell`), as the table is drawn again and its buttons are
-- clicked. The column of the costs is the last one.
use mathlib.Core.List.{foldl}
use copilot_api_dashboard.Base.{
  ℕ, Bool, false, Option, none, some, List, [], ◌∷◌, ◌&&◌, ◌||◌, not, ◌≡◌, ◌≤◌, ◌<◌, ◌==◌, ltb,
  if◌then◌else◌, arith, if_elim,
}
use copilot_api_dashboard.Sorting.{Direction, Sort, click_header, without_cost}

-- `label === "Cost" && disabledCost`
abbrev pub is_disabled : Bool → ℕ → ℕ → Bool
is_disabled disabled_cost last_column column = disabled_cost && (column == last_column)

-- The direction that `aria-sort` names, `none` where it says "none".
unfoldable pub aria_sort : Bool → ℕ → Sort → ℕ → Option Direction
aria_sort disabled_cost last_column sort index =
    if not (is_disabled disabled_cost last_column index) && (sort.column == index)
    then some sort.direction
    else none

-- A table on the page: its entry of `sorts`, and the `disabledCost` that it was drawn with.
pub record Headers : Type 0 where
  pub sort : Sort
  pub disabled_cost : Bool

-- `sortableTable` draws the table, for items with one currency or not; a click reaches a button that is
-- there and enabled.
pub data HeaderEvent : Type 0 where
  draw : Bool → HeaderEvent
  click : ℕ → HeaderEvent

abbrev pub drawn : ℕ → Bool → Sort → Headers
drawn last_column disabled sort = record {
  sort = without_cost disabled last_column sort;
  disabled_cost = disabled;
}

unfoldable pub header_step : ℕ → Headers → HeaderEvent → Headers
header_step last_column t (draw disabled) = drawn last_column disabled t.sort
header_step last_column t (click column) =
    if ltb last_column column || is_disabled t.disabled_cost last_column column
    then t
    else record t { sort = click_header column t.sort }

-- The table is sorted by a column that it has, and whose header is enabled.
abbrev pub IsEnabled : ℕ → Headers → Type 0
IsEnabled last_column t =
    (t.sort.column ≤ last_column) × (is_disabled t.disabled_cost last_column t.sort.column ≡ false)

drawn-IsEnabled :
    (last_column : ℕ) (disabled : Bool) (sort : Sort)
    → 0 < last_column
    → sort.column ≤ last_column
    → IsEnabled last_column (drawn last_column disabled sort)
unfolding without_cost
drawn-IsEnabled last_column disabled sort h le = (ground arith, ground arith)

header_step-IsEnabled :
    (last_column : ℕ) (t : Headers) (event : HeaderEvent)
    → 0 < last_column
    → IsEnabled last_column t
    → IsEnabled last_column (header_step last_column t event)
unfolding header_step click_header
header_step-IsEnabled last_column t (draw disabled) h e =
    drawn-IsEnabled last_column disabled t.sort h e.0
header_step-IsEnabled last_column t (click column) h e =
    if_elim (IsEnabled last_column)
      (ltb last_column column || is_disabled t.disabled_cost last_column column) (λ g. e)
      (λ g. (ground arith, ground arith))

steps-IsEnabled :
    (last_column : ℕ) (events : List HeaderEvent) (t : Headers)
    → 0 < last_column
    → IsEnabled last_column t
    → IsEnabled last_column (foldl (header_step last_column) t events)
steps-IsEnabled last_column [] t h e = e
steps-IsEnabled last_column (event ∷ events) t h e =
    steps-IsEnabled last_column events (header_step last_column t event) h
      (header_step-IsEnabled last_column t event h e)

aria_sort-IsEnabled :
    (last_column : ℕ) (t : Headers) (index : ℕ)
    → IsEnabled last_column t
    → aria_sort t.disabled_cost last_column t.sort index
      ≡ (if t.sort.column == index then some t.sort.direction else none)
unfolding aria_sort
aria_sort-IsEnabled last_column t index e = ground arith

-- In a table of at least two columns that is first drawn sorted by one of them, after every sequence of
-- drawings and clicks: the column that it is sorted by is one of its columns and is enabled, its header
-- names the direction of the sorting, and no other header names one.
pub headers_lem :
    (last_column : ℕ) (disabled : Bool) (sort : Sort) (events : List HeaderEvent)
    → 0 < last_column
    → sort.column ≤ last_column
    → let t = foldl (header_step last_column) (drawn last_column disabled sort) events in
      IsEnabled last_column t
      × ((index : ℕ)
          → aria_sort t.disabled_cost last_column t.sort index
            ≡ (if t.sort.column == index then some t.sort.direction else none))
headers_lem last_column disabled sort events h le =
    let enabled =
      steps-IsEnabled last_column events (drawn last_column disabled sort) h
        (drawn-IsEnabled last_column disabled sort h le) in
    (enabled, λ index. aria_sort-IsEnabled last_column _ index enabled)
