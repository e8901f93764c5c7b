-- ===== src/Tests/Tables.antt =====
-- Sorted tables, and the comparator, over thousandths and texts that are ordered by length.
use Prim.Native.Nat.{compare, Ordering}
use Prim.Native.String.{count}
use mathlib.Core.List.{Perm}
use copilot_api_dashboard.Base.{
  ℕ, not, Bool, String, true, false, ◌==◌, if◌then◌else◌, none, some, List, [], ◌∷◌, ◌≡◌, refl,
  arith,
}
use copilot_api_dashboard.Number.Milli.{Milli, Milli-IsNumber, milli_number}
use copilot_api_dashboard.Sorting.{
  Sign, negative, zero, positive, descending, flip, Key, absent, number, words, Collation, missing,
  ascending, Sort, compare_rows, sorted_rows,
}
use copilot_api_dashboard.Sorting.Comparator.{IsCollation}
use copilot_api_dashboard.Sorting.Rows.{
  Sorted, MissingLast, sorted_rows_lem, sorted_rows-MissingLast,
}
use copilot_api_dashboard.Sorting.Headers.{
  aria_sort, draw, click, drawn, header_step, HeaderEvent, IsEnabled, headers_lem,
}
use copilot_api_dashboard.Sorting.Redraw.{
  TableId, accounts, days, Tables, TableEvent, draw as draw_view, render, View,
  click as click_button, toggle, scroll, move_focus, no_tables, table_step, table_run,
}
use copilot_api_dashboard.Sorting.Redraw.Shown.{AllShown, SamePlaces}
use copilot_api_dashboard.Sorting.Redraw.Steps.{table_run_lem}
use mathlib.Core.List.{foldl}

abbrev pub sign_of : Ordering → Sign
sign_of Ordering.lt = negative
sign_of Ordering.eq = zero
sign_of Ordering.gt = positive

abbrev pub by_length : Collation Milli
by_length = record { collate = λ a b. sign_of (compare (count a) (count b)); mixed = λ a b. zero }

pub by_length-IsCollation : IsCollation by_length
unfolding flip
by_length-IsCollation = record { flips = λ a b. ground arith; trans = λ x y z h k. ground arith }

abbrev Row : Type 0
Row = String × Key Milli

abbrev getter : ℕ → Row → Key Milli
getter ℕ.zero (name, value) = words name
getter (ℕ.suc i) (name, value) = value

abbrev rows : List Row
rows =
    ("bob", absent)
    ∷ ("ann1", number (some 2000))
    ∷ ("al", number none)
    ∷ ("carol", number (some 5000))
    ∷ []

abbrev by_value : Sort
by_value = record { column = 1; direction = descending }

sorted_rows-rows :
    sorted_rows by_length getter by_value rows
    ≡ ("carol", number (some 5000))
      ∷ ("ann1", number (some 2000))
      ∷ ("al", number none)
      ∷ ("bob", absent)
      ∷ []
unfolding sorted_rows
sorted_rows-rows = refl

sorted_rows_lem_example :
    Perm (sorted_rows by_length getter by_value rows) rows
    × Sorted (compare_rows by_length getter by_value) (sorted_rows by_length getter by_value rows)
unfolding missing
sorted_rows_lem_example =
    sorted_rows_lem Milli-IsNumber by_length by_length-IsCollation getter false by_value rows
      ((tt, (tt, refl)), ((tt, (tt, refl)), ((tt, (tt, refl)), ((tt, (tt, refl)), tt))))

sorted_rows-MissingLast_example :
    MissingLast Milli-IsNumber by_length by_length-IsCollation getter by_value
      (sorted_rows by_length getter by_value rows)
unfolding missing
sorted_rows-MissingLast_example =
    sorted_rows-MissingLast Milli-IsNumber by_length by_length-IsCollation getter false by_value
      rows ((tt, (tt, refl)), ((tt, (tt, refl)), ((tt, (tt, refl)), ((tt, (tt, refl)), tt))))

abbrev pub by_cost : Sort
by_cost = record { column = 3; direction = ascending }

-- The costs have two currencies after the second click.
abbrev clicked : List HeaderEvent
clicked = click 3 ∷ click 3 ∷ draw true ∷ click 2 ∷ []

headers_lem_example :
    IsEnabled 3 (foldl (header_step 3) (drawn 3 false by_cost) clicked)
    × ((index : ℕ)
        → aria_sort
            (foldl (header_step 3) (drawn 3 false by_cost) clicked).disabled_cost
            3
            (foldl (header_step 3) (drawn 3 false by_cost) clicked).sort
            index
          ≡ (if (foldl (header_step 3) (drawn 3 false by_cost) clicked).sort.column == index
              then some (foldl (header_step 3) (drawn 3 false by_cost) clicked).sort.direction
              else none))
headers_lem_example = headers_lem 3 false by_cost clicked (omega arith) (omega arith)

abbrev sorted_view : View (Bool × Sort)
sorted_view = record { write = λ names sort. (names, sort); disabled_cost = false }

-- The accounts and the days are drawn; the first is scrolled and sorted by its first column, the display names
-- are chosen, and all is drawn again without the days.
abbrev table_events : List (TableEvent (Bool × Sort) ℕ)
table_events =
    draw_view accounts (some sorted_view) true
    ∷ draw_view days (some sorted_view) false
    ∷ scroll accounts 40
    ∷ move_focus (some (accounts, some 0))
    ∷ click_button accounts 0
    ∷ toggle
    ∷ render none (some sorted_view) (some sorted_view) true
    ∷ []

table_run_lem_example :
    (t : Tables (Bool × Sort) ℕ) × (table_run 0 table_events no_tables ≡ some t)
    × AllShown 0 t
    × ((i : TableId) (column : ℕ)
        → (u : Tables (Bool × Sort) ℕ) × (table_step 0 t (click_button i column) ≡ some u)
          × (AllShown 0 u × SamePlaces 0 t u × (u.show_names ≡ t.show_names)))
    × ((u : Tables (Bool × Sort) ℕ) × (table_step 0 t toggle ≡ some u)
        × (AllShown 0 u
            × SamePlaces 0 t u
            × (u.show_names ≡ (if t.has_aliases then not t.show_names else t.show_names))))
table_run_lem_example = table_run_lem 0 table_events
