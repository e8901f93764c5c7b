-- ===== src/Sorting/Redraw.antt =====
-- web/app.js: the tables in the document (`tableViews`, `sorts`, `redrawTable`), with the clicks on their
-- headers, the key that switches the names, and what the reader scrolls and focuses in between.
pub mod Shown
pub mod Steps
use copilot_api_dashboard.Base.{
  ℕ, Bool, true, false, Option, none, some, List, [], ◌∷◌, ◌&&◌, not, ◌≡◌, ◌≤◌, refl, arith, ltb,
  if◌then◌else◌,
}
use copilot_api_dashboard.Sorting.{
  Direction, ascending, descending, Sort, click_header, without_cost,
}
use copilot_api_dashboard.Sorting.Headers.{is_disabled}

-- The keys of `sorts` and of `tableViews`.
pub data TableId : Type 0 where
  accounts models days : TableId

-- `headers.length - 1`
abbrev pub last_column : TableId → ℕ
last_column accounts = 8
last_column models = 8
last_column days = 3

abbrev pub initial_sort : TableId → Sort
initial_sort accounts = record { column = 3; direction = descending }
initial_sort models = record { column = 6; direction = descending }
initial_sort days = record { column = 0; direction = ascending }

abbrev pub same_id : TableId → TableId → Bool
same_id accounts accounts = true
same_id models models = true
same_id days days = true
same_id i j = false

abbrev pub put {ℓ} : {A : Type ℓ} → TableId → A → (TableId → A) → TableId → A
put i a f j = if same_id i j then a else f j

-- An element `[data-table]`: its markup and its `scrollLeft`.
pub record Element {κ} (M : Type 0) (W : Type κ) : Type κ where
  pub markup : M
  pub scroll_left : W

-- What `tableViews` holds for a table: the function of what it reads of the state, that is
-- `state.showAccountNames` and the table's sort, with the `disabledCost` that it has closed over.
pub record View (M : Type 0) : Type 0 where
  pub write : Bool → Sort → M
  pub disabled_cost : Bool

-- `focus` is the table that has the focus, and the column of the button that has it, if it is a button.
pub record Tables {κ} (M : Type 0) (W : Type κ) : Type κ where
  pub sorts : TableId → Sort
  pub views : TableId → Option (View M)
  pub elements : TableId → Option (Element M W)
  pub focus : Option (TableId × Option ℕ)
  pub has_aliases : Bool
  pub show_names : Bool

pub data TableEvent {κ} (M : Type 0) (W : Type κ) : Type κ where
  -- one render function writes `sortableTable(...)`, or a text without a table, into the element around it
  draw : TableId → Option (View M) → Bool → TableEvent M W
  -- `tableViews.clear()` and `renderDashboard`, for the days, the models and the accounts
  render : Option (View M) → Option (View M) → Option (View M) → Bool → TableEvent M W
  -- the reader's: a click on a column's button, the key D outside of a field with no modifier while the section
  -- of the accounts is shown, scrolling, and moving the focus
  click : TableId → ℕ → TableEvent M W
  toggle : TableEvent M W
  scroll : TableId → W → TableEvent M W
  move_focus : Option (TableId × Option ℕ) → TableEvent M W

abbrev pub focus_in : TableId → Option (TableId × Option ℕ) → Bool
focus_in i none = false
focus_in i (some (j, column)) = same_id i j

-- An element that is replaced takes the focus with it.
abbrev pub blur : TableId → Option (TableId × Option ℕ) → Option (TableId × Option ℕ)
blur i focus = if focus_in i focus then none else focus

abbrev pub is_accounts : TableId → Bool
is_accounts accounts = true
is_accounts i = false

-- Only the view of the accounts reads `state.showAccountNames`.
abbrev pub names_in : TableId → Bool → Bool
names_in i show_names = is_accounts i && show_names

module _ {κ} {M : Type 0} {W : Type κ} where
  abbrev pub is_there : TableId → Tables M W → Bool
  is_there i t = elim (t.elements i) [ none ↦ false | some e ↦ true ]

  -- A column's button that is there and enabled.
  abbrev pub has_button : TableId → ℕ → Tables M W → Bool
  has_button i column t = elim (t.views i) [
    | none ↦ false
    | some view ↦
        is_there i t
        && not (ltb (last_column i) column)
        && not (is_disabled view.disabled_cost (last_column i) column)
  ]

  abbrev pub no_tables : Tables M W
  no_tables = record {
    sorts = initial_sort;
    views = λ i. none;
    elements = λ i. none;
    focus = none;
    has_aliases = false;
    show_names = false;
  }

module _ {κ} {M : Type 0} {W : Type κ} (origin : W) where
  -- `container.outerHTML = ...` and `innerHTML = ...`: the new element is not scrolled.
  abbrev pub replace : TableId → Option M → Tables M W → Tables M W
  replace i markup t = record t {
    elements =
        put i
          (elim markup [
            | none ↦ none
            | some m ↦ some (record { markup = m; scroll_left = origin })
          ])
          t.elements;
    focus = blur i t.focus;
  }

  -- The positions that are read before the element is replaced, given to the new one.
  abbrev pub restore : TableId → W → Option (TableId × Option ℕ) → Tables M W → Tables M W
  restore i scroll_left focus t = record t {
    elements =
        put i
          (elim (t.elements i) [
            | none ↦ none
            | some e ↦ some (record e { scroll_left = scroll_left })
          ])
          t.elements;
    focus = if focus_in i focus then focus else t.focus;
  }

  -- `none` where the script throws: there is no such element, or no such view.
  unfoldable pub redraw_table : TableId → Tables M W → Option (Tables M W)
  redraw_table i t = elim (t.elements i) [
    | none ↦ none
    | some container ↦ elim (t.views i) [
      | none ↦ none
      | some view ↦ some (
          restore i container.scroll_left t.focus
            (replace i (some (view.write (names_in i t.show_names) (t.sorts i))) t))
    ]
  ]

  -- `sortableTable`, whose result is written into the element around the table
  unfoldable pub draw_table : TableId → View M → Tables M W → Tables M W
  unfolding without_cost
  draw_table i view t =
      let sort = without_cost view.disabled_cost (last_column i) (t.sorts i) in
      replace i (some (view.write (names_in i t.show_names) sort))
        (record t { sorts = put i sort t.sorts; views = put i (some view) t.views })

  -- A render function; `renderAccounts` of no accounts finds no display name.
  unfoldable pub write_table : TableId → Option (View M) → Bool → Tables M W → Tables M W
  unfolding draw_table
  write_table i none aliases t =
      replace i none (record t { has_aliases = if is_accounts i then false else t.has_aliases })
  write_table i (some view) aliases t =
      draw_table i view
        (record t { has_aliases = if is_accounts i then aliases else t.has_aliases })

  unfoldable pub render_tables :
      Option (View M) → Option (View M) → Option (View M) → Bool → Tables M W → Tables M W
  unfolding write_table
  render_tables in_days in_models in_accounts aliases t = write_table accounts in_accounts aliases (
      write_table models in_models aliases
        (write_table days in_days aliases (record t { views = λ i. none })))

  unfoldable pub table_step : Tables M W → TableEvent M W → Option (Tables M W)
  unfolding render_tables write_table redraw_table click_header
  table_step t (draw i view aliases) = some (write_table i view aliases t)
  table_step t (render in_days in_models in_accounts aliases) =
      some (render_tables in_days in_models in_accounts aliases t)
  table_step t (click i column) =
      let sorted = record t { sorts = put i (click_header column (t.sorts i)) t.sorts } in
      if has_button i column t then redraw_table i sorted else some t
  table_step t toggle =
      if t.has_aliases && elim (t.views accounts) [ none ↦ false | some v ↦ true ]
      then redraw_table accounts (record t { show_names = not t.show_names })
      else some t
  table_step t (scroll i x) = some (record t {
    elements =
        put i (elim (t.elements i) [ none ↦ none | some e ↦ some (record e { scroll_left = x }) ])
          t.elements;
  })
  table_step t (move_focus focus) = some (
      if elim focus [ none ↦ true | some f ↦ is_there f.0 t ]
      then record t { focus = focus }
      else t)

  -- The events one after another; `none` once the script has thrown.
  unfoldable pub table_run : List (TableEvent M W) → Tables M W → Option (Tables M W)
  unfolding table_step
  table_run [] t = some t
  table_run (event ∷ events) t = elim (table_step t event) [
    | none ↦ none
    | some u ↦ table_run events u
  ]
