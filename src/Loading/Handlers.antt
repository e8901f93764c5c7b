-- ===== src/Loading/Handlers.antt =====
-- web/app.js: the listeners that load data (`submit`, `change`, `popstate`, `click`), `selectFilters`,
-- `readLocation`, and the start of the page.
use Prim.Native.Nat.{pred}
use mathlib.Core.List.{foldl}
use copilot_api_dashboard.Base.{
  ℕ, suc, String, Bool, true, false, none, List, [], ◌∷◌, ◌&&◌, ltb, any, if◌then◌else◌, str_eq,
}
use copilot_api_dashboard.Filters.{Query, periods, default_period, filter_query, location_filters}
use copilot_api_dashboard.Accounts.{select_value, same_login, add_option}
use copilot_api_dashboard.Loading.{App, refresh, load_events}
use copilot_api_dashboard.Loading.Tasks.{Arrival, settle, resume}

-- What the event loop may do next. `settles` and `resumes` name a task by its controller.
pub data Event {ℓ} (W : Type ℓ) : Type ℓ where
  submit : Event W
  change_account : String → Event W
  change_period : String → Event W
  popstate : Query → Event W
  previous next : Event W
  settles : ℕ → Arrival W → Event W
  resumes : ℕ → Event W

module _ {ℓ} {W : Type ℓ} where
  -- The effect of `state.account = …; state.period = …` with both selectors following.
  unfoldable pub set_filters : String → String → App W → App W
  set_filters account period app =
      let options = add_option account app.options in
      record app {
        account = account;
        period = period;
        options = options;
        account_value = select_value options account;
        period_value = select_value periods period;
      }

  unfoldable pub select_filters : String → String → App W → App W
  unfolding set_filters
  select_filters account period app =
      refresh false
        (record (set_filters account period app) { search = filter_query account period })

  -- The state and the result of `readLocation`.
  unfoldable pub read_location : App W → App W × Bool
  unfolding set_filters
  read_location app =
      let filters = location_filters app.search in
      (set_filters filters.account filters.period app, filters.valid_period)

  unfoldable pub popstate_listener : (String → String) → App W → App W
  unfolding read_location
  popstate_listener lower app =
      let filters = location_filters app.search in
      if same_login lower filters.account app.account && str_eq filters.period app.period
      then app
      else refresh false (read_location app).0

  -- A disabled button gets no click.
  unfoldable pub click_previous : App W → App W
  click_previous app =
      if app.previous_disabled
      then app
      else if ltb 1 app.page
      then load_events (record app { page = pred app.page })
      else app

  unfoldable pub click_next : App W → App W
  click_next app =
      if app.next_disabled
      then app
      else if ltb app.page app.total_pages
      then load_events (record app { page = suc app.page })
      else app

  -- A selector offers its options only.
  unfoldable pub handle : (String → String) → App W → Event W → App W
  unfolding select_filters popstate_listener click_previous click_next
  handle lower app submit = if app.syncing then app else refresh true app
  handle lower app (change_account login) =
      if any (str_eq login) app.options then select_filters login app.period app else app
  handle lower app (change_period period) =
      if any (str_eq period) periods then select_filters app.account period app else app
  handle lower app (popstate q) = popstate_listener lower (record app { search = q })
  handle lower app previous = click_previous app
  handle lower app next = click_next app
  handle lower app (settles c arrival) = settle c arrival app
  handle lower app (resumes c) = resume lower c app

  -- The page before the script's last two statements, at an address with this query.
  abbrev pub initial : Query → App W
  initial q = record {
    account = "";
    period = default_period;
    page = 1;
    total_pages = 1;
    dashboard_errors = [];
    event_errors = [];
    dashboard_controller = none;
    events_controller = none;
    refresh_id = 0;
    shown_events = none;
    search = q;
    aborted = λ _. false;
    tasks = λ _. none;
    next_controller = 0;
    unhandled = false;
    content_busy = true;
    events_busy = false;
    syncing = false;
    previous_disabled = true;
    next_disabled = true;
    account_hidden = true;
    events_hidden = true;
    options = "" ∷ [];
    account_value = "";
    period_value = default_period;
    announcement = "";
    shown_dashboard = none;
    table_views = [];
    shown_page = none;
    events_message = "";
    shown_errors = [];
  }

  -- The script's end: `if (!readLocation()) history.replaceState(…); void refresh();`
  unfoldable pub start : Query → App W
  unfolding read_location
  start q =
      let (app, valid) = read_location (initial q) in
      refresh false
        (if valid then app else record app { search = filter_query app.account app.period })

  -- A history of the page.
  abbrev pub run : (String → String) → App W → List (Event W) → App W
  run lower = foldl (handle lower)
