-- ===== src/Loading.antt =====
-- web/app.js: the page's state and the loading of its data (`refresh`, `loadEvents`, `renderDashboard`,
-- `renderEvents`, `resetEvents`, `renderErrors`, `setSyncing`). An `async` function that waits is a task,
-- kept under the identity of its `AbortController`; a task goes on when the event loop resumes it.
pub mod Tasks
pub mod Handlers
pub mod Invariant
pub mod Preserve
pub mod Progress
pub mod Document
use copilot_api_dashboard.Base.{
  ℕ, suc, String, Bool, true, false, Option, none, some, List, [], ◌∷◌, ◌++◌, ◌&&◌, ◌||◌, not, leb,
  ◌==◌, if◌then◌else◌, str_eq, decimal, ◌+++◌,
}
use copilot_api_dashboard.Model.{SourceError, Account, Dashboard, EventPage}
use copilot_api_dashboard.Request.{Outcome, Envelope}
use copilot_api_dashboard.Filters.{Query, set, get, or_else, default_period, filter_query}
use copilot_api_dashboard.Errors.{unique_errors}
use copilot_api_dashboard.Accounts.{select_value, same_login, canonical, account_options, has_login}

-- Where a task waits: for an answer of the server (`sent`), or, with the outcome of `request`, for its turn.
pub data Stage {ℓ} (W : Type ℓ) : Type ℓ where
  sync_sent : Query → Stage W
  sync_replied : Outcome (Unit {0}) → Stage W
  dashboard_sent : List SourceError → Stage W
  dashboard_replied : List SourceError → Outcome (Dashboard W) → Stage W
  events_sent : Stage W
  events_replied : Outcome (EventPage W) → Stage W

-- The local variables of a waiting `refresh` or `loadEvents`: `id`, `query`, and the `target` of `request`.
pub record Task {ℓ} (W : Type ℓ) : Type ℓ where
  pub id : ℕ
  pub target : String
  pub query : Query
  pub stage : Stage W

pub record App {ℓ} (W : Type ℓ) : Type ℓ where
  pub account : String
  pub period : String
  pub page : ℕ
  pub total_pages : ℕ
  pub dashboard_errors : List SourceError
  pub event_errors : List SourceError
  pub dashboard_controller : Option ℕ
  pub events_controller : Option ℕ
  pub refresh_id : ℕ
  -- the account and period whose events stand in the table; `none` is the empty string
  pub shown_events : Option (String × String)
  -- the browser: the query of the address bar, the aborted signals, the tasks, the next controller
  pub search : Query
  pub aborted : ℕ → Bool
  pub tasks : ℕ → Option (Task W)
  pub next_controller : ℕ
  pub unhandled : Bool
  -- the document
  pub content_busy : Bool
  pub events_busy : Bool
  pub syncing : Bool
  pub previous_disabled : Bool
  pub next_disabled : Bool
  pub account_hidden : Bool
  pub events_hidden : Bool
  pub options : List String
  pub account_value : String
  pub period_value : String
  pub announcement : String
  pub shown_dashboard : Option (Dashboard W)
  -- the keys of `tableViews`
  pub table_views : List String
  pub shown_page : Option (EventPage W)
  pub events_message : String
  pub shown_errors : List SourceError

-- A map with one entry changed.
abbrev pub update {ℓ} : {A : Type ℓ} → (ℕ → A) → ℕ → A → ℕ → A
update f k v j = if j == k then v else f j

-- JavaScript's test of a text
abbrev pub is_set : String → Bool
is_set s = not (str_eq s "")

abbrev pub same_key : Option (String × String) → String → String → Bool
same_key none account period = false
same_key (some (a, p)) account period = str_eq a account && str_eq p period

-- `controller?.abort()`
abbrev pub abort : Option ℕ → (ℕ → Bool) → ℕ → Bool
abort none aborted = aborted
abort (some c) aborted = update aborted c true

module _ {ℓ} {W : Type ℓ} where
  -- the `target` of a request that is sent now
  abbrev pub target_of : App W → String
  target_of app = if is_set app.account then app.account else "Dashboard"

  unfoldable pub reset_events : String → App W → App W
  reset_events message app = record app {
    shown_events = none;
    shown_page = none;
    events_message = message;
    events_busy = false;
    previous_disabled = true;
    next_disabled = true;
  }

  unfoldable pub render_events : Option (EventPage W) → App W → App W
  unfolding reset_events
  render_events none app = reset_events "—" app
  render_events (some d) app = record app {
    shown_events = some (app.account, app.period);
    page = d.page;
    total_pages = d.total_pages;
    previous_disabled = leb d.page 1;
    next_disabled = leb d.total_pages d.page;
    shown_page = some d;
  }

  unfoldable pub render_errors : App W → App W
  render_errors app = record app {
    shown_errors = unique_errors app.dashboard_errors app.event_errors;
  }

  abbrev pub events_query : App W → Query
  events_query app =
      ("account", app.account)
      ∷ ("period", app.period)
      ∷ ("page", decimal app.page)
      ∷ ("page_size", "20")
      ∷ []

  -- `loadEvents` up to its `await`
  unfoldable pub load_events : App W → App W
  load_events app = record app {
    aborted = abort app.events_controller app.aborted;
    events_controller = some app.next_controller;
    next_controller = suc app.next_controller;
    events_busy = true;
    tasks = update app.tasks app.next_controller (
        some (record {
          id = app.refresh_id;
          target = target_of app;
          query = events_query app;
          stage = events_sent;
        }));
  }

  abbrev pub dashboard_query : App W → Query
  dashboard_query app =
      ("period", app.period) ∷ (if is_set app.account then ("account", app.account) ∷ [] else [])

  abbrev pub sync_query : App W → Query
  sync_query app = if is_set app.account then ("account", app.account) ∷ [] else []

  -- `refresh` up to its first `await`
  unfoldable pub refresh : Bool → App W → App W
  refresh sync app = record app {
    aborted = abort app.events_controller (abort app.dashboard_controller app.aborted);
    dashboard_controller = some app.next_controller;
    next_controller = suc app.next_controller;
    refresh_id = suc app.refresh_id;
    page = 1;
    content_busy = true;
    events_busy = true;
    previous_disabled = true;
    next_disabled = true;
    syncing = sync;
    announcement = if sync then "Syncing usage…" else "Loading usage…";
    tasks = update app.tasks app.next_controller (
        some (record {
          id = suc app.refresh_id;
          target = target_of app;
          query = dashboard_query app;
          stage = if sync then sync_sent (sync_query app) else dashboard_sent [];
        }));
  }
