-- ===== src/Loading/Tasks.antt =====
-- web/app.js: what `refresh` and `loadEvents` do when an awaited request has ended, with
-- `renderDashboard` and `renderEvents` as their effect on the state and the document.
use copilot_api_dashboard.Base.{
  ℕ, String, Bool, true, false, Option, none, some, List, [], ◌∷◌, ◌++◌, ◌&&◌, ◌||◌, not, ◌==◌,
  if◌then◌else◌, any, str_eq, decimal, ◌+++◌,
}
use copilot_api_dashboard.Model.{SourceError, Account, Dashboard, EventPage}
use copilot_api_dashboard.Request.{Settled, Outcome, returned, thrown, Envelope, request}
use copilot_api_dashboard.Filters.{Query, set, get, or_else}
use copilot_api_dashboard.Accounts.{select_value, same_login, canonical, account_options, has_login}
use copilot_api_dashboard.Loading.{
  Stage, sync_sent, sync_replied, dashboard_sent, dashboard_replied, events_sent, events_replied,
  Task, App, update, is_set, same_key, target_of, reset_events, render_events, render_errors,
  load_events,
}

-- The answers of the server, by the request that they settle.
pub data Arrival {ℓ} (W : Type ℓ) : Type ℓ where
  sync_arrival : Settled (Unit {0}) → Arrival W
  dashboard_arrival : Settled (Dashboard W) → Arrival W
  events_arrival : Settled (EventPage W) → Arrival W

-- `data?.accounts ?? []`
abbrev pub accounts_of {ℓ} : {W : Type ℓ} → Option (Dashboard W) → List (Account W)
accounts_of none = []
accounts_of (some d) = elim d.accounts [ none ↦ [] | some l ↦ l ]

module _ {ℓ} {W : Type ℓ} where
  -- `request` ends, and its outcome waits for the task's turn.
  unfoldable pub advance : Bool → String → Stage W → Arrival W → Stage W
  advance aborted target (sync_sent q) (sync_arrival s) =
      sync_replied (request target "sync" aborted s)
  advance aborted target (dashboard_sent es) (dashboard_arrival s) =
      dashboard_replied es (request target "dashboard" aborted s)
  advance aborted target events_sent (events_arrival s) =
      events_replied (request target "events" aborted s)
  advance aborted target stage arrival = stage

  unfoldable pub settle_task : ℕ → Arrival W → Task W → App W → App W
  unfolding advance
  settle_task c arrival t app = record app {
    tasks =
        update app.tasks c
          (some (record t { stage = advance (app.aborted c) t.target t.stage arrival }));
  }

  unfoldable pub settle : ℕ → Arrival W → App W → App W
  settle c arrival app = elim (app.tasks c) [ none ↦ app | some t ↦ settle_task c arrival t app ]

  -- `id !== refreshID || controller.signal.aborted`
  abbrev pub is_stale : ℕ → ℕ → App W → Bool
  is_stale c id app = not (id == app.refresh_id) || app.aborted c

  -- `if (!controller.signal.aborted) throw error;`
  abbrev pub rethrow : ℕ → App W → App W
  rethrow c app = if app.aborted c then app else record app { unhandled = true }

  -- the `finally` of `refresh`
  abbrev pub finish_refresh : ℕ → ℕ → App W → App W
  finish_refresh c id app =
      if id == app.refresh_id && not (app.aborted c)
      then record app { content_busy = false; syncing = false }
      else app

  -- the `finally` of `loadEvents`
  abbrev pub finish_events : ℕ → ℕ → App W → App W
  finish_events c id app =
      if id == app.refresh_id && not (app.aborted c)
      then record app { events_busy = false }
      else app

  abbrev pub events_announcement : Option (EventPage W) → String
  events_announcement none = "Events request failed."
  events_announcement (some d) = "Events page " +++ decimal d.page +++ " loaded."

  abbrev pub show_events : Envelope (EventPage W) → App W → App W
  show_events e app =
      record (render_errors (render_events e.payload (record app { event_errors = e.errors }))) {
        announcement = events_announcement e.payload;
      }

  unfoldable pub continue_events : ℕ → ℕ → Outcome (EventPage W) → App W → App W
  continue_events c id thrown app = finish_events c id (rethrow c app)
  continue_events c id (returned e) app =
      finish_events c id (if is_stale c id app then app else show_events e app)

  unfoldable pub continue_sync : ℕ → Task W → Outcome (Unit {0}) → App W → App W
  continue_sync c t thrown app = finish_refresh c t.id (rethrow c app)
  continue_sync c t (returned e) app =
      if is_stale c t.id app then finish_refresh c t.id app else record app {
        tasks =
            update app.tasks c
              (some (record t { target = target_of app; stage = dashboard_sent e.errors }));
      }

  -- `if (state.account && shownEvents !== ...) resetEvents("Loading events…");`
  unfoldable pub clear_events : App W → App W
  clear_events app =
      if is_set app.account && not (same_key app.shown_events app.account app.period)
      then reset_events "Loading events…" app
      else app

  -- What follows on the events of the account.
  unfoldable pub start_events : Bool → App W → App W
  unfolding clear_events
  start_events found app =
      let ready = record (clear_events app) { events_hidden = not (is_set app.account) } in
      if is_set ready.account && found then load_events ready else reset_events "—" ready

-- `if (urlAccount && urlAccount !== state.account && ...) url.searchParams.set("account", ...)`
unfoldable pub canonical_search : (String → String) → String → Query → Query
canonical_search lower account search =
    let url_account = or_else (get "account" search) "" in
    if is_set url_account
      && (not (str_eq url_account account) && same_login lower url_account account)
    then set "account" account search
    else search

abbrev pub dashboard_announcement : List SourceError → String
dashboard_announcement [] = "Usage loaded."
dashboard_announcement (e ∷ es) = "Usage loaded with data source errors listed below."

-- `tableViews.set(id, …)`, where a table is drawn
abbrev pub add_view : Bool → String → List String → List String
add_view drawn id views = if drawn && not (any (str_eq id) views) then views ++ id ∷ [] else views

-- `Array.isArray(items) && items.length`
abbrev pub has_items {ℓ} : {A : Type ℓ} → Option (List A) → Bool
has_items none = false
has_items (some []) = false
has_items (some (x ∷ xs)) = true

-- The tables that `renderTrend`, `renderModels` and `renderAccounts` draw.
abbrev pub drawn_views {ℓ} :
    {W : Type ℓ} → String → Option (Dashboard W) → List String → List String
drawn_views period none views = views
drawn_views period (some d) views = add_view (has_items d.accounts) "accounts" (
    add_view (has_items d.by_model) "models"
      (add_view (not (str_eq period "today") && has_items d.days) "days" views))

module _ {ℓ} {W : Type ℓ} (lower : String → String) where
  unfoldable pub render_dashboard : Option (Dashboard W) → App W → App W
  render_dashboard d app =
      let account = canonical lower app.account (accounts_of d) in
      let options = account_options lower app.account (accounts_of d) in
      record app {
        account = account;
        options = options;
        account_value = select_value options account;
        account_hidden = not (is_set account);
        shown_dashboard = d;
        table_views = drawn_views app.period d app.table_views;
      }

  -- The page up to the events table: errors, dashboard, address bar, announcement.
  unfoldable pub show_usage : List SourceError → Envelope (Dashboard W) → App W → App W
  unfolding render_dashboard
  show_usage sync_errors e app =
      let shown = render_dashboard e.payload (record app {
        dashboard_errors = sync_errors ++ e.errors;
        event_errors = [];
        table_views = [];
      }) in
      record (render_errors
        (record shown { search = canonical_search lower shown.account shown.search })) {
          announcement = dashboard_announcement (sync_errors ++ e.errors);
        }

  unfoldable pub show_dashboard : List SourceError → Envelope (Dashboard W) → App W → App W
  unfolding show_usage start_events
  show_dashboard sync_errors e app =
      let shown = show_usage sync_errors e app in
      start_events (has_login shown.account (accounts_of e.payload)) shown

  unfoldable pub continue_dashboard :
      ℕ → ℕ → List SourceError → Outcome (Dashboard W) → App W → App W
  continue_dashboard c id sync_errors thrown app = finish_refresh c id (rethrow c app)
  continue_dashboard c id sync_errors (returned e) app =
      finish_refresh c id (if is_stale c id app then app else show_dashboard sync_errors e app)

  -- A task whose outcome is there goes on, up to its next `await` or to its end.
  unfoldable pub continue_task : ℕ → Task W → Stage W → App W → App W
  unfolding continue_sync continue_dashboard continue_events
  continue_task c t (sync_replied o) app =
      continue_sync c t o (record app { tasks = update app.tasks c none })
  continue_task c t (dashboard_replied es o) app =
      continue_dashboard c t.id es o (record app { tasks = update app.tasks c none })
  continue_task c t (events_replied o) app =
      continue_events c t.id o (record app { tasks = update app.tasks c none })
  continue_task c t stage app = app

  unfoldable pub resume : ℕ → App W → App W
  unfolding continue_task
  resume c app = elim (app.tasks c) [ none ↦ app | some t ↦ continue_task c t t.stage app ]
