-- ===== src/Loading/Progress.antt =====
-- A load that is not overtaken comes to its end, whatever the server does.
pub mod Events
use copilot_api_dashboard.Base.{
  ℕ, suc, String, Bool, true, false, List, [], ◌++◌, Option, none, some, ◌&&◌, not, ◌≡◌, ◌≢◌, ◌==◌,
  if◌then◌else◌, arith, refl, if_elim,
}
use copilot_api_dashboard.Model.{SourceError, Dashboard}
use copilot_api_dashboard.Request.{Settled, returned, Envelope, request}
use copilot_api_dashboard.Request.Answers.{request_live}
use copilot_api_dashboard.Loading.{
  sync_sent, sync_replied, dashboard_sent, dashboard_replied, Task, App, update, target_of,
  sync_query, dashboard_query, reset_events, render_errors, load_events, refresh,
}
use copilot_api_dashboard.Loading.Tasks.{
  Arrival, sync_arrival, dashboard_arrival, settle, settle_task, advance, is_stale, finish_refresh,
  start_events, show_usage, show_dashboard, continue_sync, continue_dashboard, continue_task,
  resume, accounts_of,
}
use copilot_api_dashboard.Filters.{Query}
use copilot_api_dashboard.Errors.{unique_errors}
use copilot_api_dashboard.Accounts.{has_login}
use copilot_api_dashboard.Loading.Invariant.{Inv, Alloc}

module _ {ℓ} {W : Type ℓ} (lower : String → String) where
  -- The server answers the request of a task, and the task goes on.
  abbrev pub answer : ℕ → Arrival W → App W → App W
  answer c arrival app = resume lower c (settle c arrival app)

  settle_waiting :
      (c : ℕ) (arrival : Arrival W) (t : Task W) (app : App W)
      → app.tasks c ≡ some t
      → settle c arrival app ≡ settle_task c arrival t app
  settle_waiting c arrival t app at = unfold settle in rw (at, settle)

  resume_waiting :
      (c : ℕ) (t : Task W) (app : App W)
      → app.tasks c ≡ some t
      → resume lower c app ≡ continue_task lower c t t.stage app
  resume_waiting c t app at = unfold resume in rw (at, resume)

  pub answer_waiting :
      (c : ℕ) (arrival : Arrival W) (t : Task W) (app : App W)
      → app.tasks c ≡ some t
      → answer c arrival app
        ≡ continue_task lower c
            (record t { stage = advance (app.aborted c) t.target t.stage arrival })
            (advance (app.aborted c) t.target t.stage arrival)
            (settle_task c arrival t app)
  unfolding settle_task
  answer_waiting c arrival t app at = rw (settle_waiting c arrival t app at) (
      resume_waiting c (record t { stage = advance (app.aborted c) t.target t.stage arrival })
        (settle_task c arrival t app) (ground arith))

  -- The events part of `refresh` leaves the signal of another controller alone.
  start_events_keeps :
      (c : ℕ) (found : Bool) (app : App W)
      → app.aborted c ≡ false
      → app.events_controller ≢ some c
      → ((start_events found app).refresh_id ≡ app.refresh_id)
        × ((start_events found app).aborted c ≡ false)
  unfolding start_events load_events reset_events
  start_events_keeps c found app live other = ground arith

  start_events_shows :
      (found : Bool) (app : App W)
      → ((start_events found app).shown_dashboard ≡ app.shown_dashboard)
        × ((start_events found app).dashboard_errors ≡ app.dashboard_errors)
        × ((start_events found app).shown_errors ≡ app.shown_errors)
  unfolding start_events load_events reset_events
  start_events_shows found app = ground arith

  -- The page shows a result of `refresh`: neither busy nor syncing, the data, and the errors of the
  -- synchronisation before those of the dashboard.
  pub record Loaded (sync_errors : List SourceError) (e : Envelope (Dashboard W)) (app : App W)
      : Type ℓ where
    pub idle : app.content_busy ≡ false
    pub enabled : app.syncing ≡ false
    pub shown : app.shown_dashboard ≡ e.payload
    pub recorded : app.dashboard_errors ≡ sync_errors ++ e.errors
    pub listed : app.shown_errors ≡ unique_errors (sync_errors ++ e.errors) []

  continue_dashboard-Loaded :
      (c id : ℕ) (es : List SourceError) (e : Envelope (Dashboard W)) (app : App W)
      → id ≡ app.refresh_id
      → app.aborted c ≡ false
      → app.events_controller ≢ some c
      → Loaded es e (continue_dashboard lower c id es (returned e) app)
  unfolding continue_dashboard show_dashboard render_errors
  continue_dashboard-Loaded c id es e app latest live other =
      let shown = show_usage lower es e app in
      let found = has_login shown.account (accounts_of e.payload) in
      let (same_id, alive) = start_events_keeps c found shown live other in
      let (dashboard, errors, list) = start_events_shows found shown in
      if_elim {A = App W} (λ a. Loaded es e (finish_refresh c id a)) (is_stale c id app) {x = app}
        {y = show_dashboard lower es e app} (λ h. absurd (ground arith))
        λ h.
          if_elim {A = App W} (Loaded es e)
            (id == (start_events found shown).refresh_id
              && not ((start_events found shown).aborted c))
            {x = record (start_events found shown) { content_busy = false; syncing = false }}
            {y = start_events found shown}
            (λ g. record {
              idle = refl;
              enabled = refl;
              shown = dashboard;
              recorded = errors;
              listed = list;
            })
            (λ g. absurd (ground arith))

  -- An answer to the dashboard request of a live `refresh` ends it with the page loaded.
  dashboard_answered :
      (c : ℕ) (t : Task W) (es : List SourceError) (s : Settled (Dashboard W)) (app : App W)
      → app.tasks c ≡ some t
      → t.stage ≡ dashboard_sent es
      → app.aborted c ≡ false
      → t.id ≡ app.refresh_id
      → app.events_controller ≢ some c
      → (e : Envelope (Dashboard W)) × (request t.target "dashboard" false s ≡ returned e)
        × Loaded es e (answer c (dashboard_arrival s) app)
  unfolding advance continue_task settle_task
  dashboard_answered c t es s app at st live latest other =
      let (e, answered) = request_live t.target "dashboard" s in
      (
        e,
        answered,
        rw (answer_waiting c (dashboard_arrival s) t app at, st, live, answered)
            (continue_dashboard-Loaded c t.id es e
              (record app {
                tasks =
                    update
                      (update app.tasks c
                        (some (record t { stage = dashboard_replied es (returned e) })))
                      c none;
              })
              latest live other),
      )

  -- The task of `refresh` when it asks for the dashboard after a synchronisation.
  abbrev resent : Task W → App W → List SourceError → Task W
  resent t app es = record t { target = target_of app; stage = dashboard_sent es }

  continue_sync_latest :
      (c : ℕ) (t : Task W) (e : Envelope (Unit {0})) (app : App W)
      → app.aborted c ≡ false
      → t.id ≡ app.refresh_id
      → continue_sync c t (returned e) app
        ≡ record app { tasks = update app.tasks c (some (resent t app e.errors)) }
  unfolding continue_sync
  continue_sync_latest c t e app live latest =
      let fresh : is_stale c t.id app ≡ false = ground arith in rw fresh

  -- An answer to the synchronisation of a live `refresh` makes it ask for the dashboard.
  sync_answered :
      (c : ℕ) (t : Task W) (q : Query) (s : Settled (Unit {0})) (app : App W)
      → app.tasks c ≡ some t
      → t.stage ≡ sync_sent q
      → app.aborted c ≡ false
      → t.id ≡ app.refresh_id
      → (e : Envelope (Unit {0})) × (ts : ℕ → Option (Task W)) × (request t.target "sync" false s
          ≡ returned e)
        × (ts c ≡ some (resent t app e.errors))
        × (answer c (sync_arrival s) app ≡ record app { tasks = ts })
  unfolding advance continue_task settle_task
  sync_answered c t q s app at st live latest =
      let (e, answered) = request_live t.target "sync" s in
      let t' : Task W = record t { stage = sync_replied (returned e) } in
      let ts : ℕ → Option (Task W) = update (update app.tasks c (some t')) c none in
      (
        e,
        update ts c (some (resent t app e.errors)),
        answered,
        ground arith,
        rw (answer_waiting c (sync_arrival s) t app at, st, live, answered)
            (continue_sync_latest c t' e (record app { tasks = ts }) live latest),
      )

  -- The task that `refresh` starts.
  started : Bool → App W → Task W
  started sync app = record {
    id = suc app.refresh_id;
    target = target_of app;
    query = dashboard_query app;
    stage = if sync then sync_sent (sync_query app) else dashboard_sent [];
  }

  started_lem :
      (sync : Bool) (app : App W)
      → Alloc app
      → ((refresh sync app).tasks app.next_controller ≡ some (started sync app))
        × ((refresh sync app).aborted app.next_controller ≡ false)
        × ((refresh sync app).events_controller ≢ some app.next_controller)
  unfolding refresh started
  started_lem sync app v =
      let (_, new) = v.fresh app.next_controller (omega arith) in
      (
        ground arith,
        ground (arith, v.dashboard_below, v.events_below),
        λ e. ground (arith, v.events_below),
      )

  -- From every state that satisfies the invariant, `refresh` without synchronisation, answered next in
  -- any way, ends: the page is no longer busy, and it shows the data and the errors that `request` returned.
  pub refresh_completes :
      (app : App W) (s : Settled (Dashboard W))
      → Inv app
      → (e : Envelope (Dashboard W)) × (request (target_of app) "dashboard" false s ≡ returned e)
        × Loaded [] e (answer app.next_controller (dashboard_arrival s) (refresh false app))
  unfolding refresh started
  refresh_completes app s v =
      let (at, live, other) = started_lem false app v.alloc in
      dashboard_answered app.next_controller (started false app) [] s (refresh false app) at refl
        live refl other

  -- From every state that satisfies the invariant, a synchronising `refresh` whose two requests are answered
  -- next, in any way, ends: the page is neither busy nor syncing, it shows the data that
  -- `request` returned, and the errors of the synchronisation before those of the dashboard.
  pub sync_completes :
      (app : App W) (s : Settled (Unit {0})) (d : Settled (Dashboard W))
      → Inv app
      → (e : Envelope (Unit {0})) × (f : Envelope (Dashboard W)) × (request
            (target_of app)
            "sync"
            false
            s
          ≡ returned e)
        × (request (target_of app) "dashboard" false d ≡ returned f)
        × Loaded e.errors f (
            answer app.next_controller
              (dashboard_arrival d)
              (answer app.next_controller (sync_arrival s) (refresh true app)))
  unfolding refresh started
  sync_completes app s d v =
      let (at, live, other) = started_lem true app v.alloc in
      let c = app.next_controller in
      let (e, ts, answered, waits, asked) =
        sync_answered c (started true app) (sync_query app) s (refresh true app) at refl live
          refl in
      let next = record (refresh true app) { tasks = ts } in
      let (f, answered', loaded) =
        dashboard_answered c (resent (started true app) next e.errors) e.errors d next waits refl
          live refl other in
      (e, f, answered, answered', rw asked loaded)
