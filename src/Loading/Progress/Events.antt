-- ===== src/Loading/Progress/Events.antt =====
-- A load of events that is not overtaken comes to its end, whatever the server does.
use copilot_api_dashboard.Base.{
  ℕ, String, Bool, true, false, List, Option, none, some, ◌≡◌, ◌≢◌, arith, refl, leb, if_elim,
}
use copilot_api_dashboard.Model.{SourceError, EventPage}
use copilot_api_dashboard.Request.{Settled, returned, Envelope, request}
use copilot_api_dashboard.Request.Answers.{request_live}
use copilot_api_dashboard.Loading.{
  Task, App, events_sent, events_replied, update, target_of, events_query, reset_events,
  render_events, render_errors, load_events,
}
use copilot_api_dashboard.Loading.Tasks.{
  events_arrival, advance, settle_task, is_stale, show_events, finish_events, continue_events,
  continue_task,
}
use copilot_api_dashboard.Errors.{unique_errors}
use copilot_api_dashboard.Loading.Invariant.{Inv}
use copilot_api_dashboard.Loading.Progress.{answer, answer_waiting}

-- Whether the buttons of the pages are disabled: the first and the last page have no page before and
-- behind them, and without a page both are.
abbrev pub at_first {ℓ} : {W : Type ℓ} → Option (EventPage W) → Bool
at_first none = true
at_first (some d) = leb d.page 1

abbrev pub at_last {ℓ} : {W : Type ℓ} → Option (EventPage W) → Bool
at_last none = true
at_last (some d) = leb d.total_pages d.page

module _ {ℓ} {W : Type ℓ} (lower : String → String) where
  -- The page shows a result of `loadEvents`, under the filters of `before`.
  pub record EventsLoaded (before : App W) (e : Envelope (EventPage W)) (app : App W) : Type ℓ where
    pub idle : app.events_busy ≡ false
    pub shown : app.shown_page ≡ e.payload
    pub owner : app.shown_page ≢ none → app.shown_events ≡ some (before.account, before.period)
    pub previous : app.previous_disabled ≡ at_first e.payload
    pub next : app.next_disabled ≡ at_last e.payload
    pub recorded : app.event_errors ≡ e.errors
    pub listed : app.shown_errors ≡ unique_errors before.dashboard_errors e.errors

  show_events-EventsLoaded :
      (c id : ℕ) (o : Option (EventPage W)) (es : List SourceError) (app : App W)
      → id ≡ app.refresh_id
      → app.aborted c ≡ false
      → EventsLoaded app
          (record { payload = o; errors = es })
          (finish_events c id (show_events (record { payload = o; errors = es }) app))
  unfolding render_events reset_events render_errors
  show_events-EventsLoaded c id none es app latest live = record {
    idle = ground arith;
    shown = ground arith;
    owner = ground arith;
    previous = ground arith;
    next = ground arith;
    recorded = ground arith;
    listed = ground arith;
  }
  show_events-EventsLoaded c id (some d) es app latest live = record {
    idle = ground arith;
    shown = ground arith;
    owner = ground arith;
    previous = ground arith;
    next = ground arith;
    recorded = ground arith;
    listed = ground arith;
  }

  continue_events-EventsLoaded :
      (c id : ℕ) (e : Envelope (EventPage W)) (app : App W)
      → id ≡ app.refresh_id
      → app.aborted c ≡ false
      → EventsLoaded app e (continue_events c id (returned e) app)
  unfolding continue_events
  continue_events-EventsLoaded c id e app latest live =
      if_elim {A = App W} (λ a. EventsLoaded app e (finish_events c id a)) (is_stale c id app)
        {x = app} {y = show_events e app} (λ h. absurd (ground arith))
        (λ h. show_events-EventsLoaded c id e.payload e.errors app latest live)

  -- An answer to the request of a live `loadEvents` ends it with the page of events shown.
  events_answered :
      (c : ℕ) (t : Task W) (s : Settled (EventPage W)) (app : App W)
      → app.tasks c ≡ some t
      → t.stage ≡ events_sent
      → app.aborted c ≡ false
      → t.id ≡ app.refresh_id
      → (e : Envelope (EventPage W)) × (request t.target "events" false s ≡ returned e)
        × EventsLoaded app e (answer lower c (events_arrival s) app)
  unfolding advance continue_task settle_task
  events_answered c t s app at st live latest =
      let (e, answered) = request_live t.target "events" s in
      let ts =
        update (update app.tasks c (some (record t { stage = events_replied (returned e) }))) c
          none in
      let loaded = continue_events-EventsLoaded c t.id e (record app { tasks = ts }) latest live in
      (
        e,
        answered,
        rw (answer_waiting lower c (events_arrival s) t app at, st, live, answered)
            (record {
              idle = loaded.idle;
              shown = loaded.shown;
              owner = loaded.owner;
              previous = loaded.previous;
              next = loaded.next;
              recorded = loaded.recorded;
              listed = loaded.listed;
            }),
      )

  -- The task that `loadEvents` starts.
  started : App W → Task W
  started app = record {
    id = app.refresh_id;
    target = target_of app;
    query = events_query app;
    stage = events_sent;
  }

  -- From every state that satisfies the invariant, `loadEvents` answered next in any way ends: the events
  -- are no longer busy, the page of events that `request` returned is shown, as that of the selected account
  -- and period, its errors are listed behind those of the dashboard, and the button of the previous page is
  -- disabled on the first page, that of the next page on the last page, both if no page came.
  pub load_events_completes :
      (app : App W) (s : Settled (EventPage W))
      → Inv app
      → (e : Envelope (EventPage W)) × (request (target_of app) "events" false s ≡ returned e)
        × EventsLoaded app e (answer lower app.next_controller (events_arrival s) (load_events app))
  unfolding load_events started
  load_events_completes app s v =
      let (_, new) = v.alloc.fresh app.next_controller (omega arith) in
      let below = v.alloc.events_below in
      let (e, answered, loaded) =
        events_answered app.next_controller (started app) s (load_events app) (ground arith) refl
          (ground arith) refl in
      (
        e,
        answered,
        record {
          idle = loaded.idle;
          shown = loaded.shown;
          owner = loaded.owner;
          previous = loaded.previous;
          next = loaded.next;
          recorded = loaded.recorded;
          listed = loaded.listed;
        },
      )
