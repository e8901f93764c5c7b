-- ===== src/Loading/Document/Serving.antt =====
-- web/app.js: the listeners, and the answers of the server. Each page of events in the document is traced to
-- the query that it answers.
use copilot_api_dashboard.Base.{
  ℕ, suc, ap, String, Bool, true, false, List, [], ◌∷◌, some, ◌&&◌, ◌≡◌, refl, ◌∙◌, inl, inr,
  Option-cases, if_elim, str_eq, any, ltb, subst,
}
use Prim.Native.Nat.{pred}
use copilot_api_dashboard.Model.{EventPage}
use copilot_api_dashboard.Request.{Settled, returned, Envelope, request}
use copilot_api_dashboard.Filters.{Query, periods, filter_query, location_filters}
use copilot_api_dashboard.Accounts.{same_login}
use copilot_api_dashboard.Loading.{
  Stage, sync_sent, sync_replied, dashboard_sent, dashboard_replied, events_sent, events_replied,
  Task, App, refresh,
}
use copilot_api_dashboard.Loading.Tasks.{
  Arrival, sync_arrival, dashboard_arrival, events_arrival, advance, settle, settle_task,
}
use copilot_api_dashboard.Loading.Handlers.{
  Event, submit, change_account, change_period, popstate, previous, next, settles, resumes,
  set_filters, select_filters, read_location, popstate_listener, click_previous, click_next, handle,
  initial, start, run,
}
use copilot_api_dashboard.Loading.Invariant.{Inv}
use copilot_api_dashboard.Loading.Preserve.Handling.{handle-Inv}
use copilot_api_dashboard.Loading.Document.Traces.{
  IsHonest, AllHonest, Traced, update-Replied, refresh-Traced, load_events-Traced, resume-Traced,
}

module _ {ℓ} {W : Type ℓ} (Served : Query → EventPage W → Type ℓ) where
  -- A page that arrives is one that is served for the query of its task.
  advance-served :
      (aborted : Bool) (t : Task W) (stage : Stage W) (arrival : Arrival W)
      → ((e : Envelope (EventPage W)) (d : EventPage W)
          → stage ≡ events_replied (returned e)
          → e.payload ≡ some d
          → Served t.query d)
      → ((s : Settled (EventPage W)) (e : Envelope (EventPage W)) (d : EventPage W)
          → arrival ≡ events_arrival s
          → request t.target "events" aborted s ≡ returned e
          → e.payload ≡ some d
          → Served t.query d)
      → (e : Envelope (EventPage W)) (d : EventPage W)
      → advance aborted t.target stage arrival ≡ events_replied (returned e)
      → e.payload ≡ some d
      → Served t.query d
  unfolding advance
  advance-served aborted t events_sent (events_arrival s) old new e d k p = new s e d refl (cc) p
  advance-served aborted t events_sent (sync_arrival s) old new e d k p = cc
  advance-served aborted t events_sent (dashboard_arrival s) old new e d k p = cc
  advance-served aborted t (sync_sent q) (events_arrival s) old new e d k p = cc
  advance-served aborted t (sync_sent q) (sync_arrival s) old new e d k p = cc
  advance-served aborted t (sync_sent q) (dashboard_arrival s) old new e d k p = cc
  advance-served aborted t (dashboard_sent es) (events_arrival s) old new e d k p = cc
  advance-served aborted t (dashboard_sent es) (sync_arrival s) old new e d k p = cc
  advance-served aborted t (dashboard_sent es) (dashboard_arrival s) old new e d k p = cc
  advance-served aborted t (sync_replied o) arrival old new e d k p = cc
  advance-served aborted t (dashboard_replied es o) arrival old new e d k p = cc
  advance-served aborted t (events_replied o) arrival old new e d k p = old e d k p

  settle-Traced :
      (c : ℕ) (arrival : Arrival W) (app : App W)
      → IsHonest Served app (settles c arrival)
      → Traced Served app
      → Traced Served (settle c arrival app)
  unfolding settle settle_task
  settle-Traced c arrival app honest h = elim (Option-cases (app.tasks c)) [
    | inl e ↦ rw (e, settle) h
    | inr (t, e) ↦ rw (e, settle) (update-Replied Served app.tasks c _ h.0 (settled t e), h.1)
  ]
    where
      answer :
          (t : Task W)
          → app.tasks c ≡ some t
          → (a : Arrival W) → IsHonest Served app (settles c a)
          → (s : Settled (EventPage W)) (e : Envelope (EventPage W)) (d : EventPage W)
          → a ≡ events_arrival s
          → request t.target "events" (app.aborted c) s ≡ returned e
          → e.payload ≡ some d
          → Served t.query d
      answer t at (events_arrival r) honest s e d k q p = honest t e d at (cc) p
      answer t at (sync_arrival r) honest s e d k q p = cc
      answer t at (dashboard_arrival r) honest s e d k q p = cc

      settled :
          (t : Task W)
          → app.tasks c ≡ some t
          → (u : Task W) (e : Envelope (EventPage W)) (d : EventPage W)
          → some (record t { stage = advance (app.aborted c) t.target t.stage arrival }) ≡ some u
          → u.stage ≡ events_replied (returned e)
          → e.payload ≡ some d
          → Served u.query d
      settled t at u e d k s p =
          let same : record t { stage = advance (app.aborted c) t.target t.stage arrival } ≡ u =
            cc in
          subst (λ x. Served x d) (ap (λ x. x.query) same)
            (advance-served (app.aborted c) t t.stage arrival
              (λ g b at_stage q. h.0 c t g b at at_stage q) (answer t at arrival honest) e d
              (ap (λ x. x.stage) same ∙ s) p)

  module _ (lower : String → String) where
    handle-Traced :
        (app : App W) (event : Event W)
        → Inv app
        → IsHonest Served app event
        → Traced Served app
        → Traced Served (handle lower app event)
    unfolding handle select_filters set_filters read_location popstate_listener click_previous
        click_next
    handle-Traced app submit v o h =
        if_elim (Traced Served) app.syncing (λ e. h) (λ e. refresh-Traced Served true app h)
    handle-Traced app (change_account login) v o h =
        if_elim (Traced Served) (any (str_eq login) app.options)
          (λ e.
            refresh-Traced Served false
              (record (set_filters login app.period app) { search = filter_query login app.period })
              h)
          (λ e. h)
    handle-Traced app (change_period period) v o h =
        if_elim (Traced Served) (any (str_eq period) periods)
          (λ e.
            refresh-Traced Served false
              (record (set_filters app.account period app) {
                search = filter_query app.account period;
              })
              h)
          (λ e. h)
    handle-Traced app (popstate q) v o h =
        let f = location_filters q in
        if_elim (Traced Served)
          (same_login lower f.account app.account && str_eq f.period app.period) (λ e. h)
          (λ e. refresh-Traced Served false (read_location (record app { search = q })).0 h)
    handle-Traced app previous v o h =
        if_elim (Traced Served) app.previous_disabled (λ e. h)
          λ e.
            if_elim (Traced Served) (ltb 1 app.page)
              (λ f. load_events-Traced Served (record app { page = pred app.page }) h) (λ f. h)
    handle-Traced app next v o h =
        if_elim (Traced Served) app.next_disabled (λ e. h)
          λ e.
            if_elim (Traced Served) (ltb app.page app.total_pages)
              (λ f. load_events-Traced Served (record app { page = suc app.page }) h) (λ f. h)
    handle-Traced app (settles c arrival) v o h = settle-Traced c arrival app o h
    handle-Traced app (resumes c) v o h = resume-Traced Served lower c app v h

    pub run-Traced :
        (events : List (Event W)) (app : App W)
        → Inv app
        → AllHonest Served lower app events
        → Traced Served app
        → Traced Served (run lower app events)
    run-Traced [] app v o h = h
    run-Traced (event ∷ events) app v o h =
        run-Traced events (handle lower app event) (handle-Inv lower app event v) o.1
          (handle-Traced app event v o.0 h)

  pub start-Traced : (q : Query) → Traced Served (start q)
  unfolding start read_location set_filters
  start-Traced q =
      let f = location_filters q in
      if_elim {A = App W} (λ a. Traced Served (refresh false a)) f.valid_period
        {x = set_filters f.account f.period (initial q)}
        {y = record (set_filters f.account f.period (initial q)) {
          search = filter_query f.account f.period;
        }}
        (λ e. refresh-Traced Served false _ nothing) (λ e. refresh-Traced Served false _ nothing)
    where
      nothing : Traced Served (initial q)
      nothing = (λ c t e d at s p. cc, λ a b d k l. cc)
