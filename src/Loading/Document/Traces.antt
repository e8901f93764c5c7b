-- ===== src/Loading/Document/Traces.antt =====
-- web/app.js: `loadEvents` and `renderEvents`, with the answers of the server. Each page of events in the
-- document is traced to the query that it answers.
use copilot_api_dashboard.Base.{
  ℕ, String, Bool, true, false, List, [], ◌∷◌, Option, none, some, ◌&&◌, not, ◌≡◌, ◌==◌, arith,
  refl, ◌∙◌, inl, inr, Option-cases, Bool-cases, if_elim, decimal, subst, if◌then◌else◌,
}
use copilot_api_dashboard.Model.{SourceError, Dashboard, EventPage}
use copilot_api_dashboard.Request.{Outcome, returned, thrown, Envelope, request}
use copilot_api_dashboard.Filters.{Query}
use copilot_api_dashboard.Accounts.{has_login}
use copilot_api_dashboard.Loading.{
  Stage, sync_sent, sync_replied, dashboard_sent, dashboard_replied, events_sent, events_replied,
  Task, App, update, is_set, same_key, reset_events, render_events, render_errors, load_events,
  refresh, events_query,
}
use copilot_api_dashboard.Loading.Tasks.{
  events_arrival, is_stale, rethrow, finish_refresh, finish_events, show_events, clear_events,
  start_events, show_usage, show_dashboard, accounts_of, continue_sync, continue_dashboard,
  continue_events, continue_task, resume,
}
use copilot_api_dashboard.Loading.Handlers.{Event, settles, handle}
use copilot_api_dashboard.Loading.Invariant.{Inv, is_refresh}
use copilot_api_dashboard.Loading.Preserve.Quieting.{retire}

-- The query for a page of the events of an account.
abbrev pub page_query : String → String → ℕ → Query
page_query account period page =
    ("account", account) ∷ ("period", period) ∷ ("page", decimal page) ∷ ("page_size", "20") ∷ []

module _ {ℓ} {W : Type ℓ} (Served : Query → EventPage W → Type ℓ) where
  -- The page of an answer to a waiting `loadEvents` is one that is served for the task's query.
  abbrev pub IsHonest : App W → Event W → Type ℓ
  IsHonest app (settles c (events_arrival s)) =
      (t : Task W) (e : Envelope (EventPage W)) (d : EventPage W)
      → app.tasks c ≡ some t
      → request t.target "events" (app.aborted c) s ≡ returned e
      → e.payload ≡ some d
      → Served t.query d
  IsHonest app event = Unit

  -- So is each answer of a history.
  abbrev pub AllHonest : (String → String) → App W → List (Event W) → Type ℓ
  AllHonest lower app [] = Unit
  AllHonest lower app (event ∷ events) =
      IsHonest app event × AllHonest lower (handle lower app event) events

  -- The pages that wait for their turn are served for the queries of their tasks.
  abbrev pub Replied : (ℕ → Option (Task W)) → Type ℓ
  Replied tasks =
      (c : ℕ) (t : Task W) (e : Envelope (EventPage W)) (d : EventPage W)
      → tasks c ≡ some t
      → t.stage ≡ events_replied (returned e)
      → e.payload ≡ some d
      → Served t.query d

  -- The page in the document is served for the account and period of its label.
  abbrev pub Labelled : Option (String × String) → Option (EventPage W) → Type ℓ
  Labelled shown page =
      (account period : String) (d : EventPage W)
      → shown ≡ some (account, period)
      → page ≡ some d
      → (n : ℕ) × Served (page_query account period n) d

  abbrev pub Traced : App W → Type ℓ
  Traced app = Replied app.tasks × Labelled app.shown_events app.shown_page

  pub update-Replied :
      (tasks : ℕ → Option (Task W)) (k : ℕ) (o : Option (Task W))
      → Replied tasks
      → ((t : Task W) (e : Envelope (EventPage W)) (d : EventPage W)
          → o ≡ some t
          → t.stage ≡ events_replied (returned e)
          → e.payload ≡ some d
          → Served t.query d)
      → Replied (update tasks k o)
  update-Replied tasks k o h new c t e d at s p = elim (Bool-cases (c == k)) [
    | inl f ↦ new t e d (rw (update, f) at at) s p
    | inr f ↦ h c t e d (rw (update, f) at at) s p
  ]

  -- A task that has just sent its request has no page.
  sent :
      (id : ℕ) (target : String) (q : Query) (stage : Stage W)
      → ((e : Envelope (EventPage W)) → stage ≡ events_replied (returned e) → ⊥)
      → (t : Task W) (e : Envelope (EventPage W)) (d : EventPage W)
      → some (record { id = id; target = target; query = q; stage = stage }) ≡ some t
      → t.stage ≡ events_replied (returned e)
      → e.payload ≡ some d
      → Served t.query d
  sent id target q stage waits t e d at s p = absurd (waits e cc)

  pub refresh-Traced : (sync : Bool) (app : App W) → Traced app → Traced (refresh sync app)
  unfolding refresh
  refresh-Traced true app h =
      (update-Replied app.tasks app.next_controller _ h.0 (sent _ _ _ _ (λ e k. cc)), h.1)
  refresh-Traced false app h =
      (update-Replied app.tasks app.next_controller _ h.0 (sent _ _ _ _ (λ e k. cc)), h.1)

  pub load_events-Traced : (app : App W) → Traced app → Traced (load_events app)
  unfolding load_events
  load_events-Traced app h =
      (update-Replied app.tasks app.next_controller _ h.0 (sent _ _ _ _ (λ e k. cc)), h.1)

  reset_events-Traced :
      (message : String) (app : App W) → Traced app → Traced (reset_events message app)
  unfolding reset_events
  reset_events-Traced message app h = (h.0, λ a b d e f. cc)

  retire-Traced : (c : ℕ) (app : App W) → Traced app → Traced (retire c app)
  retire-Traced c app h = (update-Replied app.tasks c none h.0 (λ t e d at s p. cc), h.1)

  start_events-Traced : (found : Bool) (app : App W) → Traced app → Traced (start_events found app)
  unfolding start_events clear_events
  start_events-Traced found app h =
      let ready : App W = record (clear_events app) { events_hidden = not (is_set app.account) } in
      let clear : Traced ready =
        if_elim Traced
          (is_set app.account && not (same_key app.shown_events app.account app.period))
          (λ e. reset_events-Traced "Loading events…" app h) (λ e. h) in
      if_elim Traced (is_set ready.account && found) (λ e. load_events-Traced ready clear)
        (λ e. reset_events-Traced "—" ready clear)

  finish_refresh-Traced : (c id : ℕ) (app : App W) → Traced app → Traced (finish_refresh c id app)
  finish_refresh-Traced c id app h =
      if_elim Traced (id == app.refresh_id && not (app.aborted c)) (λ e. h) (λ e. h)

  finish_events-Traced : (c id : ℕ) (app : App W) → Traced app → Traced (finish_events c id app)
  finish_events-Traced c id app h =
      if_elim Traced (id == app.refresh_id && not (app.aborted c)) (λ e. h) (λ e. h)

  rethrow-Traced : (c : ℕ) (app : App W) → Traced app → Traced (rethrow c app)
  rethrow-Traced c app h = if_elim Traced (app.aborted c) (λ e. h) (λ e. h)

  relabel :
      (n : ℕ) (q : Query) (account period a b : String) (page d : EventPage W)
      → q ≡ page_query account period n
      → Served q page
      → ◌≡◌ {A = Option (String × String)} (some (account, period)) (some (a, b))
      → some page ≡ some d
      → Served (page_query a b n) d
  relabel n q account period a b page d asked served k l =
      let first : account ≡ a = cc in
      let second : period ≡ b = cc in
      let same : page ≡ d = cc in
      subst (λ x. Served (page_query a b n) x) same
        (subst (λ x. Served x page) (asked ∙ rw (first, second) refl) served)

  -- A page that is written answers the query of its task, and a task that may write it asks for the present
  -- account and period.
  continue_events-Traced :
      (c id : ℕ) (q : Query) (e : Envelope (EventPage W)) (app : App W)
      → Traced app
      → ((d : EventPage W) → e.payload ≡ some d → Served q d)
      → (is_stale c id app ≡ false → q ≡ events_query app)
      → Traced (continue_events c id (returned e) app)
  unfolding continue_events render_events reset_events render_errors
  continue_events-Traced c id q e app h served asked =
      finish_events-Traced c id (if is_stale c id app then app else show_events e app) (
        if_elim Traced (is_stale c id app) {x = app} {y = show_events e app} (λ f. h)
          (λ f. elim (Option-cases e.payload) [
            | inl p ↦ rw p (h.0, λ a b d k l. cc)
            | inr (page, p) ↦ rw p (
              h.0,
              λ a b d k l. (
                app.page,
                relabel app.page q app.account app.period a b page d (asked f) (served page p) k l,
              ),
            )
          ]))

  continue_sync-Traced :
      (c : ℕ) (t : Task W) (o : Outcome (Unit {0})) (app : App W)
      → Traced app
      → Traced (continue_sync c t o app)
  unfolding continue_sync
  continue_sync-Traced c t thrown app h =
      finish_refresh-Traced c t.id (rethrow c app) (rethrow-Traced c app h)
  continue_sync-Traced c t (returned e) app h =
      if_elim Traced (is_stale c t.id app) (λ f. finish_refresh-Traced c t.id app h)
        (λ f. (update-Replied app.tasks c _ h.0 (sent _ _ _ _ (λ e k. cc)), h.1))

  module _ (lower : String → String) where
    continue_dashboard-Traced :
        (c id : ℕ) (es : List SourceError) (o : Outcome (Dashboard W)) (app : App W)
        → Traced app
        → Traced (continue_dashboard lower c id es o app)
    unfolding continue_dashboard show_dashboard render_errors
    continue_dashboard-Traced c id es thrown app h =
        finish_refresh-Traced c id (rethrow c app) (rethrow-Traced c app h)
    continue_dashboard-Traced c id es (returned e) app h =
        let shown : App W = show_usage lower es e app in
        finish_refresh-Traced c id
          (if is_stale c id app then app else show_dashboard lower es e app)
          (if_elim Traced (is_stale c id app) {x = app} {y = show_dashboard lower es e app} (λ f. h)
            (λ f. start_events-Traced (has_login shown.account (accounts_of e.payload)) shown h))

    continue_task-Traced :
        (c : ℕ) (t : Task W) (app : App W)
        → app.tasks c ≡ some t
        → Inv app
        → Traced app
        → (stage : Stage W) → t.stage ≡ stage
        → Traced (continue_task lower c t stage app)
    unfolding continue_task continue_events is_refresh
    continue_task-Traced c t app at v h (sync_replied o) s =
        continue_sync-Traced c t o (retire c app) (retire-Traced c app h)
    continue_task-Traced c t app at v h (dashboard_replied es o) s =
        continue_dashboard-Traced c t.id es o (retire c app) (retire-Traced c app h)
    continue_task-Traced c t app at v h (events_replied thrown) s =
        finish_events-Traced c t.id (rethrow c (retire c app))
          (rethrow-Traced c (retire c app) (retire-Traced c app h))
    continue_task-Traced c t app at v h (events_replied (returned e)) s =
        continue_events-Traced c t.id t.query e (retire c app) (retire-Traced c app h)
          (λ d p. h.0 c t e d at s p) (λ f. (v.current_events c t at (rw s refl) (ground arith)).2)
    continue_task-Traced c t app at v h (sync_sent q) s = h
    continue_task-Traced c t app at v h (dashboard_sent es) s = h
    continue_task-Traced c t app at v h events_sent s = h

    pub resume-Traced : (c : ℕ) (app : App W) → Inv app → Traced app → Traced (resume lower c app)
    unfolding resume
    resume-Traced c app v h = elim (Option-cases (app.tasks c)) [
      | inl e ↦ rw (e, resume) h
      | inr (t, e) ↦ rw (e, resume) (continue_task-Traced c t app e v h t.stage refl)
    ]
