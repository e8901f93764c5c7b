-- ===== src/Loading/Document/Continuing.antt =====
-- `refresh` and `loadEvents` after an `await`: the document goes on to show the filters.
use copilot_api_dashboard.Base.{
  ℕ, String, Bool, true, List, Option, none, some, ◌&&◌, not, ◌≡◌, ◌==◌, arith, refl, sym, ◌∙◌, inl,
  inr, Option-cases, if_elim, eq_iff,
}
use copilot_api_dashboard.Model.{SourceError, Dashboard, EventPage}
use copilot_api_dashboard.Request.{returned, thrown, Envelope}
use copilot_api_dashboard.Filters.{is_period}
use copilot_api_dashboard.Accounts.{has_login}
use copilot_api_dashboard.Accounts.Select.{select_value-canonical}
use copilot_api_dashboard.Loading.{
  Stage, sync_sent, sync_replied, dashboard_sent, dashboard_replied, events_sent, events_replied,
  Task, App, reset_events, render_events, render_errors, load_events,
}
use copilot_api_dashboard.Loading.Tasks.{
  is_stale, finish_refresh, finish_events, show_events, start_events, show_usage, show_dashboard,
  accounts_of, continue_sync, continue_dashboard, continue_events, continue_task, resume,
}
use copilot_api_dashboard.Loading.Invariant.{has_thrown, Inv}
use copilot_api_dashboard.Loading.Preserve.Stale.{finish_refresh_stale, stale_task}
use copilot_api_dashboard.Loading.Preserve.Quieting.{retire}
use copilot_api_dashboard.Loading.Document.{RowsOf, Document}

module _ {ℓ} {W : Type ℓ} where
  start_events-RowsOf :
      (found : Bool) (app : App W)
      → RowsOf
          (start_events found app).shown_events
          (start_events found app).account
          (start_events found app).period
  unfolding start_events load_events reset_events
  start_events-RowsOf found app = elim (Option-cases app.shown_events) [
    | inl e ↦ ground arith
    | inr ((a, p), e) ↦ ground (arith, eq_iff a app.account, eq_iff p app.period)
  ]

  start_events-owned :
      (found : Bool) (app : App W)
      → (app.shown_events ≡ none → app.shown_page ≡ none)
      → (start_events found app).shown_events ≡ none
      → (start_events found app).shown_page ≡ none
  unfolding start_events load_events reset_events
  start_events-owned found app o = ground arith

  start_events-fields :
      (found : Bool) (app : App W)
      → ((start_events found app).account ≡ app.account)
        × ((start_events found app).period ≡ app.period)
        × ((start_events found app).account_value ≡ app.account_value)
        × ((start_events found app).period_value ≡ app.period_value)
  unfolding start_events load_events reset_events
  start_events-fields found app = ground arith

  finish_refresh-Document :
      (c id : ℕ) (app : App W)
      → RowsOf app.shown_events app.account app.period
      → Document app
      → Document (finish_refresh c id app)
  finish_refresh-Document c id app r d =
      if_elim Document (id == app.refresh_id && not (app.aborted c))
        (λ h. record {
          valid = d.valid;
          account_selected = d.account_selected;
          period_selected = d.period_selected;
          rows = λ g. r;
          owned = d.owned;
        })
        (λ h. d)

  start_events-Document :
      (found : Bool) (app : App W)
      → is_period app.period ≡ true
      → app.account_value ≡ app.account
      → app.period_value ≡ app.period
      → (app.shown_events ≡ none → app.shown_page ≡ none)
      → Document (start_events found app)
  start_events-Document found app p a b o =
      let (account, period, av, pv) = start_events-fields found app in
      record {
        valid = rw period p;
        account_selected = av ∙ a ∙ sym account;
        period_selected = pv ∙ b ∙ sym period;
        rows = λ h. start_events-RowsOf found app;
        owned = start_events-owned found app o;
      }

  module _ (lower : String → String) (c : ℕ) (app : App W) (d : Document app) where
    continue_sync-Document :
        (t : Task W) (e : Envelope (Unit {0})) → Document (continue_sync c t (returned e) app)
    unfolding continue_sync
    continue_sync-Document t e =
        if_elim Document (is_stale c t.id app) (λ h. rw (finish_refresh_stale c t.id app h) d)
          (λ h. record {
            valid = d.valid;
            account_selected = d.account_selected;
            period_selected = d.period_selected;
            rows = d.rows;
            owned = d.owned;
          })

    show_dashboard-Document :
        (id : ℕ) (es : List SourceError) (e : Envelope (Dashboard W))
        → Document (finish_refresh c id (show_dashboard lower es e app))
    unfolding show_dashboard render_errors
    show_dashboard-Document id es e =
        let shown = show_usage lower es e app in
        let found = has_login shown.account (accounts_of e.payload) in
        finish_refresh-Document c id (start_events found shown) (start_events-RowsOf found shown) (
          start_events-Document found shown d.valid
            (select_value-canonical lower app.account (accounts_of e.payload)) d.period_selected
            d.owned)

    show_events-Document :
        (id : ℕ) (o : Option (EventPage W)) (es : List SourceError)
        → Document (show_events (record { payload = o; errors = es }) app)
    unfolding render_events render_errors
    show_events-Document id none es = record {
      valid = d.valid;
      account_selected = d.account_selected;
      period_selected = d.period_selected;
      rows = λ h. inl refl;
      owned = λ h. refl;
    }
    show_events-Document id (some p) es = record {
      valid = d.valid;
      account_selected = d.account_selected;
      period_selected = d.period_selected;
      rows = λ h. inr refl;
      owned = λ h. cc;
    }

    finish_events-Document : (id : ℕ) (a : App W) → Document a → Document (finish_events c id a)
    finish_events-Document id a k =
        if_elim Document (id == a.refresh_id && not (a.aborted c))
          (λ h. record {
            valid = k.valid;
            account_selected = k.account_selected;
            period_selected = k.period_selected;
            rows = k.rows;
            owned = k.owned;
          })
          (λ h. k)

    continue_dashboard-Document :
        (id : ℕ) (es : List SourceError) (e : Envelope (Dashboard W))
        → Document (continue_dashboard lower c id es (returned e) app)
    unfolding continue_dashboard
    continue_dashboard-Document id es e =
        if_elim {A = App W} (λ a. Document (finish_refresh c id a)) (is_stale c id app) {x = app}
          {y = show_dashboard lower es e app} (λ h. rw (finish_refresh_stale c id app h) d)
          (λ h. show_dashboard-Document id es e)

    continue_events-Document :
        (id : ℕ) (e : Envelope (EventPage W)) → Document (continue_events c id (returned e) app)
    unfolding continue_events
    continue_events-Document id e = finish_events-Document id _ (
        if_elim Document (is_stale c id app) {x = app} {y = show_events e app} (λ h. d)
          (λ h. show_events-Document id e.payload e.errors))

  module _ (lower : String → String) where
    retire-Document : (c : ℕ) (app : App W) → Document app → Document (retire c app)
    retire-Document c app d = record {
      valid = d.valid;
      account_selected = d.account_selected;
      period_selected = d.period_selected;
      rows = d.rows;
      owned = d.owned;
    }

    continue_task-Document :
        (c : ℕ) (t : Task W) (app : App W)
        → Document app
        → (stage : Stage W) → (has_thrown stage ≡ true → app.aborted c ≡ true)
        → Document (continue_task lower c t stage app)
    unfolding continue_task has_thrown
    continue_task-Document c t app d (sync_replied thrown) h =
        let dead = h refl in
        rw (stale_task lower c t app (ground arith) (sync_replied thrown) refl (λ _. dead))
          (retire-Document c app d)
    continue_task-Document c t app d (dashboard_replied es thrown) h =
        let dead = h refl in
        rw (stale_task lower c t app (ground arith) (dashboard_replied es thrown) refl (λ _. dead))
          (retire-Document c app d)
    continue_task-Document c t app d (events_replied thrown) h =
        let dead = h refl in
        rw (stale_task lower c t app (ground arith) (events_replied thrown) refl (λ _. dead))
          (retire-Document c app d)
    continue_task-Document c t app d (sync_replied (returned e)) h =
        continue_sync-Document lower c (retire c app) (retire-Document c app d) t e
    continue_task-Document c t app d (dashboard_replied es (returned e)) h =
        continue_dashboard-Document lower c (retire c app) (retire-Document c app d) t.id es e
    continue_task-Document c t app d (events_replied (returned e)) h =
        continue_events-Document lower c (retire c app) (retire-Document c app d) t.id e
    continue_task-Document c t app d (sync_sent q) h = d
    continue_task-Document c t app d (dashboard_sent es) h = d
    continue_task-Document c t app d events_sent h = d

    pub resume-Document :
        (c : ℕ) (app : App W) → Inv app → Document app → Document (resume lower c app)
    unfolding resume
    resume-Document c app v d = elim (Option-cases (app.tasks c)) [
      | inl e ↦ rw (e, resume) d
      | inr (t, e) ↦
          rw (e, resume) (continue_task-Document c t app d t.stage (v.alloc.thrown_aborted c t e))
    ]
