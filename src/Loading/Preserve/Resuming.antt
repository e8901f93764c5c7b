-- ===== src/Loading/Preserve/Resuming.antt =====
-- A task goes on.
use copilot_api_dashboard.Base.{
  ℕ, String, Bool, true, false, List, Option, none, some, ◌&&◌, not, ◌≡◌, ◌≢◌, ◌==◌, if◌then◌else◌,
  arith, refl, ◌∙◌, inl, inr, Bool-cases, if_elim,
}
use copilot_api_dashboard.Model.{SourceError, Dashboard, EventPage}
use copilot_api_dashboard.Request.{returned, Envelope}
use copilot_api_dashboard.Loading.{
  Task, App, is_set, same_key, reset_events, render_events, render_errors, load_events,
}
use copilot_api_dashboard.Loading.Tasks.{
  is_stale, finish_refresh, finish_events, show_events, continue_events, continue_sync, show_usage,
  clear_events, start_events, show_dashboard, continue_dashboard, accounts_of,
}
use copilot_api_dashboard.Accounts.{has_login}
use copilot_api_dashboard.Loading.Invariant.{is_refresh, has_thrown, Alloc, Inv, retask-Inv, Quiet}
use copilot_api_dashboard.Loading.Preserve.Starting.{load_events-Inv}
use copilot_api_dashboard.Loading.Preserve.Quieting.{
  retire, retire-Alloc, retire_refresh-Quiet, retire_events-Quiet, Quiet-Inv,
}

module _ {ℓ} {W : Type ℓ} where
  abbrev done : App W → App W
  done app = record app { content_busy = false; syncing = false }

  finish_refresh-Inv :
      (c id : ℕ) (app : App W)
      → id ≡ app.refresh_id
      → app.aborted c ≡ false
      → Inv (done app)
      → Inv (finish_refresh c id app)
  finish_refresh-Inv c id app h live v =
      if_elim Inv (id == app.refresh_id && not (app.aborted c)) (λ e. v)
        (λ e. absurd (ground arith))

  finish_events-Inv :
      (c id : ℕ) (app : App W)
      → id ≡ app.refresh_id
      → app.aborted c ≡ false
      → Inv (record app { events_busy = false })
      → Inv (finish_events c id app)
  finish_events-Inv c id app h live v =
      if_elim Inv (id == app.refresh_id && not (app.aborted c)) (λ e. v)
        (λ e. absurd (ground arith))

  -- What the end of a live `refresh` needs of the state while it changes the page.
  record Ready (c id : ℕ) (app : App W) : Type ℓ where
    alloc : Alloc app
    quiet : Quiet app
    latest : id ≡ app.refresh_id
    live : app.aborted c ≡ false
    other : app.events_controller ≢ some c

  module _ (c id : ℕ) where
    load_or_reset-Inv :
        (b : Bool) (app : App W)
        → Ready c id app
        → Inv (finish_refresh c id (if b then load_events app else reset_events "—" app))
    unfolding load_events reset_events
    load_or_reset-Inv true app r =
        finish_refresh-Inv c id (load_events app) r.latest (ground (arith, r.other)) (
          load_events-Inv (done app) r.alloc (λ k t e h a. cc (r.quiet k t e))
            (λ k t e h. r.quiet k t e) refl refl)
    load_or_reset-Inv false app r =
        finish_refresh-Inv c id (reset_events "—" app) r.latest r.live
          (Quiet-Inv _ r.alloc r.quiet refl refl refl)

    clear_events-Ready : (app : App W) → Ready c id app → Ready c id (clear_events app)
    unfolding clear_events reset_events
    clear_events-Ready app r =
        if_elim (Ready c id)
          (is_set app.account && not (same_key app.shown_events app.account app.period))
          {x = reset_events "Loading events…" app} {y = app}
          (λ e. record {
            alloc = r.alloc;
            quiet = r.quiet;
            latest = r.latest;
            live = r.live;
            other = r.other;
          })
          (λ e. r)

    start_events-Inv :
        (found : Bool) (app : App W)
        → Ready c id app
        → Inv (finish_refresh c id (start_events found app))
    unfolding start_events
    start_events-Inv found app r =
        let k = clear_events-Ready app r in
        load_or_reset-Inv _ _ (record {
          alloc = k.alloc;
          quiet = k.quiet;
          latest = k.latest;
          live = k.live;
          other = k.other;
        })

  module _ (lower : String → String) where
    show_dashboard-Inv :
        (c id : ℕ) (es : List SourceError) (e : Envelope (Dashboard W)) (app : App W)
        → Ready c id app
        → Inv (finish_refresh c id (show_dashboard lower es e app))
    unfolding show_dashboard render_errors
    show_dashboard-Inv c id es e app r =
        let shown = show_usage lower es e app in
        start_events-Inv c id (has_login shown.account (accounts_of e.payload)) shown (record {
          alloc = r.alloc;
          quiet = r.quiet;
          latest = r.latest;
          live = r.live;
          other = r.other;
        })

    -- The task is the present one, and nothing else is live.
    module _ (c : ℕ) (t : Task W) (app : App W) (at : app.tasks c ≡ some t) (v : Inv app)
        (live : app.aborted c ≡ false) where
      refresh-Ready : is_refresh t.stage ≡ true → Ready c t.id (retire c app)
      refresh-Ready r =
          let (held, latest, _) = v.current_refresh c t at r live in
          record {
            alloc = retire-Alloc c app v.alloc;
            quiet = retire_refresh-Quiet c t app v at r live;
            latest = latest;
            live = live;
            other = v.alloc.distinct c held;
          }

      pub continue_dashboard-Inv :
          is_refresh t.stage ≡ true
          → (es : List SourceError) (e : Envelope (Dashboard W))
          → Inv (continue_dashboard lower c t.id es (returned e) (retire c app))
      unfolding continue_dashboard
      continue_dashboard-Inv r es e =
          let k = refresh-Ready r in
          if_elim (λ (a : App W). Inv (finish_refresh c t.id a)) (is_stale c t.id (retire c app))
            {x = retire c app} {y = show_dashboard lower es e (retire c app)}
            (λ h. absurd (ground (arith, k.latest, k.live)))
            (λ h. show_dashboard-Inv c t.id es e (retire c app) k)

      -- The next request of the task stands where the answered one stood.
      pub continue_sync-Inv :
          is_refresh t.stage ≡ true
          → (e : Envelope (Unit {0})) → Inv (continue_sync c t (returned e) (retire c app))
      unfolding continue_sync is_refresh has_thrown
      continue_sync-Inv r e =
          let k = refresh-Ready r in
          if_elim Inv (is_stale c t.id (retire c app))
            (λ h. absurd (ground (arith, k.latest, k.live)))
            λ h.
              retask-Inv app _ (λ kind j. ground arith) v
                (record {
                  fresh = λ j b. ground (arith, v.alloc.fresh j b);
                  dashboard_below = v.alloc.dashboard_below;
                  events_below = v.alloc.events_below;
                  distinct = v.alloc.distinct;
                  thrown_aborted = λ j u q g. ground (arith, v.alloc.thrown_aborted j u);
                  handled = v.alloc.handled;
                })
                λ j u q a. elim (Bool-cases (j == c)) [
                  | inl g ↦ (t, ground arith, ground arith, ground arith, ground arith)
                  | inr g ↦ (u, ground arith, refl, refl, refl)
                ]

      show_events-Inv :
          (quiet : Quiet (retire c app)) (content : app.content_busy ≡ false)
          → (sync : app.syncing ≡ false) (latest : t.id ≡ app.refresh_id)
          → (o : Option (EventPage W)) (es : List SourceError)
          → Inv (
              finish_events c t.id
                (show_events (record { payload = o; errors = es }) (retire c app)))
      unfolding render_events render_errors
      show_events-Inv quiet content sync latest none es =
          finish_events-Inv c t.id _ latest live
            (Quiet-Inv _ (retire-Alloc c app v.alloc) quiet content refl sync)
      show_events-Inv quiet content sync latest (some d) es =
          finish_events-Inv c t.id _ latest live
            (Quiet-Inv _ (retire-Alloc c app v.alloc) quiet content refl sync)

      pub continue_events-Inv :
          is_refresh t.stage ≡ false
          → (e : Envelope (EventPage W)) → Inv (continue_events c t.id (returned e) (retire c app))
      unfolding continue_events
      continue_events-Inv r e =
          let (quiet, idle) = retire_events-Quiet c t app v at r live in
          let (_, latest, _) = v.current_events c t at r live in
          if_elim (λ (a : App W). Inv (finish_events c t.id a)) (is_stale c t.id (retire c app))
            {x = retire c app} {y = show_events e (retire c app)} (λ h. absurd (ground arith))
            (λ h.
              show_events-Inv quiet (v.content ∙ idle) (ground (arith, v.syncs)) latest e.payload
                e.errors)
