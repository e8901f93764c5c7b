-- ===== src/Loading/Preserve/Stale.antt =====
-- What a task does that an aborted signal or a later `refresh` has made stale.
use copilot_api_dashboard.Base.{
  ℕ, String, Bool, true, false, none, some, ◌&&◌, not, ◌≡◌, ◌==◌, arith, refl, inl, inr,
  Option-cases, Bool-cases, if_elim,
}
use copilot_api_dashboard.Request.{returned, thrown}
use copilot_api_dashboard.Loading.{
  Stage, sync_sent, sync_replied, dashboard_sent, dashboard_replied, events_sent, events_replied,
  Task, App, update,
}
use copilot_api_dashboard.Loading.Tasks.{
  is_stale, rethrow, finish_refresh, finish_events, continue_task, resume,
}
use copilot_api_dashboard.Loading.Invariant.{is_refresh, has_thrown, Inv}
use copilot_api_dashboard.Loading.Preserve.Quieting.{retire, retire-Inv}
use copilot_api_dashboard.Loading.Preserve.Resuming.{
  continue_sync-Inv, continue_dashboard-Inv, continue_events-Inv,
}

module _ {ℓ} {W : Type ℓ} where
  -- The outcome of the awaited request is there.
  abbrev pub is_replied : Stage W → Bool
  is_replied (sync_replied o) = true
  is_replied (dashboard_replied es o) = true
  is_replied (events_replied o) = true
  is_replied stage = false

  module _ (c id : ℕ) (app : App W) (stale : is_stale c id app ≡ true) where
    pub finish_refresh_stale : finish_refresh c id app ≡ app
    finish_refresh_stale =
        if_elim {A = App W} (λ a. a ≡ app) (id == app.refresh_id && not (app.aborted c))
          (λ e. absurd (ground arith)) (λ e. refl)

    pub finish_events_stale : finish_events c id app ≡ app
    finish_events_stale =
        if_elim {A = App W} (λ a. a ≡ app) (id == app.refresh_id && not (app.aborted c))
          (λ e. absurd (ground arith)) (λ e. refl)

  rethrow_aborted : (c : ℕ) (app : App W) → app.aborted c ≡ true → rethrow c app ≡ app
  rethrow_aborted c app dead = rw dead

  module _ (lower : String → String) (c : ℕ) (t : Task W) (app : App W)
      (stale : is_stale c t.id app ≡ true) where
    pub stale_task :
        (stage : Stage W)
        → is_replied stage ≡ true
        → (has_thrown stage ≡ true → app.aborted c ≡ true)
        → continue_task lower c t stage app ≡ retire c app
    unfolding continue_task has_thrown
    stale_task (sync_replied thrown) r h =
        rw (rethrow_aborted c (retire c app) (h refl))
          (finish_refresh_stale c t.id (retire c app) stale)
    stale_task (sync_replied (returned e)) r h =
        rw stale (finish_refresh_stale c t.id (retire c app) stale)
    stale_task (dashboard_replied es thrown) r h =
        rw (rethrow_aborted c (retire c app) (h refl))
          (finish_refresh_stale c t.id (retire c app) stale)
    stale_task (dashboard_replied es (returned e)) r h =
        rw stale (finish_refresh_stale c t.id (retire c app) stale)
    stale_task (events_replied thrown) r h =
        rw (rethrow_aborted c (retire c app) (h refl))
          (finish_events_stale c t.id (retire c app) stale)
    stale_task (events_replied (returned e)) r h =
        rw stale (finish_events_stale c t.id (retire c app) stale)
    stale_task (sync_sent q) r h = cc
    stale_task (dashboard_sent es) r h = cc
    stale_task events_sent r h = cc

  module _ (lower : String → String) where
    live_task-Inv :
        (c : ℕ) (t : Task W) (app : App W)
        → app.tasks c ≡ some t
        → Inv app
        → app.aborted c ≡ false
        → (stage : Stage W) → t.stage ≡ stage
        → Inv (continue_task lower c t stage app)
    unfolding continue_task is_refresh has_thrown
    live_task-Inv c t app at v live (sync_replied thrown) s =
        cc (v.alloc.thrown_aborted c t at (rw s))
    live_task-Inv c t app at v live (sync_replied (returned e)) s =
        continue_sync-Inv lower c t app at v live (rw s) e
    live_task-Inv c t app at v live (dashboard_replied es thrown) s =
        cc (v.alloc.thrown_aborted c t at (rw s))
    live_task-Inv c t app at v live (dashboard_replied es (returned e)) s =
        continue_dashboard-Inv lower c t app at v live (rw s) es e
    live_task-Inv c t app at v live (events_replied thrown) s =
        cc (v.alloc.thrown_aborted c t at (rw s))
    live_task-Inv c t app at v live (events_replied (returned e)) s =
        continue_events-Inv lower c t app at v live (rw s) e
    live_task-Inv c t app at v live (sync_sent q) s = v
    live_task-Inv c t app at v live (dashboard_sent es) s = v
    live_task-Inv c t app at v live events_sent s = v

    dead_task-Inv :
        (c : ℕ) (t : Task W) (app : App W)
        → Inv app
        → app.aborted c ≡ true
        → (stage : Stage W) → Inv (continue_task lower c t stage app)
    unfolding continue_task
    dead_task-Inv c t app v dead (sync_sent q) = v
    dead_task-Inv c t app v dead (dashboard_sent es) = v
    dead_task-Inv c t app v dead events_sent = v
    dead_task-Inv c t app v dead (sync_replied o) =
        rw (stale_task lower c t app (ground arith) (sync_replied o) refl (λ h. dead))
          (retire-Inv c app dead v)
    dead_task-Inv c t app v dead (dashboard_replied es o) =
        rw (stale_task lower c t app (ground arith) (dashboard_replied es o) refl (λ h. dead))
          (retire-Inv c app dead v)
    dead_task-Inv c t app v dead (events_replied o) =
        rw (stale_task lower c t app (ground arith) (events_replied o) refl (λ h. dead))
          (retire-Inv c app dead v)

    pub resume-Inv : (c : ℕ) (app : App W) → Inv app → Inv (resume lower c app)
    unfolding resume
    resume-Inv c app v = elim (Option-cases (app.tasks c)) [
      | inl e ↦ rw (e, resume) v
      | inr (t, e) ↦
          rw (e, resume)
            (elim (Bool-cases (app.aborted c)) [
              | inl dead ↦ dead_task-Inv c t app v dead t.stage
              | inr live ↦ live_task-Inv c t app e v live t.stage refl
            ])
    ]

    -- A task whose answer is there, and whose signal is aborted or whose `refreshID` is no longer the
    -- present one, changes nothing but that it ends: the state and the document stay as they are.
    pub resume_stale :
        (c : ℕ) (t : Task W) (app : App W)
        → Inv app
        → app.tasks c ≡ some t
        → is_replied t.stage ≡ true
        → is_stale c t.id app ≡ true
        → resume lower c app ≡ record app { tasks = update app.tasks c none }
    unfolding resume
    resume_stale c t app v at replied stale =
        rw (at, resume)
          (stale_task lower c t app stale t.stage replied (v.alloc.thrown_aborted c t at))
