-- ===== src/Loading/Preserve/Settling.antt =====
-- An answer of the server reaches a waiting task.
use copilot_api_dashboard.Base.{
  ℕ, String, Bool, true, false, some, ◌≡◌, ◌==◌, arith, refl, ◌⊎◌, inl, inr, Option-cases,
  Bool-cases,
}
use copilot_api_dashboard.Request.Answers.{is_thrown-request}
use copilot_api_dashboard.Loading.{Stage, sync_sent, dashboard_sent, events_sent, Task, App}
use copilot_api_dashboard.Loading.Tasks.{
  Arrival, sync_arrival, dashboard_arrival, events_arrival, advance, settle_task, settle,
}
use copilot_api_dashboard.Loading.Invariant.{
  is_refresh, has_thrown, Alloc, is_live, Inv, retask-Inv,
}

module _ {ℓ} {W : Type ℓ} where
  is_refresh-advance :
      (aborted : Bool) (target : String) (stage : Stage W) (arrival : Arrival W)
      → is_refresh (advance aborted target stage arrival) ≡ is_refresh stage
  unfolding is_refresh advance
  is_refresh-advance aborted target (sync_sent q) (sync_arrival s) = refl
  is_refresh-advance aborted target (dashboard_sent es) (dashboard_arrival s) = refl
  is_refresh-advance aborted target events_sent (events_arrival s) = refl
  is_refresh-advance aborted target stage arrival = refl

  has_thrown-advance :
      (aborted : Bool) (target : String) (stage : Stage W) (arrival : Arrival W)
      → has_thrown (advance aborted target stage arrival) ≡ true
      → (has_thrown stage ≡ true) ⊎ (aborted ≡ true)
  unfolding has_thrown advance
  has_thrown-advance aborted target (sync_sent q) (sync_arrival s) h =
      inr (is_thrown-request target "sync" aborted s h)
  has_thrown-advance aborted target (dashboard_sent es) (dashboard_arrival s) h =
      inr (is_thrown-request target "dashboard" aborted s h)
  has_thrown-advance aborted target events_sent (events_arrival s) h =
      inr (is_thrown-request target "events" aborted s h)
  has_thrown-advance aborted target stage arrival h = inl h

  module _ (c : ℕ) (arrival : Arrival W) (t : Task W) (app : App W)
      (at : app.tasks c ≡ some t) where
    is_live-settle_task :
        (kind : Bool) (k : ℕ) → is_live kind (settle_task c arrival t app) k ≡ is_live kind app k
    unfolding settle_task
    is_live-settle_task kind k =
        ground (arith, is_refresh-advance (app.aborted c) t.target t.stage arrival)

    settle_task-Alloc : Alloc app → Alloc (settle_task c arrival t app)
    unfolding settle_task
    settle_task-Alloc v = record {
      fresh = λ k h. ground (arith, v.fresh k h);
      dashboard_below = v.dashboard_below;
      events_below = v.events_below;
      distinct = v.distinct;
      thrown_aborted = λ k u e h. ground (
        arith,
        v.thrown_aborted k u,
        v.thrown_aborted c t,
        has_thrown-advance (app.aborted c) t.target t.stage arrival,
      );
      handled = v.handled;
    }

    settle_task-Inv : Inv app → Inv (settle_task c arrival t app)
    unfolding settle_task
    settle_task-Inv v = retask-Inv app _ is_live-settle_task v (settle_task-Alloc v.alloc) before
      where
        before :
            (k : ℕ) (u : Task W)
            → (settle_task c arrival t app).tasks k ≡ some u
            → app.aborted k ≡ false
            → (w : Task W) × (app.tasks k ≡ some w)
              × (is_refresh w.stage ≡ is_refresh u.stage)
              × (w.id ≡ u.id)
              × (w.query ≡ u.query)
        before k u e a = elim (Bool-cases (k == c)) [
          | inl h ↦ (
            t,
            ground arith,
            ground (arith, is_refresh-advance (app.aborted c) t.target t.stage arrival),
            ground arith,
            ground arith,
          )
          | inr h ↦ (u, ground arith, refl, refl, refl)
        ]

  pub settle-Inv :
      (c : ℕ) (arrival : Arrival W) (app : App W) → Inv app → Inv (settle c arrival app)
  unfolding settle
  settle-Inv c arrival app v = elim (Option-cases (app.tasks c)) [
    | inl e ↦ rw (e, settle) v
    | inr (t, e) ↦ rw (e, settle) (settle_task-Inv c arrival t app e v)
  ]
