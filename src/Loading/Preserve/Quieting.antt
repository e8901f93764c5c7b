-- ===== src/Loading/Preserve/Quieting.antt =====
-- The end of a task: the state without it, and the states in which no task is left that counts.
use copilot_api_dashboard.Base.{
  ℕ, Bool, true, false, Option, none, some, ◌≡◌, arith, refl, sym, ◌∙◌, inl, inr, Option-cases,
}
use copilot_api_dashboard.Loading.{Task, App, update}
use copilot_api_dashboard.Loading.Invariant.{
  is_refresh, refresh_live, Alloc, holds_live, is_live, Inv, retask, retask-Inv, Quiet,
  refresh_live_lem, events_live_lem,
}

module _ {ℓ} {W : Type ℓ} where
  -- Without the task of a controller.
  abbrev pub retire : ℕ → App W → App W
  retire c app = retask app (update app.tasks c none)

  pub retire-Alloc : (c : ℕ) (app : App W) → Alloc app → Alloc (retire c app)
  retire-Alloc c app v = record {
    fresh = λ k h. ground (arith, v.fresh k h);
    dashboard_below = v.dashboard_below;
    events_below = v.events_below;
    distinct = v.distinct;
    thrown_aborted = λ k u e h. ground (arith, v.thrown_aborted k u);
    handled = v.handled;
  }

  -- An aborted task may go.
  pub retire-Inv : (c : ℕ) (app : App W) → app.aborted c ≡ true → Inv app → Inv (retire c app)
  unfolding is_refresh
  retire-Inv c app dead v =
      retask-Inv app _ (λ kind k. ground arith) v (retire-Alloc c app v.alloc)
        λ k u e a. (u, ground arith, refl, refl, refl)

  -- With a live `refresh` gone, or a live `loadEvents`, nothing live is left.
  pub retire_refresh-Quiet :
      (c : ℕ) (t : Task W) (app : App W)
      → Inv app
      → app.tasks c ≡ some t
      → is_refresh t.stage ≡ true
      → app.aborted c ≡ false
      → Quiet (retire c app)
  retire_refresh-Quiet c t app v at r live k u e =
      let busy = refresh_live_lem app c t v at r live in
      let idle = v.exclusive busy in
      let held = v.current_refresh c t at r live in
      ground (arith, v.current_refresh k u, events_live_lem app k u v)

  pub retire_events-Quiet :
      (c : ℕ) (t : Task W) (app : App W)
      → Inv app
      → app.tasks c ≡ some t
      → is_refresh t.stage ≡ false
      → app.aborted c ≡ false
      → Quiet (retire c app) × (refresh_live app ≡ false)
  retire_events-Quiet c t app v at r live =
      let busy = events_live_lem app c t v at r live in
      let held = v.current_events c t at r live in
      (
        λ k u e. ground (arith, v.current_events k u, refresh_live_lem app k u v, v.exclusive),
        ground (arith, v.exclusive),
      )

  Quiet-is_live : (app : App W) → Quiet app → (kind : Bool) (c : ℕ) → is_live kind app c ≡ false
  Quiet-is_live app quiet kind c = elim (Option-cases (app.tasks c)) [
    | inl e ↦ ground arith
    | inr (t, e) ↦ ground (arith, quiet c t e)
  ]

  Quiet-holds_live :
      (app : App W) → Quiet app → (kind : Bool) (o : Option ℕ) → holds_live kind app o ≡ false
  Quiet-holds_live app quiet kind none = refl
  Quiet-holds_live app quiet kind (some c) = Quiet-is_live app quiet kind c

  -- With nothing live, the document must show nothing as busy.
  pub Quiet-Inv :
      (app : App W)
      → Alloc app
      → Quiet app
      → app.content_busy ≡ false
      → app.events_busy ≡ false
      → app.syncing ≡ false
      → Inv app
  Quiet-Inv app v quiet content events sync =
      let refreshing = Quiet-holds_live app quiet true app.dashboard_controller in
      let loading = Quiet-holds_live app quiet false app.events_controller in
      record {
        alloc = v;
        current_refresh = λ c t e r a. cc (quiet c t e);
        current_events = λ c t e r a. cc (quiet c t e);
        content = content ∙ sym refreshing;
        events = ground arith;
        exclusive = λ h. loading;
        syncs = λ h. cc;
        no_previous = λ h. cc refreshing;
        no_next = λ h. cc refreshing;
      }
