-- ===== src/Loading/Preserve/Starting.antt =====
-- `refresh` and `loadEvents`, up to their first `await`.
use copilot_api_dashboard.Base.{
  ℕ, Bool, true, false, Option, none, some, ◌≡◌, arith, refl, sym, ◌∙◌, or_of_left, or_of_right,
}
use copilot_api_dashboard.Loading.{App, load_events, refresh}
use copilot_api_dashboard.Loading.Invariant.{
  is_refresh, has_thrown, refresh_live, events_live, Alloc, Held, NoRefresh, NoRefresh-is_live,
  HeldEvents, holds_live, Inv,
}

module _ {ℓ} {W : Type ℓ} where
  refresh_live-refresh :
      (sync : Bool) (app : App W) → Alloc app → refresh_live (refresh sync app) ≡ true
  unfolding refresh is_refresh
  refresh_live-refresh sync app v = ground (arith, v.fresh app.next_controller (omega arith))

  refresh-Alloc : (sync : Bool) (app : App W) → Alloc app → Alloc (refresh sync app)
  unfolding refresh has_thrown
  refresh-Alloc sync app v = record {
    fresh = λ c h. ground (arith, v.fresh c, v.dashboard_below, v.events_below);
    dashboard_below = ground arith;
    events_below = ground (arith, v.events_below);
    distinct = λ c d e. ground (arith, v.events_below);
    thrown_aborted = λ c t e k. ground (arith, v.thrown_aborted c t);
    handled = v.handled;
  }

  -- `refresh` aborts what was held, so that it is the only task that is not aborted.
  pub refresh-Inv : (sync : Bool) (app : App W) → Alloc app → Held app → Inv (refresh sync app)
  unfolding refresh is_refresh
  refresh-Inv sync app v held = record {
    alloc = refresh-Alloc sync app v;
    current_refresh = λ c t e k a. ground (arith, held c t);
    current_events = λ c t e k a. ground (arith, held c t);
    content = sym (refresh_live-refresh sync app v);
    events = or_of_left _ (events_live (refresh sync app)) (refresh_live-refresh sync app v);
    exclusive = λ h. ground (arith, v.fresh app.next_controller (omega arith), v.events_below);
    syncs = λ h. refresh_live-refresh sync app v;
    no_previous = λ h. refl;
    no_next = λ h. refl;
  }

  events_live-load_events : (app : App W) → Alloc app → events_live (load_events app) ≡ true
  unfolding load_events is_refresh
  events_live-load_events app v = ground (arith, v.fresh app.next_controller (omega arith))

  refresh_live-load_events :
      (app : App W) → Alloc app → NoRefresh app → refresh_live (load_events app) ≡ false
  unfolding load_events is_refresh
  refresh_live-load_events app v idle = by_holder app.dashboard_controller
    where
      by_holder : (o : Option ℕ) → holds_live true (load_events app) o ≡ false
      by_holder none = refl
      by_holder (some k) = ground (arith, NoRefresh-is_live app idle k)

  load_events-Alloc : (app : App W) → Alloc app → Alloc (load_events app)
  unfolding load_events has_thrown
  load_events-Alloc app v = record {
    fresh = λ c h. ground (arith, v.fresh c, v.events_below);
    dashboard_below = ground (arith, v.dashboard_below);
    events_below = ground arith;
    distinct = λ c d e. ground (arith, v.dashboard_below);
    thrown_aborted = λ c t e k. ground (arith, v.thrown_aborted c t);
    handled = v.handled;
  }

  -- `loadEvents` starts when no `refresh` is under way, and aborts the `loadEvents` before it.
  pub load_events-Inv :
      (app : App W)
      → Alloc app
      → HeldEvents app
      → NoRefresh app
      → app.content_busy ≡ false
      → app.syncing ≡ false
      → Inv (load_events app)
  unfolding load_events is_refresh
  load_events-Inv app v held idle content sync =
      let quiet = refresh_live-load_events app v idle in
      record {
        alloc = load_events-Alloc app v;
        current_refresh = λ c t e k a. ground (arith, idle c t);
        current_events = λ c t e k a. ground (arith, held c t, idle c t);
        content = content ∙ sym quiet;
        events = or_of_right (refresh_live (load_events app)) _ (events_live-load_events app v);
        exclusive = λ h. cc quiet;
        syncs = λ h. cc;
        no_previous = λ h. cc quiet;
        no_next = λ h. cc quiet;
      }
