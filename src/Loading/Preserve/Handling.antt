-- ===== src/Loading/Preserve/Handling.antt =====
-- The listeners, the start of the page, and every history.
use Prim.Native.Nat.{pred}
use copilot_api_dashboard.Base.{
  ℕ, suc, String, true, false, List, [], ◌∷◌, ◌&&◌, ◌≡◌, str_eq, any, arith, refl, ◌∙◌, ltb,
  if_elim,
}
use copilot_api_dashboard.Filters.{Query, periods, filter_query, location_filters}
use copilot_api_dashboard.Accounts.{same_login}
use copilot_api_dashboard.Loading.{App, refresh, load_events}
use copilot_api_dashboard.Loading.Handlers.{
  Event, submit, change_account, change_period, popstate, previous, next, settles, resumes,
  select_filters, read_location, popstate_listener, click_previous, click_next, handle, initial,
  start, run,
}
use copilot_api_dashboard.Loading.Invariant.{refresh_live, Inv, Inv-Held, Inv-NoRefresh, Alloc}
use copilot_api_dashboard.Loading.Preserve.Starting.{refresh-Inv, load_events-Inv}
use copilot_api_dashboard.Loading.Preserve.Settling.{settle-Inv}
use copilot_api_dashboard.Loading.Preserve.Stale.{resume-Inv}

module _ {ℓ} {W : Type ℓ} where
  select_filters-Inv :
      (account period : String) (app : App W) → Inv app → Inv (select_filters account period app)
  unfolding select_filters
  select_filters-Inv account period app v = refresh-Inv false _ v.alloc (Inv-Held app v)

  -- With no `refresh` under way another page of events may be asked for.
  other_page-Inv :
      (page : ℕ) (app : App W)
      → Inv app
      → refresh_live app ≡ false
      → Inv (load_events (record app { page = page }))
  other_page-Inv page app v idle =
      load_events-Inv (record app { page = page }) v.alloc
        (λ c t e r a. (v.current_events c t e r a).0) (Inv-NoRefresh app v idle) (v.content ∙ idle)
        (ground (arith, v.syncs))

  click_previous-Inv : (app : App W) → Inv app → Inv (click_previous app)
  unfolding click_previous
  click_previous-Inv app v =
      if_elim Inv app.previous_disabled (λ h. v)
        λ h.
          if_elim Inv (ltb 1 app.page)
            (λ g. other_page-Inv (pred app.page) app v (ground (arith, v.no_previous))) (λ g. v)

  click_next-Inv : (app : App W) → Inv app → Inv (click_next app)
  unfolding click_next
  click_next-Inv app v =
      if_elim Inv app.next_disabled (λ h. v)
        λ h.
          if_elim Inv (ltb app.page app.total_pages)
            (λ g. other_page-Inv (suc app.page) app v (ground (arith, v.no_next))) (λ g. v)

  module _ (lower : String → String) where
    searched-Inv : (q : Query) (app : App W) → Inv app → Inv (record app { search = q })
    searched-Inv q app v = record {
      alloc = v.alloc;
      current_refresh = v.current_refresh;
      current_events = v.current_events;
      content = v.content;
      events = v.events;
      exclusive = v.exclusive;
      syncs = v.syncs;
      no_previous = v.no_previous;
      no_next = v.no_next;
    }

    popstate_listener-Inv : (app : App W) → Inv app → Inv (popstate_listener lower app)
    unfolding popstate_listener
    popstate_listener-Inv app v =
        let filters = location_filters app.search in
        if_elim Inv
          (same_login lower filters.account app.account && str_eq filters.period app.period)
          (λ h. v) (λ h. refresh-Inv false (read_location app).0 v.alloc (Inv-Held app v))

    -- Whatever happens next, a click, a navigation, an answer of the server or the turn of a task, the
    -- invariant of the loading of data is kept.
    pub handle-Inv : (app : App W) (event : Event W) → Inv app → Inv (handle lower app event)
    unfolding handle
    handle-Inv app submit v =
        if_elim Inv app.syncing (λ h. v) (λ h. refresh-Inv true app v.alloc (Inv-Held app v))
    handle-Inv app (change_account login) v =
        if_elim Inv (any (str_eq login) app.options)
          (λ h. select_filters-Inv login app.period app v) (λ h. v)
    handle-Inv app (change_period period) v =
        if_elim Inv (any (str_eq period) periods) (λ h. select_filters-Inv app.account period app v)
          (λ h. v)
    handle-Inv app (popstate q) v = popstate_listener-Inv _ (searched-Inv q app v)
    handle-Inv app previous v = click_previous-Inv app v
    handle-Inv app next v = click_next-Inv app v
    handle-Inv app (settles c arrival) v = settle-Inv c arrival app v
    handle-Inv app (resumes c) v = resume-Inv lower c app v

  initial-Alloc : (q : Query) → Alloc (initial {W = W} q)
  initial-Alloc q = record {
    fresh = λ c h. (refl, refl);
    dashboard_below = tt;
    events_below = tt;
    distinct = λ c d e. cc;
    thrown_aborted = λ c t e h. cc;
    handled = refl;
  }

  pub start-Inv : (q : Query) → Inv (start {W = W} q)
  unfolding start
  start-Inv q =
      let r = read_location (initial {W = W} q) in
      if_elim {A = App W} (λ a. Inv (refresh false a)) r.1 {x = r.0}
        {y = record (r.0) { search = filter_query r.0.account r.0.period }}
        (λ h. refresh-Inv false _ (initial-Alloc q) (λ c t e a. cc))
        (λ h. refresh-Inv false _ (initial-Alloc q) (λ c t e a. cc))

  run-Inv :
      (lower : String → String) (events : List (Event W)) (app : App W)
      → Inv app
      → Inv (run lower app events)
  run-Inv lower [] app v = v
  run-Inv lower (e ∷ es) app v = run-Inv lower es (handle lower app e) (handle-Inv lower app e v)

  -- From the start of the page at any address, every sequence of events, in any order, leads to a state
  -- that satisfies the invariant `Inv`: a waiting task whose signal is not aborted is the latest `refresh`
  -- or the latest `loadEvents`, has the present `refreshID` and asks for the present filters (and page);
  -- `aria-busy` of the content is set exactly while such a `refresh` waits, and that of the events exactly
  -- while such a `refresh` or `loadEvents` waits, never both; while that `refresh` waits both page buttons
  -- are disabled; the page says "Syncing" only while it waits; and no rejection is left unhandled.
  pub run-start-Inv :
      (lower : String → String) (q : Query) (events : List (Event W))
      → Inv (run lower (start q) events)
  run-start-Inv lower q events = run-Inv lower events (start q) (start-Inv q)
