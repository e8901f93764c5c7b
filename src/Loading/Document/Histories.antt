-- ===== src/Loading/Document/Histories.antt =====
-- The listeners, the start of the page and every history: the document shows the filters.
use copilot_api_dashboard.Base.{
  ℕ, some, inl, inr, suc, String, true, false, List, [], ◌∷◌, none, ◌&&◌, ◌≡◌, refl, if_elim,
  str_eq, any, ltb,
}
use Prim.Native.Nat.{pred}
use copilot_api_dashboard.Filters.{Query, periods, filter_query, location_filters}
use copilot_api_dashboard.Filters.Roundtrip.{location_filters-is_period}
use copilot_api_dashboard.Accounts.{same_login}
use copilot_api_dashboard.Accounts.Select.{select_value-any}
use copilot_api_dashboard.Loading.{App, refresh}
use copilot_api_dashboard.Loading.Handlers.{
  Event, submit, change_account, change_period, popstate, previous, next, settles, resumes,
  set_filters, read_location, popstate_listener, click_previous, click_next, handle, initial, start,
  run,
}
use copilot_api_dashboard.Loading.Invariant.{Inv}
use copilot_api_dashboard.Loading.Preserve.Handling.{handle-Inv, start-Inv}
use copilot_api_dashboard.Loading.Document.{
  Document, refresh-Document, set_filters-Document, select_filters-Document, other_page-Document,
  settle-Document,
}
use copilot_api_dashboard.Loading.Document.Continuing.{resume-Document}
use copilot_api_dashboard.Loading.Document.Serving.{run-Traced, start-Traced}
use copilot_api_dashboard.Loading.Document.Traces.{page_query, AllHonest, Traced}
use copilot_api_dashboard.Model.{EventPage}

module _ {ℓ} {W : Type ℓ} where
  module _ (lower : String → String) where
    read-Document :
        (app : App W)
        → (app.shown_events ≡ none → app.shown_page ≡ none)
        → Document (refresh false (read_location app).0)
    unfolding read_location
    read-Document app o =
        let f = location_filters app.search in
        let p = location_filters-is_period app.search in
        refresh-Document false (set_filters f.account f.period app) p
          (set_filters-Document f.account f.period app p) (select_value-any f.period periods p) o

    popstate_listener-Document :
        (app : App W) → Document app → Document (popstate_listener lower app)
    unfolding popstate_listener
    popstate_listener-Document app d =
        let f = location_filters app.search in
        if_elim Document (same_login lower f.account app.account && str_eq f.period app.period)
          (λ h. d) (λ h. read-Document app d.owned)

    handle-Document :
        (app : App W) (event : Event W) → Inv app → Document app → Document (handle lower app event)
    unfolding handle click_previous click_next
    handle-Document app submit v d =
        if_elim Document app.syncing (λ h. d)
          (λ h. refresh-Document true app d.valid d.account_selected d.period_selected d.owned)
    handle-Document app (change_account login) v d =
        if_elim Document (any (str_eq login) app.options)
          (λ h. select_filters-Document login app.period app d.valid d) (λ h. d)
    handle-Document app (change_period period) v d =
        if_elim Document (any (str_eq period) periods)
          (λ h. select_filters-Document app.account period app h d) (λ h. d)
    handle-Document app (popstate q) v d =
        popstate_listener-Document (record app { search = q })
          (record {
            valid = d.valid;
            account_selected = d.account_selected;
            period_selected = d.period_selected;
            rows = d.rows;
            owned = d.owned;
          })
    handle-Document app previous v d =
        if_elim Document app.previous_disabled (λ h. d)
          λ h.
            if_elim Document (ltb 1 app.page) (λ g. other_page-Document (pred app.page) app d)
              (λ g. d)
    handle-Document app next v d =
        if_elim Document app.next_disabled (λ h. d)
          λ h.
            if_elim Document (ltb app.page app.total_pages)
              (λ g. other_page-Document (suc app.page) app d) (λ g. d)
    handle-Document app (settles c arrival) v d = settle-Document c arrival app d
    handle-Document app (resumes c) v d = resume-Document lower c app v d

    run-Document :
        (events : List (Event W)) (app : App W)
        → Inv app
        → Document app
        → Document (run lower app events)
    run-Document [] app v d = d
    run-Document (e ∷ es) app v d =
        run-Document es (handle lower app e) (handle-Inv lower app e v) (handle-Document app e v d)

    start-Document : (q : Query) → Document (start {W = W} q)
    unfolding start read_location
    start-Document q =
        let f = location_filters q in
        let p = location_filters-is_period q in
        if_elim {A = App W} (λ a. Document (refresh false a)) f.valid_period
          {x = set_filters f.account f.period (initial q)}
          {y = record (set_filters f.account f.period (initial q)) {
            search = filter_query f.account f.period;
          }}
          (λ h.
            refresh-Document false _ p
              (set_filters-Document f.account f.period (initial {W = W} q) p)
              (select_value-any f.period periods p) (λ _. refl))
          (λ h.
            refresh-Document false _ p
              (set_filters-Document f.account f.period (initial {W = W} q) p)
              (select_value-any f.period periods p) (λ _. refl))

    -- The page of events in the document is one that is served for the selected account and period.
    abbrev pub ShowsOwn : (Query → EventPage W → Type ℓ) → App W → Type ℓ
    ShowsOwn Served app =
        (d : EventPage W)
        → app.shown_page ≡ some d
        → (n : ℕ) × Served (page_query app.account app.period n) d

    own :
        (Served : Query → EventPage W → Type ℓ) (app : App W)
        → Document app
        → Traced Served app
        → app.content_busy ≡ false
        → ShowsOwn Served app
    own Served app doc h idle d p = elim (doc.rows idle) [
      | inl e ↦ cc (doc.owned e)
      | inr e ↦ h.1 app.account app.period d e p
    ]

    -- After every sequence of events, from the start of the page at any address, the period is one of the
    -- list, both selectors show the filters, and unless the content is busy the events table is empty or
    -- shows events of the selected account and period: its label says so, and if each answer to a waiting request
    -- for events has a page that is served for that request's query, then the page that is shown is one that is
    -- served for a query for the events of the selected account and period.
    pub run-start-Document :
        (Served : Query → EventPage W → Type ℓ) (q : Query) (events : List (Event W))
        → AllHonest Served lower (start q) events
        → Document (run lower (start q) events)
          × ((run lower (start q) events).content_busy ≡ false
              → ShowsOwn Served (run lower (start q) events))
    run-start-Document Served q events honest =
        let doc = run-Document events (start q) (start-Inv q) (start-Document q) in
        (
          doc,
          own Served (run lower (start q) events) doc (
              run-Traced Served lower events (start q) (start-Inv q) honest
                (start-Traced Served q)),
        )
