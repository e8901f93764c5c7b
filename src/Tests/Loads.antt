-- ===== src/Tests/Loads.antt =====
-- Histories of the page.
use copilot_api_dashboard.Base.{
  ℕ, String, Bool, if◌then◌else◌, str_eq, subst, true, false, none, some, List, [], ◌∷◌, ◌≡◌, refl,
}
use copilot_api_dashboard.Model.{Account, Dashboard, EventPage}
use copilot_api_dashboard.Request.{Settled, rejected, response, object, Envelope, returned, request}
use copilot_api_dashboard.Filters.{Query, get, or_else, location_filters}
use copilot_api_dashboard.Accounts.{canonical, account_options, has_login}
use copilot_api_dashboard.Loading.{
  App, Task, events_sent, dashboard_replied, update, target_of, load_events, reset_events,
  render_errors, refresh,
}
use copilot_api_dashboard.Loading.Tasks.{
  dashboard_arrival, sync_arrival, events_arrival, settle, settle_task, resume, show_dashboard,
}
use copilot_api_dashboard.Loading.Handlers.{
  Event, submit, previous, settles, resumes, handle, start, run,
}
use copilot_api_dashboard.Loading.Invariant.{Inv}
use copilot_api_dashboard.Loading.Preserve.Handling.{start-Inv, run-start-Inv}
use copilot_api_dashboard.Loading.Preserve.Stale.{resume_stale}
use copilot_api_dashboard.Loading.Progress.{Loaded, answer, refresh_completes, sync_completes}
use copilot_api_dashboard.Loading.Progress.Events.{EventsLoaded, load_events_completes}
use copilot_api_dashboard.Loading.Document.{Document}
use copilot_api_dashboard.Loading.Document.Histories.{ShowsOwn, run-start-Document}
use copilot_api_dashboard.Loading.Document.Traces.{page_query}

abbrev same_text : String → String
same_text s = s

abbrev ann : Account ℕ
ann = record {
  login = "Ann";
  display_name = none;
  copilot_plan = none;
  quota_reset_date = none;
  premium_interactions = none;
  chat = none;
  completions = none;
  totals = none;
}

abbrev one_account : Dashboard ℕ
one_account = record { accounts = some (ann ∷ []); totals = none; days = none; by_model = none }

abbrev answered : Settled (Dashboard ℕ)
answered = response 200 (some (object (some []) (some (some one_account))))

abbrev at_ann : Query
at_ann = ("account", "Ann") ∷ []

-- The first answer comes too late: Refresh was clicked before its task went on.
abbrev overtaken_events : List (Event ℕ)
overtaken_events = settles 0 (dashboard_arrival answered) ∷ submit ∷ []

abbrev overtaken : App ℕ
overtaken = run same_text (start at_ann) overtaken_events

abbrev late : Task ℕ
late = record {
  id = 1;
  target = "Ann";
  query = ("period", "last_30_days") ∷ ("account", "Ann") ∷ [];
  stage = dashboard_replied [] (returned (record { payload = some one_account; errors = [] }));
}

run-start-Inv_example : Inv (
    run same_text
      (start {W = ℕ} at_ann)
      (settles 0 (dashboard_arrival answered) ∷ resumes 0 ∷ previous ∷ []))
run-start-Inv_example =
    run-start-Inv same_text at_ann
      (settles 0 (dashboard_arrival answered) ∷ resumes 0 ∷ previous ∷ [])

resume_stale_example :
    resume same_text 0 overtaken ≡ record overtaken { tasks = update overtaken.tasks 0 none }
unfolding handle start refresh settle settle_task request location_filters
resume_stale_example =
    resume_stale same_text 0 late overtaken (run-start-Inv same_text at_ann overtaken_events) refl
      refl refl

refresh_completes_example :
    (e : Envelope (Dashboard ℕ)) × (request
        (target_of (start {W = ℕ} at_ann))
        "dashboard"
        false
        answered
      ≡ returned e)
    × Loaded same_text [] e (
        answer same_text
          (start {W = ℕ} at_ann).next_controller
          (dashboard_arrival answered)
          (refresh false (start at_ann)))
refresh_completes_example = refresh_completes same_text (start at_ann) answered (start-Inv at_ann)

sync_completes_example :
    (e : Envelope (Unit {0})) × (f : Envelope (Dashboard ℕ)) × (request
        (target_of (start {W = ℕ} at_ann))
        "sync"
        false
        rejected
      ≡ returned e)
    × (request (target_of (start {W = ℕ} at_ann)) "dashboard" false answered ≡ returned f)
    × Loaded same_text e.errors f (
        answer same_text (start {W = ℕ} at_ann).next_controller (dashboard_arrival answered) (
          answer same_text
            (start {W = ℕ} at_ann).next_controller
            (sync_arrival rejected)
            (refresh true (start at_ann))))
sync_completes_example =
    sync_completes same_text (start at_ann) rejected answered (start-Inv at_ann)

-- After the answer the account's dashboard stands on the page, and its events are asked for.
loaded_run :
    (run same_text
      (start {W = ℕ} at_ann)
      (settles 0 (dashboard_arrival answered) ∷ resumes 0 ∷ [])).content_busy
    ≡ false
unfolding handle start refresh settle settle_task request location_filters resume show_dashboard
    render_errors canonical account_options has_login load_events reset_events
loaded_run = refl

abbrev page_two : Settled (EventPage ℕ)
page_two = response 200 (
    some (
      object (some [])
        (some (some (record { page = 2; total_pages = 3; total = 41; items = [] })))))

abbrev loaded_events : List (Event ℕ)
loaded_events = settles 0 (dashboard_arrival answered) ∷ resumes 0 ∷ []

load_events_completes_example :
    (e : Envelope (EventPage ℕ)) × (request
        (target_of (run same_text (start at_ann) loaded_events))
        "events"
        false
        page_two
      ≡ returned e)
    × EventsLoaded same_text (run same_text (start at_ann) loaded_events) e (
        answer same_text
          (run same_text (start {W = ℕ} at_ann) loaded_events).next_controller
          (events_arrival page_two)
          (load_events (run same_text (start at_ann) loaded_events)))
load_events_completes_example =
    load_events_completes same_text (run same_text (start at_ann) loaded_events) page_two
      (run-start-Inv same_text at_ann loaded_events)

-- A server that has 41 events of the account Ann, and none of others.
abbrev server : Query → EventPage ℕ
server q = record {
  page = 2;
  total_pages = 3;
  total = if str_eq (or_else (get "account" q) "") "Ann" then 41 else 0;
  items = [];
}

abbrev asked : Task ℕ
asked = record {
  id = 1;
  target = "Ann";
  query = page_query "Ann" "last_30_days" 1;
  stage = events_sent;
}

asked_by :
    (t : Task ℕ) → (run same_text (start {W = ℕ} at_ann) loaded_events).tasks 1 ≡ some t → asked ≡ t
unfolding handle start refresh settle settle_task request location_filters resume show_dashboard
    render_errors canonical account_options has_login load_events reset_events
asked_by t at = some_injective at
  where
    some_injective : some asked ≡ some t → asked ≡ t
    some_injective h = cc

page_of :
    (aborted : Bool) (target : String) (e : Envelope (EventPage ℕ)) (d : EventPage ℕ)
    → request target "events" aborted page_two ≡ returned e
    → e.payload ≡ some d
    → server asked.query ≡ d
unfolding request get
page_of aborted target e d r p = cc

abbrev shown_run : List (Event ℕ)
shown_run =
    settles 0 (dashboard_arrival answered)
    ∷ resumes 0
    ∷ settles 1 (events_arrival page_two)
    ∷ resumes 1
    ∷ []

run-start-Document_example :
    Document (run same_text (start at_ann) shown_run)
    × ((run same_text (start at_ann) shown_run).content_busy ≡ false
        → ShowsOwn same_text (λ q d. server q ≡ d) (run same_text (start at_ann) shown_run))
run-start-Document_example =
    run-start-Document same_text (λ q d. server q ≡ d) at_ann shown_run
      (
        tt,
        (
          tt,
          (
            (λ t e d at r p. subst (λ u. server u.query ≡ d) (asked_by t at) (page_of _ _ e d r p)),
            (tt, tt),
          ),
        ),
      )
