-- ===== src/Loading/Document.antt =====
-- What the document shows of the filters: the selectors, and whose events stand in the table.
pub mod Continuing
pub mod Histories
pub mod Serving
pub mod Traces
use copilot_api_dashboard.Base.{
  ℕ, suc, String, Bool, true, false, List, [], ◌∷◌, Option, none, some, ◌&&◌, not, ◌≡◌, ◌==◌, arith,
  refl, sym, ◌∙◌, ◌⊎◌, inl, inr, Option-cases, if_elim, str_eq, any, ltb, eq_iff,
}
use Prim.Native.Nat.{pred}
use copilot_api_dashboard.Model.{SourceError, Dashboard, EventPage}
use copilot_api_dashboard.Request.{returned, thrown, Envelope}
use copilot_api_dashboard.Filters.{Query, periods, is_period, filter_query, location_filters}
use copilot_api_dashboard.Filters.Roundtrip.{location_filters-is_period}
use copilot_api_dashboard.Accounts.{has_login, same_login}
use copilot_api_dashboard.Accounts.Select.{
  select_value-add_option, select_value-any, select_value-canonical,
}
use copilot_api_dashboard.Loading.{
  Stage, sync_sent, sync_replied, dashboard_sent, dashboard_replied, events_sent, events_replied,
  Task, App, reset_events, render_events, render_errors, load_events, refresh,
}
use copilot_api_dashboard.Loading.Tasks.{
  Arrival, settle, settle_task, is_stale, finish_refresh, finish_events, show_events, start_events,
  show_usage, show_dashboard, accounts_of, continue_sync, continue_dashboard, continue_events,
  continue_task, resume,
}
use copilot_api_dashboard.Loading.Handlers.{
  Event, submit, change_account, change_period, popstate, previous, next, settles, resumes,
  set_filters, select_filters, read_location, popstate_listener, click_previous, click_next, handle,
  initial, start, run,
}
use copilot_api_dashboard.Loading.Invariant.{has_thrown, Inv}
use copilot_api_dashboard.Loading.Preserve.Stale.{finish_refresh_stale, stale_task}
use copilot_api_dashboard.Loading.Preserve.Quieting.{retire}
use copilot_api_dashboard.Loading.Preserve.Handling.{handle-Inv, start-Inv}

-- The table of events is empty, or holds events of this account and period.
abbrev pub RowsOf : Option (String × String) → String → String → Type 0
RowsOf shown account period = (shown ≡ none) ⊎ (shown ≡ some (account, period))

module _ {ℓ} {W : Type ℓ} where
  pub record Document (app : App W) : Type ℓ where
    -- the filters and the selectors agree
    pub valid : is_period app.period ≡ true
    pub account_selected : app.account_value ≡ app.account
    pub period_selected : app.period_value ≡ app.period
    -- while nothing is loading, the table shows no other account's or period's events, and it shows rows
    -- only when it knows whose they are
    pub rows : app.content_busy ≡ false → RowsOf app.shown_events app.account app.period
    pub owned : app.shown_events ≡ none → app.shown_page ≡ none

  pub refresh-Document :
      (sync : Bool) (app : App W)
      → is_period app.period ≡ true
      → app.account_value ≡ app.account
      → app.period_value ≡ app.period
      → (app.shown_events ≡ none → app.shown_page ≡ none)
      → Document (refresh sync app)
  unfolding refresh
  refresh-Document sync app p a b o = record {
    valid = p;
    account_selected = a;
    period_selected = b;
    rows = λ h. cc;
    owned = o;
  }

  pub set_filters-Document :
      (account period : String) (app : App W)
      → is_period period ≡ true
      → (set_filters account period app).account_value ≡ account
  unfolding set_filters
  set_filters-Document account period app p = select_value-add_option account app.options

  pub select_filters-Document :
      (account period : String) (app : App W)
      → is_period period ≡ true
      → Document app
      → Document (select_filters account period app)
  unfolding select_filters
  select_filters-Document account period app p d =
      refresh-Document false _ p (set_filters-Document account period app p)
        (select_value-any period periods p) d.owned

  pub load_events-Document : (app : App W) → Document app → Document (load_events app)
  unfolding load_events
  load_events-Document app d = record {
    valid = d.valid;
    account_selected = d.account_selected;
    period_selected = d.period_selected;
    rows = d.rows;
    owned = d.owned;
  }

  pub other_page-Document :
      (page : ℕ) (app : App W) → Document app → Document (load_events (record app { page = page }))
  unfolding load_events
  other_page-Document page app d = record {
    valid = d.valid;
    account_selected = d.account_selected;
    period_selected = d.period_selected;
    rows = d.rows;
    owned = d.owned;
  }

  pub settle-Document :
      (c : ℕ) (arrival : Arrival W) (app : App W) → Document app → Document (settle c arrival app)
  unfolding settle settle_task
  settle-Document c arrival app d = elim (Option-cases (app.tasks c)) [
    | inl e ↦ rw (e, settle) d
    | inr (t, e) ↦
        rw (e, settle)
          (record {
            valid = d.valid;
            account_selected = d.account_selected;
            period_selected = d.period_selected;
            rows = d.rows;
            owned = d.owned;
          })
  ]
