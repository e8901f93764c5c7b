-- ===== src/Loading/Invariant.antt =====
-- The invariant of the loading of data: which tasks may still change the page, and what the document says
-- of them while they wait.
use copilot_api_dashboard.Base.{
  ℕ, Bool, true, false, Option, none, some, ◌&&◌, ◌||◌, not, ◌≡◌, ◌≤◌, ◌<◌, if◌then◌else◌, arith,
  refl, ◌≢◌, sym, ap₂, ◌∙◌, ◌⊎◌, inl, inr, Bool-cases, Option-cases,
}
use copilot_api_dashboard.Request.{is_thrown}
use copilot_api_dashboard.Loading.{
  Stage, sync_replied, dashboard_replied, events_sent, events_replied, Task, App, dashboard_query,
  events_query,
}

abbrev pub Below : Option ℕ → ℕ → Type 0
Below none n = Unit
Below (some c) n = c < n

module _ {ℓ} {W : Type ℓ} where
  -- A waiting `refresh`, rather than a waiting `loadEvents`.
  unfoldable pub is_refresh : Stage W → Bool
  is_refresh events_sent = false
  is_refresh (events_replied o) = false
  is_refresh stage = true

  -- Its request has thrown.
  unfoldable pub has_thrown : Stage W → Bool
  has_thrown (sync_replied o) = is_thrown o
  has_thrown (dashboard_replied es o) = is_thrown o
  has_thrown (events_replied o) = is_thrown o
  has_thrown stage = false

  -- The task of a controller waits, is a `refresh` (or not), and its signal is not aborted.
  abbrev pub is_live : Bool → App W → ℕ → Bool
  is_live kind app c = elim (app.tasks c) [
    | none ↦ false
    | some t ↦
        (if kind then is_refresh t.stage else not (is_refresh t.stage)) && not (app.aborted c)
  ]

  abbrev pub holds_live : Bool → App W → Option ℕ → Bool
  holds_live kind app none = false
  holds_live kind app (some c) = is_live kind app c

  -- There is a `refresh` under way that will still change the page.
  abbrev pub refresh_live : App W → Bool
  refresh_live app = holds_live true app app.dashboard_controller

  abbrev pub events_live : App W → Bool
  events_live app = holds_live false app app.events_controller

  -- The controllers, their signals and their tasks, whatever the filters and the document are.
  pub record Slots (aborted : ℕ → Bool) (tasks : ℕ → Option (Task W)) (next : ℕ)
      (dashboard events : Option ℕ) (unhandled : Bool) : Type ℓ where
    -- controllers are new when they are made
    pub fresh : (c : ℕ) → next ≤ c → (tasks c ≡ none) × (aborted c ≡ false)
    pub dashboard_below : Below dashboard next
    pub events_below : Below events next
    pub distinct : (c : ℕ) → dashboard ≡ some c → events ≢ some c
    -- a request throws only when its signal is aborted
    pub thrown_aborted :
        (c : ℕ) (t : Task W) → tasks c ≡ some t → has_thrown t.stage ≡ true → aborted c ≡ true
    pub handled : unhandled ≡ false

  abbrev pub Alloc : App W → Type ℓ
  Alloc app =
      Slots app.aborted app.tasks app.next_controller app.dashboard_controller app.events_controller
        app.unhandled

  -- A task whose signal is not aborted has one of the two controllers that the page holds.
  abbrev pub Held : App W → Type ℓ
  Held app =
      (c : ℕ) (t : Task W)
      → app.tasks c ≡ some t
      → app.aborted c ≡ false
      → (app.dashboard_controller ≡ some c) ⊎ (app.events_controller ≡ some c)

  abbrev pub HeldEvents : App W → Type ℓ
  HeldEvents app =
      (c : ℕ) (t : Task W)
      → app.tasks c ≡ some t
      → is_refresh t.stage ≡ false
      → app.aborted c ≡ false
      → app.events_controller ≡ some c

  -- Every waiting `refresh` is aborted.
  abbrev pub NoRefresh : App W → Type ℓ
  NoRefresh app =
      (c : ℕ) (t : Task W) → app.tasks c ≡ some t → is_refresh t.stage ≡ true → app.aborted c ≡ true

  -- Every waiting task is aborted.
  abbrev pub Quiet : App W → Type ℓ
  Quiet app = (c : ℕ) (t : Task W) → app.tasks c ≡ some t → app.aborted c ≡ true

  pub record Inv (app : App W) : Type ℓ where
    pub alloc : Alloc app
    -- a task whose signal is not aborted is the latest of its kind, and asks for the present filters
    pub current_refresh :
        (c : ℕ) (t : Task W)
        → app.tasks c ≡ some t
        → is_refresh t.stage ≡ true
        → app.aborted c ≡ false
        → (app.dashboard_controller ≡ some c)
          × (t.id ≡ app.refresh_id)
          × (t.query ≡ dashboard_query app)
    pub current_events :
        (c : ℕ) (t : Task W)
        → app.tasks c ≡ some t
        → is_refresh t.stage ≡ false
        → app.aborted c ≡ false
        → (app.events_controller ≡ some c) × (t.id ≡ app.refresh_id) × (t.query ≡ events_query app)
    -- what the document says
    pub content : app.content_busy ≡ refresh_live app
    pub events : app.events_busy ≡ (refresh_live app || events_live app)
    pub exclusive : refresh_live app ≡ true → events_live app ≡ false
    pub syncs : app.syncing ≡ true → refresh_live app ≡ true
    pub no_previous : refresh_live app ≡ true → app.previous_disabled ≡ true
    pub no_next : refresh_live app ≡ true → app.next_disabled ≡ true

  pub Inv-Held : (app : App W) → Inv app → Held app
  Inv-Held app v c t e a = elim (Bool-cases (is_refresh t.stage)) [
    | inl k ↦ inl (v.current_refresh c t e k a).0
    | inr k ↦ inr (v.current_events c t e k a).0
  ]

  -- The task that is held makes its kind live.
  is_live_lem :
      (kind : Bool) (app : App W) (c : ℕ) (t : Task W)
      → app.tasks c ≡ some t
      → is_refresh t.stage ≡ kind
      → app.aborted c ≡ false
      → is_live kind app c ≡ true
  is_live_lem kind app c t e k a = ground arith

  pub refresh_live_lem :
      (app : App W) (c : ℕ) (t : Task W)
      → Inv app
      → app.tasks c ≡ some t
      → is_refresh t.stage ≡ true
      → app.aborted c ≡ false
      → refresh_live app ≡ true
  refresh_live_lem app c t v e k a =
      rw ((v.current_refresh c t e k a).0) (is_live_lem true app c t e k a)

  pub events_live_lem :
      (app : App W) (c : ℕ) (t : Task W)
      → Inv app
      → app.tasks c ≡ some t
      → is_refresh t.stage ≡ false
      → app.aborted c ≡ false
      → events_live app ≡ true
  events_live_lem app c t v e k a =
      rw ((v.current_events c t e k a).0) (is_live_lem false app c t e k a)

  pub Inv-NoRefresh : (app : App W) → Inv app → refresh_live app ≡ false → NoRefresh app
  Inv-NoRefresh app v idle c t e k = elim (Bool-cases (app.aborted c)) [
    | inl a ↦ a
    | inr a ↦ cc (refresh_live_lem app c t v e k a)
  ]

  pub NoRefresh-is_live : (app : App W) → NoRefresh app → (c : ℕ) → is_live true app c ≡ false
  NoRefresh-is_live app idle c = elim (Option-cases (app.tasks c)) [
    | inl e ↦ ground arith
    | inr (t, e) ↦ ground (arith, idle c t e)
  ]

  -- Other tasks for the same controllers, of which the same are live, keep the invariant.
  module _ (app : App W) (ts : ℕ → Option (Task W)) where
    abbrev pub retask : App W
    retask = record app { tasks = ts }

    module _ (same : (kind : Bool) (k : ℕ) → is_live kind retask k ≡ is_live kind app k)
        (v : Inv app) where
      same_holder : (kind : Bool) (o : Option ℕ) → holds_live kind retask o ≡ holds_live kind app o
      same_holder kind none = refl
      same_holder kind (some k) = same kind k

      pub retask-Inv :
          Alloc retask
          → ((c : ℕ) (t : Task W)
              → ts c ≡ some t
              → app.aborted c ≡ false
              → (u : Task W) × (app.tasks c ≡ some u)
                × (is_refresh u.stage ≡ is_refresh t.stage)
                × (u.id ≡ t.id)
                × (u.query ≡ t.query))
          → Inv retask
      retask-Inv w from =
          let refreshing = same_holder true app.dashboard_controller in
          let loading = same_holder false app.events_controller in
          record {
            alloc = w;
            current_refresh = λ c t e k a.
                let (u, at, kind, i, q) = from c t e a in
                let (d, j, r) = v.current_refresh c u at (kind ∙ k) a in (d, sym i ∙ j, sym q ∙ r);
            current_events = λ c t e k a.
                let (u, at, kind, i, q) = from c t e a in
                let (d, j, r) = v.current_events c u at (kind ∙ k) a in (d, sym i ∙ j, sym q ∙ r);
            content = v.content ∙ sym refreshing;
            events = v.events ∙ sym (ap₂ (◌||◌) refreshing loading);
            exclusive = λ h. loading ∙ v.exclusive (sym refreshing ∙ h);
            syncs = λ h. refreshing ∙ v.syncs h;
            no_previous = λ h. v.no_previous (sym refreshing ∙ h);
            no_next = λ h. v.no_next (sym refreshing ∙ h);
          }
