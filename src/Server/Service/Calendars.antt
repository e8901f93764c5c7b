-- ===== src/Server/Service/Calendars.antt =====
-- The days of a response, from the snapshots of the accounts.
use copilot_api_dashboard.Base.{
  ℕ, ◌≤◌, String, Bool, Option, none, some, List, [], ◌∷◌, ◌++◌, if◌then◌else◌, ◌≡◌, refl, sym, ap,
  ◌∙◌, append-nil, Bool-cases, inl, inr,
}
use copilot_api_dashboard.Server.{UpstreamDay, Day, or_empty, merge_day}
use copilot_api_dashboard.Server.Keyed.Sorted.{Ascending-Distinct}
use copilot_api_dashboard.Server.Service.Merged.{
  IsMerged, merge_days-IsCalendar, merge_days-IsMerged,
}
use copilot_api_dashboard.Server.Fill.{Dates, today_of, fill_days}
use copilot_api_dashboard.Server.Fill.Filled.{IsDates}
use copilot_api_dashboard.Server.Fill.Spans.{IsShownFor, fill_days_lem}
use copilot_api_dashboard.Server.Service.Reports.{loaded_period}
use copilot_api_dashboard.Server.Service.{
  Failure, Resolved, Response, Loaded, failed, no_snapshot, snapshot, Progress, merge_days,
  is_other, add_loaded, add_account, add_accounts, canonical_account, start_response,
  persisted_dashboard,
}

-- What a load adds to the days that have been loaded; `none` if there has been no snapshot.
abbrev pub with_load {ℓ} :
    {F : Type ℓ} → Loaded F → Option (List (UpstreamDay F)) → Option (List (UpstreamDay F))
with_load (failed message) rest = rest
with_load no_snapshot rest = rest
with_load (snapshot days) rest = some (days ++ or_empty rest)

-- The days that are loaded for the accounts that are asked for, one after another.
abbrev pub loaded_days {ℓ} :
    {F Q : Type ℓ}
    → (String → String → Bool)
    → (String → String → String → String → Loaded F)
    → String
    → String
    → List (Resolved Q)
    → Option (List (UpstreamDay F))
loaded_days equal_fold load_daily period login [] = none
loaded_days equal_fold load_daily period login (a ∷ rest) =
    let later = loaded_days equal_fold load_daily period login rest in
    if is_other equal_fold login a
    then later
    else with_load (load_daily a.endpoint.name a.endpoint.url a.usage.login period) later

-- Days that are merged into those of a response.
abbrev merged_into {ℓ} :
    {F : Type ℓ}
    → (ℕ → F)
    → Option (List (Day F))
    → Option (List (UpstreamDay F))
    → Option (List (Day F))
merged_into amount_of dst none = dst
merged_into amount_of dst (some days) = some (merge_days amount_of (or_empty dst) days)

-- The days that are shown of those that were loaded.
abbrev pub IsShown {ℓ} :
    {F : Type ℓ}
    → Dates
    → (ℕ → ℕ)
    → String
    → ℕ
    → Option (List (UpstreamDay F))
    → Option (List (Day F))
    → Type ℓ
IsShown t midnight period today none shown = shown ≡ none
IsShown t midnight period today (some days) shown =
    (merged : List (Day _)) × (filled : List (Day _)) × (shown ≡ some filled)
    × IsMerged days merged
    × IsShownFor t midnight period today merged filled

module _ {ℓ} {F : Type ℓ} (amount_of : ℕ → F) where
  merge_days-append :
      (dst : List (Day F)) (xs ys : List (UpstreamDay F))
      → merge_days amount_of dst (xs ++ ys) ≡ merge_days amount_of (merge_days amount_of dst xs) ys
  unfolding merge_days
  merge_days-append dst [] ys = refl
  merge_days-append dst (x ∷ xs) ys = merge_days-append (merge_day amount_of dst x) xs ys

  merged_twice :
      (dst : Option (List (Day F))) (days : List (UpstreamDay F))
      (rest : Option (List (UpstreamDay F)))
      → merged_into amount_of (some (merge_days amount_of (or_empty dst) days)) rest
        ≡ merged_into amount_of dst (some (days ++ or_empty rest))
  merged_twice dst days none =
      ap (λ l. some (merge_days amount_of (or_empty dst) l)) (sym (append-nil days))
  merged_twice dst days (some more) = ap some (sym (merge_days-append (or_empty dst) days more))

  module _ {Q : Type ℓ} (to_lower aliases : String → String) (equal_fold : String → String → Bool)
      (load_daily : String → String → String → String → Loaded F) where
    loaded_into :
        (a : Resolved Q) (r : Response F Q) (l : Loaded F) (rest : Option (List (UpstreamDay F)))
        → merged_into amount_of (add_loaded amount_of to_lower aliases a r l).days rest
          ≡ merged_into amount_of r.days (with_load l rest)
    unfolding add_loaded
    loaded_into a r (failed message) rest = refl
    loaded_into a r no_snapshot rest = refl
    loaded_into a r (snapshot days) rest = merged_twice r.days days rest

    round_period :
        (login : String) (p : Progress F Q) (a : Resolved Q)
        → (add_account amount_of to_lower aliases equal_fold load_daily login p a).response.period
          ≡ p.response.period
    unfolding add_account
    round_period login p a = elim (Bool-cases (is_other equal_fold login a)) [
      | inl e ↦ rw e refl
      | inr e ↦ rw e (
          loaded_period to_lower aliases equal_fold load_daily amount_of a
            (canonical_account login a p.response) _)
    ]

    round_days :
        (period login : String) (p : Progress F Q) (a : Resolved Q)
        (later : Option (List (UpstreamDay F)))
        → p.response.period ≡ period
        → merged_into amount_of
            ((add_account amount_of to_lower aliases equal_fold load_daily login p a).response.days)
            later
          ≡ merged_into amount_of p.response.days (
              if is_other equal_fold login a
              then later
              else with_load (load_daily a.endpoint.name a.endpoint.url a.usage.login period) later)
    unfolding add_account
    round_days period login p a later h = elim (Bool-cases (is_other equal_fold login a)) [
      | inl e ↦ rw e refl
      | inr e ↦
          let load = load_daily a.endpoint.name a.endpoint.url a.usage.login in
          rw e (
            loaded_into a (canonical_account login a p.response) (load p.response.period) later
            ∙ ap (λ q. merged_into amount_of p.response.days (with_load (load q) later)) h)
    ]

    -- The loop merges all that is loaded.
    rounds :
        (period login : String) (p : Progress F Q) (accounts : List (Resolved Q))
        → p.response.period ≡ period
        → let q = add_accounts amount_of to_lower aliases equal_fold load_daily login p accounts in
          (q.response.period ≡ period)
          × (q.response.days
              ≡ merged_into amount_of p.response.days
                  (loaded_days equal_fold load_daily period login accounts))
    unfolding add_accounts
    rounds period login p [] h = (h, refl)
    rounds period login p (a ∷ rest) h =
        let q = add_account amount_of to_lower aliases equal_fold load_daily login p a in
        let (same, days) = rounds period login q rest (round_period login p a ∙ h) in
        (
          same,
          days
              ∙ round_days period login p a (loaded_days equal_fold load_daily period login rest) h,
        )

    -- In a location whose midnights are never skipped, for every `now` of the day `today`, that is at least
    -- thirty days after the first one and not after the last whose text is in its order: the days of the response
    -- are those of the snapshots of the accounts that were asked for, with one day for each of their dates that
    -- has the sum of each number over its days, filled from the first day of the period to today; and there are
    -- none if there is no snapshot.
    pub persisted_dashboard-IsShown :
        (t : Dates) (midnight : ℕ → ℕ) (last now today : ℕ) (accounts : List (Resolved Q))
        (failures : List Failure) (period login : String)
        → IsDates t midnight last
        → today_of t now ≡ midnight today
        → 30 ≤ today
        → today ≤ last
        → IsShown t midnight period today
            (loaded_days equal_fold load_daily period login accounts)
            ((persisted_dashboard amount_of to_lower aliases equal_fold load_daily t now accounts
              failures period login).response.days)
    unfolding persisted_dashboard fill_days
    persisted_dashboard-IsShown t midnight last now today accounts failures period login h at early
          late =
        let (same, days) =
          rounds period login (start_response failures period login) accounts refl in
        rw (same, days) (filled (loaded_days equal_fold load_daily period login accounts))
      where
        filled :
            (o : Option (List (UpstreamDay F)))
            → IsShown t midnight period today o
                (fill_days t (merged_into amount_of none o) period now)
        filled none = refl
        filled (some ds) =
            let merged = merge_days amount_of [] ds in
            let calendar =
              merge_days-IsCalendar amount_of [] ds (record { ascending = tt; summed = tt }) in
            let (out, run, first) =
              fill_days_lem t midnight last h period now today merged at early late
                (Ascending-Distinct (λ d. d.date) merged calendar.ascending) in
            (merged, out, run, merge_days-IsMerged amount_of ds, first)
