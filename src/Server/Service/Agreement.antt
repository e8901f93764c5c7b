-- ===== src/Server/Service/Agreement.antt =====
-- The totals and the days of a response, number by number.
use copilot_api_dashboard.Base.{
  ℕ, zero, suc, ◌%◌, String, Bool, true, false, Option, none, some, List, [], ◌∷◌, ◌++◌, leb,
  if◌then◌else◌, ◌≡◌, refl, sym, ap, arith, ◌∙◌, Bool-cases, inl, inr,
}
use copilot_api_dashboard.Server.{
  word, add64, Totals, UpstreamDay, Day, or_empty, zero_totals, add_totals, merge_day,
}
use copilot_api_dashboard.Server.Fill.{
  Dates, today_of, blank_day, is_left, is_known, or_days, fill_from, fill_fuel, start_of, fill_days,
}
use copilot_api_dashboard.Server.Numbers.{
  Number, number_of, number_of-zero, number_of-add_totals, sum, sum-word, sum-append, sum-sort,
  sum-merge_day,
}
use copilot_api_dashboard.Server.Service.{
  Failure, Resolved, Response, Loaded, failed, no_snapshot, snapshot, Progress, or_zero_totals,
  sum_totals, merge_days, summarize_days, is_other, add_loaded, add_account, add_accounts,
  canonical_account, start_response, persisted_dashboard,
}

-- The sum of a number over days.
abbrev pub over_days {ℓ} : {F : Type ℓ} → Number → List (Day F) → ℕ
over_days n ds = sum (λ d. number_of n d.totals) ds

-- Totals and days are both there and agree on a number, or both missing.
abbrev pub Agree {ℓ} : {F : Type ℓ} → Number → Option (Totals F) → Option (List (Day F)) → Type 0
Agree n none none = Unit
Agree n none (some ds) = ⊥
Agree n (some t) none = ⊥
Agree n (some t) (some ds) = number_of n t ≡ over_days n ds

module _ {ℓ} (F : Type ℓ) (n : Number) where
  one_round :
      (known : Bool) (key : String) (days : List (Day F))
      → over_days n (if known then days else days ++ blank_day key ∷ []) ≡ over_days n days
  one_round true key days = refl
  one_round false key days =
      sum-append (λ d. number_of n d.totals) days (blank_day key ∷ [])
      ∙ rw (number_of-zero F n) (grind (arith, sum-word (λ (d : Day F). number_of n d.totals) days))

  -- Whatever the loop returns, it has added nothing.
  loop-sum :
      (t : Dates) (fuel at today : ℕ) (known : String → Bool) (before days : List (Day F))
      → over_days n days ≡ over_days n before
      → over_days n (or_days before (fill_from t fuel at today known days)) ≡ over_days n before
  unfolding fill_from
  loop-sum t zero at today known before days h = refl
  loop-sum t (suc fuel) at today known before days h = elim (Bool-cases (leb at today)) [
    | inl e ↦ rw e (
        loop-sum t fuel (t.add_days at 1) today known before _
          (one_round (known (t.format at)) (t.format at) days ∙ h))
    | inr e ↦ rw e (sum-sort {A = Day F} (λ d. d.date) (λ d. number_of n d.totals) days ∙ h)
  ]

  -- The blank days add nothing.
  filled_sum :
      (t : Dates) (period : String) (now : ℕ) (totals : Option (Totals F))
      (days : Option (List (Day F)))
      → Agree n totals days
      → Agree n totals (fill_days t days period now)
  unfolding fill_days
  filled_sum t period now totals none h = h
  filled_sum t period now none (some days) h = absurd h
  filled_sum t period now (some totals) (some days) h = elim (Bool-cases (is_left period days)) [
    | inl e ↦ rw e h
    | inr e ↦ rw e (by_start (start_of t period (today_of t now) days))
  ]
    where
      by_start :
          (o : Option ℕ)
          → Agree n (some totals) (elim o [
            | none ↦ some days
            | some start ↦ some (
                or_days days (
                  fill_from t
                    (fill_fuel start (today_of t now))
                    start
                    (today_of t now)
                    (is_known days)
                    days))
          ])
      by_start none = h
      by_start (some start) =
          h
          ∙ sym (
              loop-sum t (fill_fuel start (today_of t now)) start (today_of t now) (is_known days)
                days days refl)

  module _ (amount_of : ℕ → F) where
    over_upstream : List (UpstreamDay F) → ℕ
    over_upstream ds = sum (λ d. number_of n d.totals) ds

    number_of-sum_totals :
        (t : Totals F) (ds : List (UpstreamDay F))
        → number_of n (sum_totals amount_of t ds) % word ≡ add64 (number_of n t) (over_upstream ds)
    unfolding sum_totals over_upstream
    number_of-sum_totals t [] = omega arith
    number_of-sum_totals t (d ∷ ds) =
        number_of-sum_totals (add_totals amount_of t d.totals) ds
        ∙ rw (number_of-add_totals amount_of n t d.totals) (omega arith)

    over_days-merge_days :
        (dst : List (Day F)) (ds : List (UpstreamDay F))
        → over_days n (merge_days amount_of dst ds) ≡ add64 (over_days n dst) (over_upstream ds)
    unfolding merge_days over_upstream
    over_days-merge_days dst [] = grind (arith, sum-word (λ d. number_of n d.totals) dst)
    over_days-merge_days dst (d ∷ ds) =
        over_days-merge_days (merge_day amount_of dst d) ds
        ∙ rw (sum-merge_day amount_of n dst d) (omega arith)

    summary_sum :
        (t : Totals F) (ds : List (UpstreamDay F))
        → number_of n (add_totals amount_of t (summarize_days amount_of ds).0)
          ≡ add64 (number_of n t) (over_upstream ds)
    unfolding summarize_days
    summary_sum t ds =
        number_of-add_totals amount_of n t (sum_totals amount_of (zero_totals (some [])) ds)
        ∙ grind (arith, number_of-sum_totals (zero_totals (some [])) ds, number_of-zero F n)

    added :
        (totals : Option (Totals F)) (days : Option (List (Day F)))
        → Agree n totals days
        → number_of n (or_zero_totals totals) ≡ over_days n (or_empty days)
    added none none h = number_of-zero F n
    added none (some days) h = absurd h
    added (some totals) none h = absurd h
    added (some totals) (some days) h = h

    module _ {Q : Type ℓ} (to_lower aliases : String → String) where
      abbrev IsAgreed : Response F Q → Type 0
      IsAgreed r = Agree n r.totals r.days

      add_loaded-IsAgreed :
          (a : Resolved Q) (r : Response F Q) (loaded : Loaded F)
          → IsAgreed r
          → IsAgreed (add_loaded amount_of to_lower aliases a r loaded)
      unfolding add_loaded
      add_loaded-IsAgreed a r (failed message) h = h
      add_loaded-IsAgreed a r no_snapshot h = h
      add_loaded-IsAgreed a r (snapshot days) h =
          summary_sum (or_zero_totals r.totals) days
          ∙ ap (λ k. add64 k (over_upstream days)) (added r.totals r.days h)
          ∙ sym (over_days-merge_days (or_empty r.days) days)

      module _ (equal_fold : String → String → Bool)
          (load_daily : String → String → String → String → Loaded F) where
        add_account-IsAgreed :
            (login : String) (p : Progress F Q) (a : Resolved Q)
            → IsAgreed p.response
            → IsAgreed
                ((add_account amount_of to_lower aliases equal_fold load_daily login p a).response)
        unfolding add_account
        add_account-IsAgreed login p a h = elim (Bool-cases (is_other equal_fold login a)) [
          | inl e ↦ rw e h
          | inr e ↦ rw e (add_loaded-IsAgreed a (canonical_account login a p.response) _ h)
        ]

        add_accounts-IsAgreed :
            (login : String) (p : Progress F Q) (accounts : List (Resolved Q))
            → IsAgreed p.response
            → IsAgreed (
                (add_accounts amount_of to_lower aliases equal_fold load_daily login p
                  accounts).response)
        unfolding add_accounts
        add_accounts-IsAgreed login p [] h = h
        add_accounts-IsAgreed login p (a ∷ rest) h =
            add_accounts-IsAgreed login
              (add_account amount_of to_lower aliases equal_fold load_daily login p a) rest
              (add_account-IsAgreed login p a h)

        -- For every account and period, and whatever the snapshots hold: each number of the totals of the
        -- response (each count of tokens, the requests, the nano-AIU and the cost in each currency) is the sum
        -- of that number over the days of the response, which has days exactly if it has totals.
        pub persisted_dashboard-Agree :
            (t : Dates) (now : ℕ) (accounts : List (Resolved Q)) (failures : List Failure)
            (period login : String)
            → Agree n
                ((persisted_dashboard amount_of to_lower aliases equal_fold load_daily t now
                  accounts failures period login).response.totals)
                ((persisted_dashboard amount_of to_lower aliases equal_fold load_daily t now
                  accounts failures period login).response.days)
        unfolding persisted_dashboard
        persisted_dashboard-Agree t now accounts failures period login =
            filled_sum t _ now _ _
              (add_accounts-IsAgreed login (start_response failures period login) accounts tt)
