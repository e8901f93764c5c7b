-- ===== src/Server/Fill/Spans.antt =====
-- The days that `fillDays` returns.
use copilot_api_dashboard.Base.{
  ℕ, suc, ◌-◌, ◌≤◌, String, true, false, any, eq_iff, Option, none, some, List, [], ◌∷◌, ◌++◌,
  str_eq, leb, if◌then◌else◌, All, All_mono, ◌≡◌, refl, ap, arith, ◌∙◌, Bool-cases, inl, inr,
}
use copilot_api_dashboard.Server.{Day}
use copilot_api_dashboard.Server.Keyed.{find, sort}
use copilot_api_dashboard.Server.Keyed.Sorted.{
  Distinct, Ascending, Ascending-Distinct, sort-Ascending, find-sort, ne_sym,
}
use copilot_api_dashboard.Server.Keyed.Joined.{or_else, find-append, Distinct-append}
use copilot_api_dashboard.Server.Fill.{
  Dates, today_of, is_known, is_left, fill_from, fill_fuel, fill_days, or_days, start_of,
}
use copilot_api_dashboard.Server.Fill.Firsts.{spans, time_of, IsFirst, start_of-IsFirst}
use copilot_api_dashboard.Server.Fill.Filled.{
  IsDates, blank_days, missing_days, fill_from_total, rounds_zero, missing_days-unknown,
  missing_days-Ascending, find-missing_days,
}

-- The text of a day.
abbrev pub text_on : Dates → (ℕ → ℕ) → ℕ → String
text_on t midnight day = t.format (midnight day)

module _ {ℓ} {F : Type ℓ} where
  known_or :
      (days : List (Day F)) (key : String) (o : Option (Day F))
      → or_else (find (λ d. d.date) key days) (if is_known days key then none else o)
        ≡ or_else (find (λ d. d.date) key days) o
  unfolding find
  known_or [] key o = refl
  known_or (d ∷ ds) key o = elim (Bool-cases (str_eq d.date key)) [
    | inl e ↦ rw e
    | inr e ↦ rw (e, ne_sym d.date key e) (known_or ds key o)
  ]

  unknown-apart :
      (days others : List (Day F))
      → All (λ d. is_known days d.date ≡ false) others
      → All (λ x. All (λ y. str_eq x.date y.date ≡ false) others) days
  unknown-apart [] others h = tt
  unknown-apart (d ∷ ds) others h = (
    All_mono (λ y e. ne_sym y.date d.date (grind arith)) others h,
    unknown-apart ds others (All_mono (λ y e. grind arith) others h),
  )

  -- The days that are shown for the span from `start` to `today`: they are in order, each recorded day is
  -- there as it was, and each other day of the span is there as a blank one; there are no others.
  abbrev pub IsSpan : (ℕ → String) → ℕ → ℕ → List (Day F) → List (Day F) → Type ℓ
  IsSpan text start today days shown =
      Ascending (λ d. d.date) shown
      × ((key : String)
          → find (λ d. d.date) key shown
            ≡ or_else (find (λ d. d.date) key days)
                (find (λ d. d.date) key (blank_days text (suc today - start) start)))

  -- What is shown if the days are filled from this day on, or returned as they are.
  abbrev pub IsFilled : (ℕ → String) → Option ℕ → ℕ → List (Day F) → List (Day F) → Type ℓ
  IsFilled text none today days shown = shown ≡ days
  IsFilled text (some start) today days shown = IsSpan text start today days shown

  -- What is shown for a period that ends with the day `today`.
  abbrev pub IsShownFor : Dates → (ℕ → ℕ) → String → ℕ → List (Day F) → List (Day F) → Type ℓ
  IsShownFor t midnight period today days shown =
      (start : Option ℕ) × IsFirst t midnight period today days start
      × IsFilled (text_on t midnight) start today days shown

  left-IsFirst :
      (t : Dates) (midnight : ℕ → ℕ) (period : String) (today : ℕ) (days : List (Day F))
      → is_left period days ≡ true
      → IsFirst t midnight period today days none
  left-IsFirst t midnight period today [] e = elim (Bool-cases (str_eq period "today")) [
    | inl f ↦ inl (other period ((eq_iff period "today").0 f))
    | inr f ↦ inr ((eq_iff period "lifetime").0 (rw f at e), inl refl)
  ]
    where
      other : (q : String) → q ≡ "today" → any (str_eq q) spans ≡ false
      other q same = rw same refl
  left-IsFirst t midnight period today (d ∷ ds) e = inl (other period ((eq_iff period "today").0 e))
    where
      other : (q : String) → q ≡ "today" → any (str_eq q) spans ≡ false
      other q same = rw same refl

  module _ (t : Dates) (midnight : ℕ → ℕ) (last : ℕ) (h : IsDates t midnight last) where
    filled-IsSpan :
        (start today : ℕ) (days : List (Day F))
        → today ≤ last
        → Distinct (λ d. d.date) days
        → IsSpan (text_on t midnight) start today days (
            sort
              (λ d. d.date)
              (days ++ missing_days (text_on t midnight) (is_known days) (suc today - start) start))
    filled-IsSpan start today days late d =
        let rounds : ℕ = suc today - start in
        let added : List (Day F) = missing_days (text_on t midnight) (is_known days) rounds start in
        let ascending : Ascending (λ d. d.date) added = elim (Bool-cases (leb start today)) [
          | inl e ↦
              missing_days-Ascending F (text_on t midnight) last h.format_mono rounds start
                (is_known days) (ground arith)
          | inr e ↦ rw (rounds_zero start today (ground arith)) tt
        ] in
        let distinct : Distinct (λ d. d.date) (days ++ added) =
          Distinct-append (λ d. d.date) days added d
            (Ascending-Distinct (λ d. d.date) added (ascending))
            (unknown-apart days added
              (missing_days-unknown F (text_on t midnight) rounds start (is_known days))) in
        (
          sort-Ascending (λ d. d.date) (days ++ added) distinct,
          λ key.
              find-sort (λ d. d.date) key (days ++ added) distinct
              ∙ find-append (λ d. d.date) key days added
              ∙ ap (or_else (find (λ d. d.date) key days))
                  (find-missing_days F (text_on t midnight) rounds start (is_known days) key)
              ∙ known_or days key
                  (find (λ d. d.date) key (blank_days (text_on t midnight) rounds start)),
        )

    -- In a location whose midnights are never skipped, for every period, every `now` of the day `today`, that
    -- is at least thirty days after the first one and not after the last whose text is in its order, and for
    -- recorded days with distinct dates, the loop of `fillDays` ends within its fuel. Where the period has a first
    -- day, the result is in order, has each recorded day as it was, and has each other day from the first to today
    -- as a blank one, and no more; otherwise it is the days as they are. The first day is the Monday of this week,
    -- six days ago, the first of this month, 29 days ago, or for `lifetime` the earliest of six days ago and the
    -- recorded days; there is none for any other period, and for `lifetime` if there are no days, one of the dates
    -- cannot be read or the earliest is 366 days ago or more.
    pub fill_days_lem :
        (period : String) (now today : ℕ) (days : List (Day F))
        → today_of t now ≡ midnight today
        → 30 ≤ today
        → today ≤ last
        → Distinct (λ d. d.date) days
        → (shown : List (Day F)) × (fill_days t (some days) period now ≡ some shown)
          × IsShownFor t midnight period today days shown
    unfolding fill_days
    fill_days_lem period now today days at early late d = elim (Bool-cases (is_left period days)) [
      | inl e ↦ (days, rw e refl, (none, left-IsFirst t midnight period today days e, refl))
      | inr e ↦
          let (o, same, first) = start_of-IsFirst F t midnight last h period today days early e in
          let (shown, run, filled) = by_start (today_of t now) at o in
          (shown, rw (e, ap (λ x. start_of t period x days) at ∙ same) run, (o, first, filled))
    ]
      where
        by_start :
            (x : ℕ)
            → x ≡ midnight today
            → (o : Option ℕ)
            → (shown : List (Day F)) × (elim (time_of midnight o) [
              | none ↦ some days
              | some start ↦
                  some (or_days days (fill_from t (fill_fuel start x) start x (is_known days) days))
            ]
                ≡ some shown)
              × IsFilled (text_on t midnight) o today days shown
        by_start x at none = (days, refl, refl)
        by_start x at (some start) = (
          _,
          rw (
            at,
            fill_from_total F t midnight last h (fill_fuel (midnight start) (midnight today)) start
                today (is_known days) days (omega arith),
          ),
          filled-IsSpan start today days late d,
        )
