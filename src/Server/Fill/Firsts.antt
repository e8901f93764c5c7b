-- ===== src/Server/Fill/Firsts.antt =====
-- The first day of a period, told from the calendar.
use copilot_api_dashboard.Base.{
  ℕ, zero, suc, ◌+◌, ◌-◌, ◌%◌, ◌≤◌, ◌<◌, String, Bool, true, false, Option, none, some, List, [],
  ◌∷◌, any, str_eq, ltb, leb, if◌then◌else◌, All, ◌≡◌, ◌⊎◌, inl, inr, refl, sym, ap, arith, ◌∙◌,
  eq_iff, str_eq_self, Bool-cases, Option-cases,
}
use mathlib.Core.Bool.{or-true}
use copilot_api_dashboard.Server.{Day}
use copilot_api_dashboard.Server.Fill.{Dates, is_known, is_left, unless_long, earliest, start_of}
use copilot_api_dashboard.Server.Fill.Filled.{IsDates, midnight_le, midnight_inv}

-- The periods that have a first day.
abbrev pub spans : List String
spans = "this_week" ∷ "last_7_days" ∷ "this_month" ∷ "last_30_days" ∷ "lifetime" ∷ []

abbrev pub is_empty {ℓ} : {A : Type ℓ} → List A → Bool
is_empty [] = true
is_empty (x ∷ xs) = false

abbrev pub is_unread : Option ℕ → Bool
is_unread none = true
is_unread (some x) = false

-- The time at which the day begins.
abbrev pub time_of : (ℕ → ℕ) → Option ℕ → Option ℕ
time_of midnight none = none
time_of midnight (some d) = some (midnight d)

module _ {ℓ} {F : Type ℓ} (t : Dates) (midnight : ℕ → ℕ) where
  -- Of the recorded days and that of six days before today, this one is the first.
  abbrev pub IsEarliest : ℕ → List (Day F) → ℕ → Type 0
  IsEarliest last days s =
      (s ≤ last)
      × All (λ r. (d : ℕ) × (t.format (midnight d) ≡ r.date) × (s ≤ d)) days
      × ((s ≡ last) ⊎ (is_known days (t.format (midnight s)) ≡ true))

  -- The first day of a period that ends with the day `today`; `none` where the days are not filled.
  abbrev pub IsFirst : String → ℕ → List (Day F) → Option ℕ → Type 0
  IsFirst period today days none =
      (any (str_eq period) spans ≡ false)
      ⊎ ((period ≡ "lifetime")
          × ((is_empty days ≡ true)
              ⊎ ((any (λ r. is_unread (t.parse r.date)) days ≡ true)
                  ⊎ ((s : ℕ) × IsEarliest (today - 6) days s × (s + 366 ≤ today)))))
  IsFirst period today days (some s) =
      ((period ≡ "this_week") × (t.weekday (midnight s) ≡ 1) × (s ≤ today) × (today < s + 7))
      ⊎ (((period ≡ "last_7_days") × (s + 6 ≡ today))
          ⊎ (((period ≡ "this_month")
                × (t.year (midnight s) ≡ t.year (midnight today))
                × (t.month (midnight s) ≡ t.month (midnight today))
                × (t.day (midnight s) ≡ 1))
              ⊎ (((period ≡ "last_30_days") × (s + 29 ≡ today))
                  ⊎ ((period ≡ "lifetime") × IsEarliest (today - 6) days s × (today < s + 366)))))

of_ltb : (a b : ℕ) → ltb a b ≡ true → a < b
of_ltb a b e = ground arith

of_not_ltb : (a b : ℕ) → ltb a b ≡ false → b ≤ a
of_not_ltb a b e = ground arith

module _ (t : Dates) (midnight : ℕ → ℕ) (last : ℕ) (h : IsDates t midnight last) where
  add_0 : (d : ℕ) → d + 0 ≡ d
  add_0 d = omega arith

  add_suc : (d k : ℕ) → d + suc k ≡ suc (d + k)
  add_suc d k = omega arith

  weekday_add : (d k : ℕ) → t.weekday (midnight (d + k)) ≡ (t.weekday (midnight d) + k) % 7
  weekday_add d zero =
      let w : t.weekday (midnight d) < 7 = h.weekday_lt d in
      ap (λ n. t.weekday (midnight n)) (add_0 d) ∙ omega arith
  weekday_add d (suc k) =
      ap (λ n. t.weekday (midnight n)) (add_suc d k)
      ∙ h.weekday_suc (d + k)
      ∙ ap (λ w. suc w % 7) (weekday_add d k)
      ∙ omega arith

  monday :
      (today s : ℕ) → s + (t.weekday (midnight today) + 6) % 7 ≡ today → t.weekday (midnight s) ≡ 1
  monday today s e =
      let a : t.weekday (midnight today)
          ≡ (t.weekday (midnight s) + (t.weekday (midnight today) + 6) % 7) % 7 =
        ap (λ d. t.weekday (midnight d)) (sym e)
        ∙ weekday_add s ((t.weekday (midnight today) + 6) % 7) in
      week (t.weekday (midnight s)) (t.weekday (midnight today)) (h.weekday_lt s)
        (h.weekday_lt today) a
    where
      week : (a b : ℕ) → a < 7 → b < 7 → b ≡ (a + (b + 6) % 7) % 7 → a ≡ 1
      week a b k l e = omega arith

module _ {ℓ} (F : Type ℓ) (t : Dates) (midnight : ℕ → ℕ) (last : ℕ)
    (h : IsDates t midnight last) where
  open t use {format, parse}

  midnight_lt : (a b : ℕ) → midnight a < midnight b → a < b
  midnight_lt a b l = elim (Bool-cases (leb b a)) [
    | inl e ↦
        let k : midnight b ≤ midnight a = midnight_le F t midnight last h b a (ground arith) in
        absurd (omega arith)
    | inr e ↦ ground arith
  ]

  head :
      (n s : ℕ) (d : Day F) (ds : List (Day F))
      → format (midnight n) ≡ d.date
      → (s ≡ n) ⊎ (is_known ds (format (midnight s)) ≡ true)
      → is_known (d ∷ ds) (format (midnight s)) ≡ true
  head n s d ds text known = elim known [
    | inl e ↦ rw (e, text, str_eq_self d.date)
    | inr e ↦ rw e (or-true (str_eq (format (midnight s)) d.date))
  ]

  later :
      (d : Day F) (ds : List (Day F)) (s b : ℕ)
      → (s ≡ b) ⊎ (is_known ds (format (midnight s)) ≡ true)
      → (s ≡ b) ⊎ (is_known (d ∷ ds) (format (midnight s)) ≡ true)
  later d ds s b known = elim known [
    | inl e ↦ inl e
    | inr e ↦ inr (rw e (or-true (str_eq (format (midnight s)) d.date)))
  ]

  -- The loop over the recorded days finds the earliest.
  earliest-IsEarliest :
      (b : ℕ) (days : List (Day F)) (x : ℕ)
      → earliest t (midnight b) days ≡ some x
      → (s : ℕ) × (x ≡ midnight s) × IsEarliest t midnight b days s
  unfolding earliest
  earliest-IsEarliest b [] x e = (b, some_eq e, (omega arith, tt, inl refl))
    where
      some_eq : some (midnight b) ≡ some x → x ≡ midnight b
      some_eq e = ground arith
  earliest-IsEarliest b (d ∷ ds) x e = elim (Option-cases (parse d.date)) [
    | inl p ↦ cc (rw (earliest, p) at e)
    | inr (y, p) ↦
        let (n, same, text) = h.parse_midnight d.date y p in
        let k : earliest t (if ltb y (midnight b) then y else midnight b) ds ≡ some x =
          rw (earliest, p) at e in
        elim (Bool-cases (ltb y (midnight b))) [
          | inl l ↦
              let found : earliest t (midnight n) ds ≡ some x = rw (l, same) at k in
              let (s, at, (low, each, known)) = earliest-IsEarliest n ds x found in
              let before : n < b = midnight_lt n b (rw same at (of_ltb y (midnight b) l)) in
              (s, at, (omega arith, ((n, text, low), each), inr (head n s d ds text known)))
          | inr l ↦
              let found : earliest t (midnight b) ds ≡ some x = rw l at k in
              let (s, at, (low, each, known)) = earliest-IsEarliest b ds x found in
              let after : b ≤ n =
                midnight_inv F t midnight last h b n (rw same at (of_not_ltb y (midnight b) l)) in
              (s, at, (low, ((n, text, omega arith), each), later d ds s b known))
        ]
  ]

  earliest-unread :
      (b : ℕ) (days : List (Day F))
      → earliest t b days ≡ none
      → any (λ r. is_unread (parse r.date)) days ≡ true
  unfolding earliest
  earliest-unread b [] e = cc
  earliest-unread b (d ∷ ds) e = elim (Option-cases (parse d.date)) [
    | inl p ↦ rw p
    | inr (x, p) ↦ rw p (earliest-unread (if ltb x b then x else b) ds (rw (earliest, p) at e))
  ]

  lifetime-IsFirst :
      (period : String) (today : ℕ) (days : List (Day F))
      → period ≡ "lifetime"
      → 30 ≤ today
      → (o : Option ℕ) × (unless_long t
            (midnight today)
            (earliest t (t.back_days (midnight today) 6) days)
          ≡ time_of midnight o)
        × IsFirst t midnight period today days o
  lifetime-IsFirst period today days life late =
      elim (Option-cases (earliest t (midnight (today - 6)) days)) [
        | inl p ↦ (
          none,
          rw (h.back_midnight today 6 (omega arith), p) refl,
          inr (life, inr (inl (earliest-unread (midnight (today - 6)) days p))),
        )
        | inr (x, p) ↦
            let (s, at, first) = earliest-IsEarliest (today - 6) days x p in
            elim (Bool-cases (ltb (midnight (s + 365)) (midnight today))) [
              | inl l ↦
                  let before : s + 365 < today =
                    midnight_lt (s + 365) today (of_ltb (midnight (s + 365)) (midnight today) l) in
                  (
                    none,
                    rw (h.back_midnight today 6 (omega arith), p, at, h.add_midnight s 365, l) refl,
                    inr (life, inr (inr (s, first, omega arith))),
                  )
              | inr l ↦
                  let after : today ≤ s + 365 =
                    midnight_inv F t midnight last h today (s + 365)
                      (of_not_ltb (midnight (s + 365)) (midnight today) l) in
                  (
                    some s,
                    rw (h.back_midnight today 6 (omega arith), p, at, h.add_midnight s 365, l) refl,
                    inr (inr (inr (inr (life, first, omega arith)))),
                  )
            ]
      ]

  -- For a day of at least thirty days after the first one, `start` is the first day of the period.
  pub start_of-IsFirst :
      (period : String) (today : ℕ) (days : List (Day F))
      → 30 ≤ today
      → is_left period days ≡ false
      → (o : Option ℕ) × (start_of t period (midnight today) days ≡ time_of midnight o)
        × IsFirst t midnight period today days o
  unfolding start_of
  start_of-IsFirst period today days late left = elim (Bool-cases (str_eq period "this_week")) [
    | inl e ↦
        let w : t.weekday (midnight today) < 7 = h.weekday_lt today in
        let k : ℕ = (t.weekday (midnight today) + 6) % 7 in
        (
          some (today - k),
          rw (e, h.back_midnight today k (omega arith)) refl,
          inl (
            (eq_iff period "this_week").0 e,
            monday t midnight last h today (today - k) (omega arith),
            omega arith,
            omega arith,
          ),
        )
    | inr a ↦ elim (Bool-cases (str_eq period "last_7_days")) [
      | inl e ↦ (
        some (today - 6),
        rw (a, e, h.back_midnight today 6 (omega arith)) refl,
        inr (inl ((eq_iff period "last_7_days").0 e, omega arith)),
      )
      | inr b ↦ elim (Bool-cases (str_eq period "this_month")) [
        | inl e ↦
            let (s, at, year, month, day) = h.date_first today in
            (
              some s,
              rw (a, b, e, at) refl,
              inr (inr (inl ((eq_iff period "this_month").0 e, year, month, day))),
            )
        | inr c ↦ elim (Bool-cases (str_eq period "last_30_days")) [
          | inl e ↦ (
            some (today - 29),
            rw (a, b, c, e, h.back_midnight today 29 (omega arith)) refl,
            inr (inr (inr (inl ((eq_iff period "last_30_days").0 e, omega arith)))),
          )
          | inr f ↦ elim (Bool-cases (str_eq period "lifetime")) [
            | inl e ↦
                let (o, at, first) =
                  lifetime-IsFirst period today days ((eq_iff period "lifetime").0 e) late in
                (o, rw (a, b, c, f, e) at, first)
            | inr e ↦ (none, rw (a, b, c, f, e) refl, inl (rw (a, b, c, f, e) refl))
          ]
        ]
      ]
    ]
  ]
