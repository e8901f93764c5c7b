-- ===== src/Server/Fill/Filled.antt =====
-- What `fillDays` adds.
use copilot_api_dashboard.Base.{
  ℕ, zero, suc, ◌+◌, ◌-◌, ◌%◌, ◌≤◌, ◌<◌, String, Bool, true, false, none, some, List, [], ◌∷◌, ◌++◌,
  str_eq, leb, if◌then◌else◌, All, ◌≡◌, refl, sym, ap, arith, ◌∙◌, text_lt, ◌==◌, eq_iff,
  str_eq_self, append_assoc, append-nil, Bool-cases, inl, inr,
}
use copilot_api_dashboard.Server.{Day}
use copilot_api_dashboard.Server.Keyed.{find}
use copilot_api_dashboard.Server.Keyed.Sorted.{Ascending}
use copilot_api_dashboard.Server.Fill.{Dates, blank_day, fill_from}

-- A location whose midnights are never skipped, where day `d` begins at `midnight d`: the functions of package
-- `time` agree with the counting of days, and the texts of the days up to a last one (that of the year 9999)
-- are in their order.
pub record IsDates (t : Dates) (midnight : ℕ → ℕ) (last : ℕ) : Type 0 where
  pub midnight_mono : (a b : ℕ) → a < b → midnight a < midnight b
  pub format_mono :
      (a b : ℕ) → a < b → b ≤ last → text_lt (t.format (midnight a)) (t.format (midnight b)) ≡ true
  pub add_midnight : (d n : ℕ) → t.add_days (midnight d) n ≡ midnight (d + n)
  pub back_midnight : (d n : ℕ) → n ≤ d → t.back_days (midnight d) n ≡ midnight (d - n)
  pub parse_midnight :
      (s : String) (x : ℕ)
      → t.parse s ≡ some x
      → (d : ℕ) × (x ≡ midnight d) × (t.format (midnight d) ≡ s)
  pub weekday_lt : (d : ℕ) → t.weekday (midnight d) < 7
  pub weekday_suc : (d : ℕ) → t.weekday (midnight (suc d)) ≡ suc (t.weekday (midnight d)) % 7
  pub date_first :
      (d : ℕ)
      → (s : ℕ) × (t.date (t.year (midnight d)) (t.month (midnight d)) 1 ≡ midnight s)
        × (t.year (midnight s) ≡ t.year (midnight d))
        × (t.month (midnight s) ≡ t.month (midnight d))
        × (t.day (midnight s) ≡ 1)

-- The days of the span, blank; `text` is that of a day.
abbrev pub blank_days {ℓ} : {F : Type ℓ} → (ℕ → String) → ℕ → ℕ → List (Day F)
blank_days text zero date = []
blank_days text (suc rounds) date = blank_day (text date) ∷ blank_days text rounds (suc date)

-- What the loop appends in so many rounds.
abbrev pub missing_days {ℓ} : {F : Type ℓ} → (ℕ → String) → (String → Bool) → ℕ → ℕ → List (Day F)
missing_days text known zero date = []
missing_days text known (suc rounds) date =
    let rest = missing_days text known rounds (suc date) in
    if known (text date) then rest else blank_day (text date) ∷ rest

rounds_suc : (date today : ℕ) → date ≤ today → suc today - date ≡ suc (suc today - suc date)
rounds_suc date today h = omega arith

pub rounds_zero : (date today : ℕ) → today < date → suc today - date ≡ 0
rounds_zero date today h = omega arith

module _ {ℓ} (F : Type ℓ) (t : Dates) (midnight : ℕ → ℕ) (last : ℕ)
    (h : IsDates t midnight last) where
  open t use {format}

  pub midnight_le : (a b : ℕ) → a ≤ b → midnight a ≤ midnight b
  midnight_le a b l = elim (Bool-cases (a == b)) [
    | inl e ↦ let same : a ≡ b = ground arith in rw same (omega arith)
    | inr e ↦ let less : midnight a < midnight b = h.midnight_mono a b (ground arith) in omega arith
  ]

  pub midnight_inv : (a b : ℕ) → midnight a ≤ midnight b → a ≤ b
  midnight_inv a b l = elim (Bool-cases (leb a b)) [
    | inl e ↦ ground arith
    | inr e ↦
        let less : midnight b < midnight a = h.midnight_mono b a (ground arith) in
        absurd (omega arith)
  ]

  pub leb-midnight : (a b : ℕ) → leb (midnight a) (midnight b) ≡ leb a b
  leb-midnight a b = elim (Bool-cases (leb a b)) [
    | inl e ↦
        let l : midnight a ≤ midnight b = midnight_le a b (ground arith) in rw e (ground arith)
    | inr e ↦
        let l : midnight b < midnight a = h.midnight_mono b a (ground arith) in rw e (ground arith)
  ]

  -- The loop ends within its fuel.
  pub fill_from_total :
      (fuel date today : ℕ) (known : String → Bool) (days : List (Day F))
      → suc (midnight today) - midnight date < fuel
      → fill_from t fuel (midnight date) (midnight today) known days
        ≡ some (days ++ missing_days (λ d. format (midnight d)) known (suc today - date) date)
  unfolding fill_from
  fill_from_total zero date today known days k = absurd (omega arith)
  fill_from_total (suc fuel) date today known days k = elim (Bool-cases (leb date today)) [
    | inr e ↦
        rw (leb-midnight date today, e, rounds_zero date today (ground arith))
          (ap some (sym (append-nil days)))
    | inl e ↦
        let later : midnight date < midnight (suc date) =
          h.midnight_mono date (suc date) (omega arith) in
        let next : t.add_days (midnight date) 1 ≡ midnight (suc date) =
          h.add_midnight date 1 ∙ ap midnight (omega arith) in
        let now : midnight date ≤ midnight today = midnight_le date today (ground arith) in
        rw (leb-midnight date today, e, rounds_suc date today (ground arith), next)
          (fill_from_total fuel (suc date) today known _ (omega arith)
            ∙ ap some (step days (known (format (midnight date))) (format (midnight date)) _))
  ]
    where
      step :
          (ds : List (Day F)) (b : Bool) (key : String) (rest : List (Day F))
          → (if b then ds else ds ++ blank_day key ∷ []) ++ rest
            ≡ ds ++ (if b then rest else blank_day key ∷ rest)
      step ds true key rest = refl
      step ds false key rest = append_assoc ds (blank_day key ∷ []) rest

module _ {ℓ} (F : Type ℓ) (text : ℕ → String) where
  pub missing_days-unknown :
      (rounds date : ℕ) (known : String → Bool)
      → All (λ d. known d.date ≡ false) (missing_days {F = F} text known rounds date)
  missing_days-unknown zero date known = tt
  missing_days-unknown (suc rounds) date known = elim (Bool-cases (known (text date))) [
    | inl e ↦ rw e (missing_days-unknown rounds (suc date) known)
    | inr e ↦ rw e (e, missing_days-unknown rounds (suc date) known)
  ]

  -- What is found among the days of the loop is the blank day, unless there is one already.
  pub find-missing_days :
      (rounds date : ℕ) (known : String → Bool) (key : String)
      → find (λ d. d.date) key (missing_days {F = F} text known rounds date)
        ≡ (if known key then none else find (λ d. d.date) key (blank_days text rounds date))
  unfolding find
  find-missing_days zero date known key = elim (Bool-cases (known key)) [
    | inl e ↦ rw e
    | inr e ↦ rw e
  ]
  find-missing_days (suc rounds) date known key =
      case_of (text date) _ _ (find-missing_days rounds (suc date) known key)
    where
      case_of :
          (at : String) (rest : List (Day F)) (all : List (Day F))
          → find (λ d. d.date) key rest ≡ (if known key then none else find (λ d. d.date) key all)
          → find (λ d. d.date) key (if known at then rest else blank_day at ∷ rest)
            ≡ (if known key then none else find (λ d. d.date) key (blank_day at ∷ all))
      case_of at rest all h = elim (Bool-cases (str_eq at key)) [
        | inl e ↦
            let same : at ≡ key = (eq_iff at key).0 e in
            elim (Bool-cases (known key)) [
              | inl f ↦ rw (same, f, h, f)
              | inr f ↦ rw (same, f, str_eq_self key)
            ]
        | inr e ↦ elim (Bool-cases (known at)) [ inl f ↦ rw (f, e) h | inr f ↦ rw (f, e) h ]
      ]

  module _ (last : ℕ) (mono : (a b : ℕ) → a < b → b ≤ last → text_lt (text a) (text b) ≡ true) where
    missing_days-above :
        (rounds date past : ℕ) (known : String → Bool)
        → past < date
        → date + rounds ≤ suc last
        → All (λ d. text_lt (text past) d.date ≡ true) (missing_days {F = F} text known rounds date)
    missing_days-above zero date past known l k = tt
    missing_days-above (suc rounds) date past known l k = elim (Bool-cases (known (text date))) [
      | inl e ↦ rw e (missing_days-above rounds (suc date) past known (omega arith) (omega arith))
      | inr e ↦ rw e (
        mono past date l (omega arith),
        missing_days-above rounds (suc date) past known (omega arith) (omega arith),
      )
    ]

    pub missing_days-Ascending :
        (rounds date : ℕ) (known : String → Bool)
        → date + rounds ≤ suc last
        → Ascending (λ d. d.date) (missing_days {F = F} text known rounds date)
    missing_days-Ascending zero date known k = tt
    missing_days-Ascending (suc rounds) date known k = elim (Bool-cases (known (text date))) [
      | inl e ↦ rw e (missing_days-Ascending rounds (suc date) known (omega arith))
      | inr e ↦ rw e (
        missing_days-above rounds (suc date) date known (omega arith) (omega arith),
        missing_days-Ascending rounds (suc date) known (omega arith),
      )
    ]
