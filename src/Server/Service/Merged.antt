-- ===== src/Server/Service/Merged.antt =====
-- internal/dashboard/service.go: the days that persistedDashboard has merged, told from the days it has loaded.
use copilot_api_dashboard.Base.{
  ℕ, ◌%◌, String, Bool, false, List, [], ◌∷◌, ◌||◌, any, str_eq, if◌then◌else◌, ◌≡◌, refl, ◌∙◌, ap,
  arith, text_lt, Bool-cases, inl, inr, eq_iff,
}
use copilot_api_dashboard.Server.{word, add64, UpstreamDay, Day, add_day, merge_day}
use copilot_api_dashboard.Server.Keyed.{insert, sort, put}
use copilot_api_dashboard.Server.Keyed.Sorted.{Ascending}
use copilot_api_dashboard.Server.Numbers.{Number, number_of, sum, sum-word, sum-merge_day_at}
use copilot_api_dashboard.Server.Sums.{IsCalendar, merge_day-IsCalendar}
use copilot_api_dashboard.Server.Service.{merge_days}

-- The merged days are in order, each date once; they have the dates of the loaded days and no others, and each
-- number of a day is the sum of that number over the loaded days of its date.
abbrev pub IsMerged {ℓ} : {F : Type ℓ} → List (UpstreamDay F) → List (Day F) → Type 0
IsMerged days merged =
    Ascending (λ d. d.date) merged
    × ((key : String) → any (λ d. str_eq d.date key) merged ≡ any (λ d. str_eq d.date key) days)
    × ((n : Number) (key : String)
        → sum (λ d. if str_eq d.date key then number_of n d.totals else 0) merged
          ≡ sum (λ d. if str_eq d.date key then number_of n d.totals else 0) days)

module _ {ℓ} {F : Type ℓ} (amount_of : ℕ → F) where
  any-insert :
      (p : Day F → Bool) (x : Day F) (xs : List (Day F))
      → any p (insert (λ d. d.date) x xs) ≡ (p x || any p xs)
  unfolding insert
  any-insert p x [] = refl
  any-insert p x (y ∷ ys) = elim (Bool-cases (text_lt x.date y.date)) [
    | inl e ↦ rw e refl
    | inr e ↦ rw (e, any-insert p x ys) (swap (p y) (p x) (any p ys))
  ]
    where
      swap : (a b c : Bool) → (a || (b || c)) ≡ (b || (a || c))
      swap a b c = ground arith

  any-sort : (p : Day F → Bool) (xs : List (Day F)) → any p (sort (λ d. d.date) xs) ≡ any p xs
  unfolding sort
  any-sort p [] = refl
  any-sort p (x ∷ xs) = any-insert p x (sort (λ d. d.date) xs) ∙ ap (λ b. p x || b) (any-sort p xs)

  any-put :
      (key : String) (d : UpstreamDay F) (ds : List (Day F))
      → any (λ x. str_eq x.date key) (put (λ x. x.date) d.date (add_day amount_of d) ds)
        ≡ (str_eq d.date key || any (λ x. str_eq x.date key) ds)
  unfolding put
  any-put key d [] = refl
  any-put key d (x ∷ xs) = elim (Bool-cases (str_eq x.date d.date)) [
    | inl e ↦
        let same : x.date ≡ d.date = (eq_iff x.date d.date).0 e in
        rw (e, same) (twice (str_eq d.date key) (any (λ y. str_eq y.date key) xs))
    | inr e ↦
        rw (e, any-put key d xs)
          (swap (str_eq x.date key) (str_eq d.date key) (any (λ y. str_eq y.date key) xs))
  ]
    where
      swap : (a b c : Bool) → (a || (b || c)) ≡ (b || (a || c))
      swap a b c = ground arith

      twice : (a b : Bool) → (a || b) ≡ (a || (a || b))
      twice a b = ground arith

  any-merge_days :
      (key : String) (dst : List (Day F)) (ds : List (UpstreamDay F))
      → any (λ x. str_eq x.date key) (merge_days amount_of dst ds)
        ≡ (any (λ x. str_eq x.date key) ds || any (λ x. str_eq x.date key) dst)
  unfolding merge_days merge_day
  any-merge_days key dst [] = refl
  any-merge_days key dst (d ∷ ds) =
      any-merge_days key (merge_day amount_of dst d) ds
      ∙ rw
          (
            any-sort (λ x. str_eq x.date key) (put (λ x. x.date) d.date (add_day amount_of d) dst),
            any-put key d dst,
          )
          (swap (any (λ x. str_eq x.date key) ds) (str_eq d.date key)
            (any (λ x. str_eq x.date key) dst))
    where
      swap : (a b c : Bool) → (a || (b || c)) ≡ ((b || a) || c)
      swap a b c = ground arith

  sum-merge_days :
      (n : Number) (key : String) (dst : List (Day F)) (ds : List (UpstreamDay F))
      → sum
          (λ x. if str_eq x.date key then number_of n x.totals else 0)
          (merge_days amount_of dst ds)
        ≡ add64
            (sum (λ x. if str_eq x.date key then number_of n x.totals else 0) dst)
            (sum (λ x. if str_eq x.date key then number_of n x.totals else 0) ds)
  unfolding merge_days
  sum-merge_days n key dst [] =
      grind
        (arith, sum-word (λ (x : Day F). if str_eq x.date key then number_of n x.totals else 0) dst)
  sum-merge_days n key dst (d ∷ ds) =
      sum-merge_days n key (merge_day amount_of dst d) ds
      ∙ rw (sum-merge_day_at amount_of n key dst d) (omega arith)

  pub merge_days-IsCalendar :
      (dst : List (Day F)) (ds : List (UpstreamDay F))
      → IsCalendar amount_of dst
      → IsCalendar amount_of (merge_days amount_of dst ds)
  unfolding merge_days
  merge_days-IsCalendar dst [] h = h
  merge_days-IsCalendar dst (d ∷ ds) h =
      merge_days-IsCalendar (merge_day amount_of dst d) ds (merge_day-IsCalendar amount_of dst d h)

  pub merge_days-IsMerged : (ds : List (UpstreamDay F)) → IsMerged ds (merge_days amount_of [] ds)
  merge_days-IsMerged ds =
      let calendar = merge_days-IsCalendar [] ds (record { ascending = tt; summed = tt }) in
      (
        calendar.ascending,
        λ key. any-merge_days key [] ds ∙ or_false (any (λ x. str_eq x.date key) ds),
        λ n key.
            sum-merge_days n key [] ds
            ∙ none_before (sum (λ x. if str_eq x.date key then number_of n x.totals else 0) ds) (
                sum-word
                  (λ (x : UpstreamDay F). if str_eq x.date key then number_of n x.totals else 0)
                  ds),
      )
    where
      or_false : (b : Bool) → (b || false) ≡ b
      or_false b = ground arith

      none_before : (k : ℕ) → k % word ≡ k → add64 0 k ≡ k
      none_before k h = omega arith
