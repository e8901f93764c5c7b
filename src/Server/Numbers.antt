-- ===== src/Server/Numbers.antt =====
-- The numbers of totals, and their sums over the entries of a list, by their bits.
use copilot_api_dashboard.Base.{
  ℕ, ◌%◌, String, Bool, true, false, Option, none, some, List, [], ◌∷◌, ◌++◌, str_eq, text_lt,
  if◌then◌else◌, ◌≡◌, refl, ap, arith, ◌∙◌, eq_iff, Bool-cases, inl, inr,
}
use copilot_api_dashboard.Server.Keyed.{insert, sort, put, put_all, merge}
use copilot_api_dashboard.Server.{
  word, add64, Cost, Totals, UpstreamDay, Day, or_empty, add_nano, add_cost, add_costs, add_totals,
  zero_totals, add_day, merge_day,
}

-- The sum of a weight over a list.
abbrev pub sum {ℓ} : {A : Type ℓ} → (A → ℕ) → List A → ℕ
sum weight [] = 0
sum weight (x ∷ xs) = add64 (weight x) (sum weight xs)

pub sum-word {ℓ} :
    {A : Type ℓ} (weight : A → ℕ) (xs : List A) → sum weight xs % word ≡ sum weight xs
sum-word weight [] = refl
sum-word weight (x ∷ xs) = omega arith

pub sum-append {ℓ} :
    {A : Type ℓ} (weight : A → ℕ) (xs ys : List A)
    → sum weight (xs ++ ys) ≡ add64 (sum weight xs) (sum weight ys)
sum-append weight [] ys = grind (arith, sum-word weight ys)
sum-append weight (x ∷ xs) ys = rw (sum-append weight xs ys) (omega arith)

module _ {ℓ} {A : Type ℓ} (key : A → String) (weight : A → ℕ) where
  sum-insert :
      (x : A) (xs : List A) → sum weight (insert key x xs) ≡ add64 (weight x) (sum weight xs)
  unfolding insert
  sum-insert x [] = refl
  sum-insert x (y ∷ ys) = elim (Bool-cases (text_lt (key x) (key y))) [
    | inl e ↦ rw e
    | inr e ↦ rw (e, sum-insert x ys) (omega arith)
  ]

  pub sum-sort : (xs : List A) → sum weight (sort key xs) ≡ sum weight xs
  unfolding sort
  sum-sort [] = refl
  sum-sort (x ∷ xs) = sum-insert x (sort key xs) ∙ ap (add64 (weight x)) (sum-sort xs)

  -- What is added to an entry adds its own weight to it.
  pub record IsWeighed {κ} {B : Type κ} (name : B → String) (add : B → Option A → A) (value : B → ℕ)
      : Type (ℓ ⊔ κ) where
    pub weight_none : (b : B) → weight (add b none) ≡ value b % word
    pub weight_some :
        (b : B) (x : A) → key x ≡ name b → weight (add b (some x)) ≡ add64 (weight x) (value b)

  module _ {κ} {B : Type κ} (name : B → String) (add : B → Option A → A) (value : B → ℕ)
      (h : IsWeighed name add value) where
    pub sum-put :
        (b : B) (xs : List A)
        → sum weight (put key (name b) (add b) xs) ≡ add64 (sum weight xs) (value b)
    unfolding put
    sum-put b [] = rw (h.weight_none b) (omega arith)
    sum-put b (x ∷ xs) = elim (Bool-cases (str_eq (key x) (name b))) [
      | inl e ↦ rw (e, h.weight_some b x ((eq_iff (key x) (name b)).0 e)) (omega arith)
      | inr e ↦ rw (e, sum-put b xs) (omega arith)
    ]

    sum-put_all :
        (xs : List A) (bs : List B)
        → sum weight (put_all key name add xs bs) ≡ add64 (sum weight xs) (sum value bs)
    unfolding put_all
    sum-put_all xs [] = grind (arith, sum-word weight xs)
    sum-put_all xs (b ∷ bs) =
        sum-put_all (put key (name b) (add b) xs) bs ∙ rw (sum-put b xs) (omega arith)

    pub sum-merge :
        (xs : List A) (bs : List B)
        → sum weight (merge key name add xs bs) ≡ add64 (sum weight xs) (sum value bs)
    unfolding merge
    sum-merge xs bs = sum-sort (put_all key name add xs bs) ∙ sum-put_all xs bs

-- The numbers that the page shows of totals.
pub data Number : Type 0 where
  input : Number
  output : Number
  cache_read : Number
  cache_creation : Number
  requests : Number
  tokens : Number
  nano_aiu : Number
  cost_in : String → Number

abbrev pub or_zero : Option ℕ → ℕ
or_zero none = 0
or_zero (some n) = n

abbrev pub nanos_in {ℓ} : {F : Type ℓ} → String → Cost F → ℕ
nanos_in currency c = if str_eq c.currency currency then c.nanos else 0

abbrev pub number_of {ℓ} : {F : Type ℓ} → Number → Totals F → ℕ
number_of input t = t.input % word
number_of output t = t.output % word
number_of cache_read t = t.cache_read % word
number_of cache_creation t = t.cache_creation % word
number_of requests t = t.requests % word
number_of tokens t = t.tokens % word
number_of nano_aiu t = or_zero t.nano_aiu % word
number_of (cost_in currency) t = sum (nanos_in currency) (or_empty t.costs)

nanos_sum :
    (a b : Option ℕ) → or_zero (add_nano a b) % word ≡ add64 (or_zero a % word) (or_zero b % word)
nanos_sum a none = omega arith
nanos_sum none (some b) = omega arith
nanos_sum (some a) (some b) = omega arith

number_of-none {ℓ} : (F : Type ℓ) (n : Number) → number_of {F = F} n (zero_totals none) ≡ 0
number_of-none F input = refl
number_of-none F output = refl
number_of-none F cache_read = refl
number_of-none F cache_creation = refl
number_of-none F requests = refl
number_of-none F tokens = refl
number_of-none F nano_aiu = refl
number_of-none F (cost_in currency) = refl

pub number_of-zero {ℓ} : (F : Type ℓ) (n : Number) → number_of {F = F} n (zero_totals (some [])) ≡ 0
number_of-zero F input = refl
number_of-zero F output = refl
number_of-zero F cache_read = refl
number_of-zero F cache_creation = refl
number_of-zero F requests = refl
number_of-zero F tokens = refl
number_of-zero F nano_aiu = refl
number_of-zero F (cost_in currency) = refl

module _ {ℓ} {F : Type ℓ} (amount_of : ℕ → F) where
  -- Adding totals adds each of their numbers.
  pub number_of-add_totals :
      (n : Number) (a b : Totals F)
      → number_of n (add_totals amount_of a b) ≡ add64 (number_of n a) (number_of n b)
  unfolding add_totals add_costs
  number_of-add_totals input a b = omega arith
  number_of-add_totals output a b = omega arith
  number_of-add_totals cache_read a b = omega arith
  number_of-add_totals cache_creation a b = omega arith
  number_of-add_totals requests a b = omega arith
  number_of-add_totals tokens a b = omega arith
  number_of-add_totals nano_aiu a b = nanos_sum a.nano_aiu b.nano_aiu
  number_of-add_totals (cost_in k) a b =
      sum-merge (λ c. c.currency) (nanos_in k) (λ c. c.currency) (add_cost amount_of) (nanos_in k)
        weighed (or_empty a.costs) (or_empty b.costs)
    where
      weighed :
          IsWeighed {A = Cost F}
            (λ c. c.currency)
            (nanos_in k)
            (λ c. c.currency)
            (add_cost amount_of)
            (nanos_in k)
      weighed = record {
        weight_none = λ b. none_case b (str_eq b.currency k);
        weight_some = λ b x e. rw e (some_case b x (str_eq b.currency k));
      }
        where
          none_case :
              (b : Cost F) (same : Bool)
              → (if same then add64 0 b.nanos else 0) ≡ (if same then b.nanos else 0) % word
          none_case b true = omega arith
          none_case b false = refl

          some_case :
              (b x : Cost F) (same : Bool)
              → (if same then add64 x.nanos b.nanos else 0)
                ≡ add64 (if same then x.nanos else 0) (if same then b.nanos else 0)
          some_case b x true = refl
          some_case b x false = refl

  -- Merging a day adds each of its numbers to the sum over the days.
  pub sum-merge_day :
      (n : Number) (ds : List (Day F)) (d : UpstreamDay F)
      → sum (λ x. number_of n x.totals) (merge_day amount_of ds d)
        ≡ add64 (sum (λ x. number_of n x.totals) ds) (number_of n d.totals)
  unfolding merge_day
  sum-merge_day n ds d =
      sum-sort (λ x. x.date) (λ x. number_of n x.totals)
        (put (λ x. x.date) d.date (add_day amount_of d) ds)
      ∙ sum-put (λ x. x.date) (λ x. number_of n x.totals) (λ x. x.date) (add_day amount_of)
          (λ x. number_of n x.totals) weighed d ds
    where
      weighed :
          IsWeighed {A = Day F}
            (λ x. x.date)
            (λ x. number_of n x.totals)
            {B = UpstreamDay F}
            (λ x. x.date)
            (add_day amount_of)
            (λ x. number_of n x.totals)
      weighed = record {
        weight_none = λ b.
            number_of-add_totals n (zero_totals none) b.totals
            ∙ rw (number_of-none F n) (omega arith);
        weight_some = λ b x e. number_of-add_totals n x.totals b.totals;
      }

  -- The same for the days of one date.
  pub sum-merge_day_at :
      (n : Number) (key : String) (ds : List (Day F)) (d : UpstreamDay F)
      → sum (λ x. if str_eq x.date key then number_of n x.totals else 0) (merge_day amount_of ds d)
        ≡ add64
            (sum (λ x. if str_eq x.date key then number_of n x.totals else 0) ds)
            (if str_eq d.date key then number_of n d.totals else 0)
  unfolding merge_day
  sum-merge_day_at n key ds d =
      sum-sort (λ x. x.date) (λ x. if str_eq x.date key then number_of n x.totals else 0)
        (put (λ x. x.date) d.date (add_day amount_of d) ds)
      ∙ sum-put (λ x. x.date) (λ x. if str_eq x.date key then number_of n x.totals else 0)
          (λ x. x.date) (add_day amount_of)
          (λ x. if str_eq x.date key then number_of n x.totals else 0) weighed d ds
    where
      none_case :
          (b : UpstreamDay F) (same : Bool)
          → (if same then number_of n (add_totals amount_of (zero_totals none) b.totals) else 0)
            ≡ (if same then number_of n b.totals else 0) % word
      none_case b true =
          number_of-add_totals n (zero_totals none) b.totals ∙ rw (number_of-none F n) (omega arith)
      none_case b false = refl

      some_case :
          (b : UpstreamDay F) (x : Day F) (same : Bool)
          → (if same then number_of n (add_totals amount_of x.totals b.totals) else 0)
            ≡ add64
                (if same then number_of n x.totals else 0)
                (if same then number_of n b.totals else 0)
      some_case b x true = number_of-add_totals n x.totals b.totals
      some_case b x false = refl

      weighed :
          IsWeighed {A = Day F}
            (λ x. x.date)
            (λ x. if str_eq x.date key then number_of n x.totals else 0)
            {B = UpstreamDay F}
            (λ x. x.date)
            (add_day amount_of)
            (λ x. if str_eq x.date key then number_of n x.totals else 0)
      weighed = record {
        weight_none = λ b. none_case b (str_eq b.date key);
        weight_some = λ b x e. rw e (some_case b x (str_eq b.date key));
      }
