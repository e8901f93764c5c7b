-- ===== src/Server/Keyed/Sorted.antt =====
-- Lists of entries with distinct keys: what the loops give, entry by entry.
use copilot_api_dashboard.Base.{
  String, true, false, none, some, List, [], ◌∷◌, str_eq, text_lt, if◌then◌else◌, All, All_mono,
  ◌≢◌, ◌≡◌, refl, sym, ap, ap₂, subst, arith, eq_iff, str_eq_self, text_lt_irrefl, text_lt_trans,
  text_lt_total, Bool-cases, inl, inr, ◌∙◌,
}
use copilot_api_dashboard.Server.Keyed.{find, insert, sort}

pub lt_ne : (s t : String) → text_lt s t ≡ true → str_eq s t ≡ false
lt_ne s t h = elim (Bool-cases (str_eq s t)) [
  | inr e ↦ e
  | inl e ↦ cc (sym h ∙ ap (text_lt s) (sym ((eq_iff s t).0 e)) ∙ text_lt_irrefl s)
]

pub ne_sym : (s t : String) → str_eq s t ≡ false → str_eq t s ≡ false
ne_sym s t h = ground (arith, eq_iff s t, eq_iff t s)

module _ {ℓ} {A : Type ℓ} (key : A → String) where
  abbrev pub Distinct : List A → Type 0
  Distinct [] = Unit
  Distinct (x ∷ xs) = All (λ y. str_eq (key x) (key y) ≡ false) xs × Distinct xs

  abbrev pub Ascending : List A → Type 0
  Ascending [] = Unit
  Ascending (x ∷ xs) = All (λ y. text_lt (key x) (key y) ≡ true) xs × Ascending xs

  pub Ascending-Distinct : (xs : List A) → Ascending xs → Distinct xs
  Ascending-Distinct [] h = tt
  Ascending-Distinct (x ∷ xs) h =
      (All_mono (λ y. lt_ne (key x) (key y)) xs h.0, Ascending-Distinct xs h.1)

  All-insert {μ} : (P : A → Type μ) (x : A) (xs : List A) → P x → All P xs → All P (insert key x xs)
  unfolding insert
  All-insert P x [] p h = (p, tt)
  All-insert P x (y ∷ ys) p h = elim (Bool-cases (text_lt (key x) (key y))) [
    | inl e ↦ rw e (p, h)
    | inr e ↦ rw e (h.0, All-insert P x ys p h.1)
  ]

  pub All-sort {μ} : (P : A → Type μ) (xs : List A) → All P xs → All P (sort key xs)
  unfolding sort
  All-sort P [] h = tt
  All-sort P (x ∷ xs) h = All-insert P x (sort key xs) h.0 (All-sort P xs h.1)

  insert-Ascending :
      (x : A) (xs : List A)
      → All (λ y. str_eq (key x) (key y) ≡ false) xs
      → Ascending xs
      → Ascending (insert key x xs)
  unfolding insert
  insert-Ascending x [] d a = (tt, tt)
  insert-Ascending x (y ∷ ys) d a = elim (Bool-cases (text_lt (key x) (key y))) [
    | inl e ↦ rw e ((e, All_mono (λ z h. text_lt_trans (key x) (key y) (key z) e h) ys a.0), a)
    | inr e ↦ rw e (
      All-insert (λ z. text_lt (key y) (key z) ≡ true) x ys (after x y d.0 e) a.0,
      insert-Ascending x ys d.1 a.1,
    )
  ]
    where
      after :
          (v w : A)
          → str_eq (key v) (key w) ≡ false
          → text_lt (key v) (key w) ≡ false
          → text_lt (key w) (key v) ≡ true
      after v w d e = elim (Bool-cases (text_lt (key w) (key v))) [
        | inl h ↦ h
        | inr h ↦ cc (sym d ∙ (eq_iff (key v) (key w)).1 (text_lt_total (key v) (key w) e h))
      ]

  -- Sorting entries with distinct keys puts them in the order of the keys,
  pub sort-Ascending : (xs : List A) → Distinct xs → Ascending (sort key xs)
  unfolding sort
  sort-Ascending [] d = tt
  sort-Ascending (x ∷ xs) d =
      insert-Ascending x (sort key xs) (All-sort (λ y. str_eq (key x) (key y) ≡ false) xs d.0)
        (sort-Ascending xs d.1)

  find-insert :
      (k : String) (x : A) (xs : List A)
      → All (λ y. str_eq (key x) (key y) ≡ false) xs
      → find key k (insert key x xs) ≡ (if str_eq (key x) k then some x else find key k xs)
  unfolding insert find
  find-insert k x [] d = refl
  find-insert k x (y ∷ ys) d = elim (Bool-cases (text_lt (key x) (key y))) [
    | inl e ↦ rw e
    | inr e ↦ rw e (
        ground (
          arith,
          find-insert k x ys d.1,
          eq_iff (key x) k,
          eq_iff (key y) k,
          eq_iff (key x) (key y),
        ))
  ]

  -- and loses none of them.
  pub find-sort :
      (k : String) (xs : List A) → Distinct xs → find key k (sort key xs) ≡ find key k xs
  unfolding sort find
  find-sort k [] d = refl
  find-sort k (x ∷ xs) d =
      find-insert k x (sort key xs) (All-sort (λ y. str_eq (key x) (key y) ≡ false) xs d.0)
      ∙ ap (λ o. if str_eq (key x) k then some x else o) (find-sort k xs d.1)

  pub find-none :
      (k : String) (xs : List A) → All (λ y. str_eq (key y) k ≡ false) xs → find key k xs ≡ none
  unfolding find
  find-none k [] h = refl
  find-none k (x ∷ xs) h = rw h.0 (find-none k xs h.1)

  find-head : (x : A) (xs : List A) → find key (key x) (x ∷ xs) ≡ some x
  unfolding find
  find-head x xs = rw (str_eq_self (key x))

  above-none :
      (k : String) (xs : List A) → All (λ y. text_lt k (key y) ≡ true) xs → find key k xs ≡ none
  above-none k xs h = find-none k xs (All_mono (λ y l. ne_sym k (key y) (lt_ne k (key y) l)) xs h)

  head_first :
      (x y : A) (ys : List A)
      → text_lt (key x) (key y) ≡ true
      → Ascending (y ∷ ys)
      → find key (key x) (y ∷ ys) ≡ none
  head_first x y ys e a =
      above-none (key x) (y ∷ ys)
        (e, All_mono (λ z h. text_lt_trans (key x) (key y) (key z) e h) ys a.0)

  some-ne-none : (x : A) → some x ≢ none
  some-ne-none x h = cc

  -- Two lists in the order of their keys are equal if they have the same entry for every key.
  pub eq_of_find :
      (xs ys : List A)
      → Ascending xs
      → Ascending ys
      → ((k : String) → find key k xs ≡ find key k ys)
      → xs ≡ ys
  unfolding find
  eq_of_find [] [] a b h = refl
  eq_of_find [] (y ∷ ys) a b h = absurd (some-ne-none y (sym (find-head y ys) ∙ sym (h (key y))))
  eq_of_find (x ∷ xs) [] a b h = absurd (some-ne-none x (sym (find-head x xs) ∙ h (key x)))
  eq_of_find (x ∷ xs) (y ∷ ys) a b h = elim (Bool-cases (text_lt (key x) (key y))) [
    | inl e ↦ absurd (some-ne-none x (sym (find-head x xs) ∙ h (key x) ∙ head_first x y ys e b))
    | inr e ↦ elim (Bool-cases (text_lt (key y) (key x))) [
      | inl f ↦
          absurd (some-ne-none y (sym (find-head y ys) ∙ sym (h (key y)) ∙ head_first y x xs f a))
      | inr f ↦
          let keys : key x ≡ key y = text_lt_total (key x) (key y) e f in
          let heads : some x ≡ some y =
            sym (find-head x xs)
            ∙ h (key x)
            ∙ ap (λ k. find key k (y ∷ ys)) keys
            ∙ find-head y ys in
          let same : x ≡ y = cc in ap₂ ◌∷◌ same (eq_of_find xs ys a.1 b.1 (rest keys same))
    ]
  ]
    where
      rest : key x ≡ key y → x ≡ y → (k : String) → find key k xs ≡ find key k ys
      rest keys same k = elim (Bool-cases (str_eq (key x) k)) [
        | inl e ↦
            let at : key x ≡ k = (eq_iff (key x) k).0 e in
            subst (λ l. find key l xs ≡ find key l ys) at
              (above-none (key x) xs a.0
                ∙ sym (ap (λ l. find key l ys) keys ∙ above-none (key y) ys b.0))
        | inr e ↦
            let other : str_eq (key y) k ≡ false = subst (λ l. str_eq l k ≡ false) keys e in
            rw (e, other) at (h k)
      ]
