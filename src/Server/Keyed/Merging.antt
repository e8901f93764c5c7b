-- ===== src/Server/Keyed/Merging.antt =====
-- What the loops make of the entry with a key, and what is merged in another order.
use copilot_api_dashboard.Base.{
  String, false, Option, none, some, List, [], ◌∷◌, str_eq, if◌then◌else◌, All, ◌≡◌, refl, sym, ap,
  arith, eq_iff, Bool-cases, inl, inr, ◌∙◌,
}
use copilot_api_dashboard.Server.Keyed.{find, put, put_all, merge}
use copilot_api_dashboard.Server.Keyed.Sorted.{
  Distinct, Ascending, Ascending-Distinct, All-sort, sort-Ascending, find-sort, eq_of_find,
}

-- What `add` must do with an entry: the key of a new one, and of one that is there.
pub record IsAdder {ℓ κ} {A : Type ℓ} {B : Type κ} (key : A → String) (name : B → String)
    (add : B → Option A → A) : Type (ℓ ⊔ κ) where
  pub key_none : (b : B) → key (add b none) ≡ name b
  pub key_some : (b : B) (x : A) → key (add b (some x)) ≡ key x

abbrev pub AllOf {ℓ μ} : {A : Type ℓ} → (A → Type μ) → Option A → Type μ
AllOf P none = Unit
AllOf P (some x) = P x

-- Entries that are good stay so, and two additions to one of them can be exchanged.
pub record Commutes {ℓ κ μ} {A : Type ℓ} {B : Type κ} (Good : A → Type μ) (name : B → String)
    (add : B → Option A → A) : Type (ℓ ⊔ κ ⊔ μ) where
  pub good : (b : B) (o : Option A) → AllOf Good o → Good (add b o)
  pub comm :
      (b c : B) (o : Option A)
      → AllOf Good o
      → name b ≡ name c
      → add b (some (add c o)) ≡ add c (some (add b o))

module _ {ℓ κ} {A : Type ℓ} {B : Type κ} (key : A → String) (name : B → String)
    (add : B → Option A → A) where
  -- What a list of additions makes of the entry with a key.
  abbrev pub at_key : String → B → Option A → Option A
  at_key k b o = if str_eq (name b) k then some (add b o) else o

  abbrev pub fold_at : String → List B → Option A → Option A
  fold_at k [] o = o
  fold_at k (b ∷ bs) o = fold_at k bs (at_key k b o)

  module _ (adder : IsAdder key name add) where
    open adder use {key_none, key_some}

    find-put :
        (k : String) (b : B) (xs : List A)
        → find key k (put key (name b) (add b) xs) ≡ at_key k b (find key k xs)
    unfolding find put
    find-put k b [] = rw (key_none b)
    find-put k b (x ∷ xs) = ground (
      arith,
      key_some b x,
      find-put k b xs,
      eq_iff (key x) (name b),
      eq_iff (key x) k,
      eq_iff (name b) k,
    )

    All-put {μ} :
        (P : A → Type μ) (b : B) (xs : List A)
        → P (add b none)
        → ((x : A) → P x → P (add b (some x)))
        → All P xs
        → All P (put key (name b) (add b) xs)
    unfolding put
    All-put P b [] p q h = (p, tt)
    All-put P b (x ∷ xs) p q h = elim (Bool-cases (str_eq (key x) (name b))) [
      | inl e ↦ rw e (q x h.0, h.1)
      | inr e ↦ rw e (h.0, All-put P b xs p q h.1)
    ]

    put-Distinct :
        (b : B) (xs : List A) → Distinct key xs → Distinct key (put key (name b) (add b) xs)
    unfolding put
    put-Distinct b [] d = (tt, tt)
    put-Distinct b (x ∷ xs) d = elim (Bool-cases (str_eq (key x) (name b))) [
      | inl e ↦ rw (e, key_some b x) d
      | inr e ↦ rw e (
        All-put (λ y. str_eq (key x) (key y) ≡ false) b xs (rw (key_none b) e)
            (λ y h. rw (key_some b y) h) d.0,
        put-Distinct b xs d.1,
      )
    ]

    pub put_all-Distinct :
        (xs : List A) (bs : List B) → Distinct key xs → Distinct key (put_all key name add xs bs)
    unfolding put_all
    put_all-Distinct xs [] d = d
    put_all-Distinct xs (b ∷ bs) d =
        put_all-Distinct (put key (name b) (add b) xs) bs (put-Distinct b xs d)

    find-put_all :
        (k : String) (xs : List A) (bs : List B)
        → find key k (put_all key name add xs bs) ≡ fold_at k bs (find key k xs)
    unfolding put_all
    find-put_all k xs [] = refl
    find-put_all k xs (b ∷ bs) =
        find-put_all k (put key (name b) (add b) xs) bs ∙ ap (fold_at k bs) (find-put k b xs)

    -- For every key, merging makes of its entry what the additions with that key make of it,
    pub find-merge :
        (k : String) (xs : List A) (bs : List B)
        → Distinct key xs
        → find key k (merge key name add xs bs) ≡ fold_at k bs (find key k xs)
    unfolding merge
    find-merge k xs bs d =
        find-sort key k (put_all key name add xs bs) (put_all-Distinct xs bs d)
        ∙ find-put_all k xs bs

    -- and leaves the entries in the order of their keys.
    pub merge-Ascending :
        (xs : List A) (bs : List B) → Distinct key xs → Ascending key (merge key name add xs bs)
    unfolding merge
    merge-Ascending xs bs d =
        sort-Ascending key (put_all key name add xs bs) (put_all-Distinct xs bs d)

    pub All-merge {μ} :
        (P : A → Type μ) (xs : List A) (bs : List B)
        → ((b : B) (o : Option A) → AllOf P o → P (add b o))
        → All P xs
        → All P (merge key name add xs bs)
    unfolding merge
    All-merge P xs bs p h = All-sort key P (put_all key name add xs bs) (each xs bs h)
      where
        each : (ys : List A) (cs : List B) → All P ys → All P (put_all key name add ys cs)
        each ys [] h = h
        each ys (c ∷ cs) h =
            each (put key (name c) (add c) ys) cs
              (All-put P c ys (p c none tt) (λ x q. p c (some x) q) h)

    module _ {μ} {Good : A → Type μ} (commutes : Commutes Good name add) where
      open commutes use {good, comm}

      at_key-good : (k : String) (b : B) (o : Option A) → AllOf Good o → AllOf Good (at_key k b o)
      at_key-good k b o h = elim (Bool-cases (str_eq (name b) k)) [
        | inl e ↦ rw e (good b o h)
        | inr e ↦ rw e h
      ]

      at_key_comm :
          (k : String) (b c : B) (o : Option A)
          → AllOf Good o
          → at_key k b (at_key k c o) ≡ at_key k c (at_key k b o)
      at_key_comm k b c o h = elim (Bool-cases (str_eq (name b) k)) [
        | inr e ↦ rw e
        | inl e ↦ elim (Bool-cases (str_eq (name c) k)) [
          | inr f ↦ rw (e, f)
          | inl f ↦
              rw (e, f)
                (ap some (comm b c o h ((eq_iff (name b) k).0 e ∙ sym ((eq_iff (name c) k).0 f))))
        ]
      ]

      fold_at-at_key :
          (k : String) (b : B) (cs : List B) (o : Option A)
          → AllOf Good o
          → fold_at k cs (at_key k b o) ≡ at_key k b (fold_at k cs o)
      fold_at-at_key k b [] o h = refl
      fold_at-at_key k b (c ∷ cs) o h =
          ap (fold_at k cs) (at_key_comm k c b o h)
          ∙ fold_at-at_key k b cs (at_key k c o) (at_key-good k c o h)

      fold_at_comm :
          (k : String) (bs cs : List B) (o : Option A)
          → AllOf Good o
          → fold_at k cs (fold_at k bs o) ≡ fold_at k bs (fold_at k cs o)
      fold_at_comm k [] cs o h = refl
      fold_at_comm k (b ∷ bs) cs o h =
          fold_at_comm k bs cs (at_key k b o) (at_key-good k b o h)
          ∙ ap (fold_at k bs) (fold_at-at_key k b cs o h)

      find-good : (k : String) (xs : List A) → All Good xs → AllOf Good (find key k xs)
      unfolding find
      find-good k [] h = tt
      find-good k (x ∷ xs) h = elim (Bool-cases (str_eq (key x) k)) [
        | inl e ↦ rw e h.0
        | inr e ↦ rw e (find-good k xs h.1)
      ]

      -- Two merges can be exchanged.
      pub merge_comm :
          (xs : List A) (bs cs : List B)
          → Distinct key xs
          → All Good xs
          → merge key name add (merge key name add xs bs) cs
            ≡ merge key name add (merge key name add xs cs) bs
      merge_comm xs bs cs d h = eq_of_find key _ _ (both bs cs) (both cs bs) λ k.
          found k bs cs
          ∙ fold_at_comm k bs cs (find key k xs) (find-good k xs h)
          ∙ sym (found k cs bs)
        where
          first : (ds : List B) → Distinct key (merge key name add xs ds)
          first ds = Ascending-Distinct key (merge key name add xs ds) (merge-Ascending xs ds d)

          both : (ds es : List B) → Ascending key (merge key name add (merge key name add xs ds) es)
          both ds es = merge-Ascending (merge key name add xs ds) es (first ds)

          found :
              (k : String) (ds es : List B)
              → find key k (merge key name add (merge key name add xs ds) es)
                ≡ fold_at k es (fold_at k ds (find key k xs))
          found k ds es =
              find-merge k (merge key name add xs ds) es (first ds)
              ∙ ap (fold_at k es) (find-merge k xs ds d)
