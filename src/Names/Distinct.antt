-- ===== src/Names/Distinct.antt =====
-- Display names tell accounts apart.
use Prim.Native.String.{len, slice}
use text.Mathlib.TextPositions.{len-append, slice-append_left, slice-append_right}
use copilot_api_dashboard.Base.{
  ℕ, zero, suc, ◌+◌, ◌≤◌, ◌<◌, String, Bool, true, false, none, some, List, [], ◌∷◌, map, any, ◌≡◌,
  ◌≢◌, inl, inr, ◌∙◌, ap, sym, refl, arith, eq_iff, if◌then◌else◌, str_eq, str_eq_self, ◌+++◌,
  Option-cases, ltb,
}
use copilot_api_dashboard.Model.{Account}
use copilot_api_dashboard.Names.{
  nonempty, map_get, map_set, count_of, tally, name_of, counts_of, label, set_labels, labels,
  account_name,
}

append-cancel_left : (s x y : String) → s +++ x ≡ s +++ y → x ≡ y
append-cancel_left s x y h =
    let same : len x ≡ len y = omega (arith, len-append s x, len-append s y, ap len h) in
    sym (slice-append_right s x)
    ∙ (λ i. slice (h i) (len s) (len s + same i))
    ∙ slice-append_right s y

append-cancel_right : (x y t : String) → x +++ t ≡ y +++ t → x ≡ y
append-cancel_right x y t h =
    let same : len x ≡ len y = omega (arith, len-append x t, len-append y t, ap len h) in
    sym (slice-append_left x t) ∙ (λ i. slice (h i) zero (same i)) ∙ slice-append_left y t

append-ne_self : (s x : String) → 0 < len x → s +++ x ≢ s
append-ne_self s x h e = absurd (omega (arith, len-append s x, ap len e))

module _ {ℓ} {V : Type ℓ} where
  pub map_get-map_set :
      (k j : String) (v : V) (m : List (String × V))
      → map_get j (map_set k v m) ≡ (if str_eq k j then some v else map_get j m)
  unfolding map_get map_set
  map_get-map_set k j v [] = refl
  map_get-map_set k j v ((i, w) ∷ m) =
      ground (arith, eq_iff k j, eq_iff i k, eq_iff i j, map_get-map_set k j v m)

-- How often a text stands in a list.
abbrev pub occurrences : String → List String → ℕ
occurrences k [] = 0
occurrences k (s ∷ ss) = if str_eq s k then suc (occurrences k ss) else occurrences k ss

-- The loop over the names counts them.
count_of-tally :
    (k : String) (names : List String) (m : List (String × ℕ))
    → count_of k (tally names m) ≡ count_of k m + occurrences k names
unfolding tally
count_of-tally k [] m = omega arith
count_of-tally k (s ∷ names) m =
    count_of-tally k names (map_set s (suc (count_of s m)) m)
    ∙ ground (arith, map_get-map_set s k (suc (count_of s m)) m, eq_iff s k)

-- The map that the loop over the names makes from nothing gives, for every text, how often it stands among
-- the names.
count_of-tally_lem :
    (k : String) (names : List String) → count_of k (tally names []) ≡ occurrences k names
unfolding map_get
count_of-tally_lem k names = count_of-tally k names [] ∙ omega arith

module _ {ℓ} {W : Type ℓ} where
  -- The account stands in the list.
  pub data Among (a : Account W) : List (Account W) → Type ℓ where
    here : {x : Account W} {xs : List (Account W)} → a ≡ x → Among a (x ∷ xs)
    there : {x : Account W} {xs : List (Account W)} → Among a xs → Among a (x ∷ xs)

  abbrev pub has_login : String → List (Account W) → Bool
  has_login l xs = any (λ (x : Account W). str_eq x.login l) xs

  -- No two accounts have the same login.
  abbrev pub NoneTwice : List (Account W) → Type 0
  NoneTwice [] = Unit
  NoneTwice (x ∷ xs) = (has_login x.login xs ≡ false) × NoneTwice xs

  pub has_login-Among :
      (a : Account W) (xs : List (Account W)) → Among a xs → has_login a.login xs ≡ true
  has_login-Among a [] h = elim h [ ]
  has_login-Among a (x ∷ xs) (here e) = rw e (ground (arith, str_eq_self x.login))
  has_login-Among a (x ∷ xs) (there h) = ground (arith, has_login-Among a xs h)

  occurrences-Among :
      (a : Account W) (xs : List (Account W))
      → Among a xs
      → 1 ≤ occurrences (name_of a) (map name_of xs)
  occurrences-Among a [] h = elim h [ ]
  occurrences-Among a (x ∷ xs) (here e) = rw e (ground (arith, str_eq_self (name_of x)))
  occurrences-Among a (x ∷ xs) (there h) = ground (arith, occurrences-Among a xs h)

  occurrences_two :
      (a b : Account W) (xs : List (Account W))
      → str_eq a.login b.login ≡ false
      → name_of a ≡ name_of b
      → Among a xs
      → Among b xs
      → 2 ≤ occurrences (name_of a) (map name_of xs)
  occurrences_two a b [] d e h k = elim h [ ]
  occurrences_two a b (x ∷ xs) d e (here h) (here k) = absurd (
      ground (
        arith,
        str_eq_self x.login,
        ap (λ (y : Account W). y.login) h,
        ap (λ (y : Account W). y.login) k,
      ))
  occurrences_two a b (x ∷ xs) d e (here h) (there k) =
      let one : 1 ≤ occurrences (name_of a) (map name_of xs) = rw e (occurrences-Among b xs k) in
      ground (arith, ap name_of h, str_eq_self (name_of x))
  occurrences_two a b (x ∷ xs) d e (there h) (here k) =
      let one = occurrences-Among a xs h in ground (arith, ap name_of k, str_eq_self (name_of x))
  occurrences_two a b (x ∷ xs) d e (there h) (there k) =
      ground (arith, occurrences_two a b xs d e h k)

  set_labels_other :
      (l : String) (counts : List (String × ℕ)) (xs : List (Account W)) (m : List (String × String))
      → has_login l xs ≡ false
      → map_get l (set_labels counts xs m) ≡ map_get l m
  unfolding set_labels
  set_labels_other l counts [] m h = refl
  set_labels_other l counts (x ∷ xs) m h =
      set_labels_other l counts xs (map_set x.login (label counts x) m) (ground arith)
      ∙ ground (arith, map_get-map_set x.login l (label counts x) m)

  set_labels_lem :
      (a : Account W) (counts : List (String × ℕ)) (xs : List (Account W))
      (m : List (String × String))
      → NoneTwice xs
      → Among a xs
      → map_get a.login (set_labels counts xs m) ≡ some (label counts a)
  unfolding set_labels
  set_labels_lem a counts [] m d h = elim h [ ]
  set_labels_lem a counts (x ∷ xs) m d (here e) = rw e (
      set_labels_other x.login counts xs (map_set x.login (label counts x) m) d.0
      ∙ ground (arith, map_get-map_set x.login x.login (label counts x) m, str_eq_self x.login))
  set_labels_lem a counts (x ∷ xs) m d (there h) =
      set_labels_lem a counts xs (map_set x.login (label counts x) m) d.1 h

  label_plain :
      (counts : List (String × ℕ)) (a : Account W)
      → nonempty a.display_name ≡ none
      → label counts a ≡ name_of a
  unfolding label
  label_plain counts a p = rw (label, p)

  label_twice :
      (counts : List (String × ℕ)) (a : Account W) (s : String)
      → nonempty a.display_name ≡ some s
      → 2 ≤ count_of (name_of a) counts
      → label counts a ≡ name_of a +++ (" (" +++ (a.login +++ ")"))
  unfolding label
  label_twice counts a s p two =
      let often : ltb 1 (count_of (name_of a) counts) ≡ true = ground arith in rw (label, p, often)

  label-ne :
      (counts : List (String × ℕ)) (a b : Account W)
      → str_eq a.login b.login ≡ false
      → name_of a ≡ name_of b
      → 2 ≤ count_of (name_of a) counts
      → label counts a ≢ label counts b
  unfolding name_of
  label-ne counts a b d e two h =
      let two' : 2 ≤ count_of (name_of b) counts = rw (← e) two in
      elim (Option-cases (nonempty a.display_name)) [
        | inl p ↦ elim (Option-cases (nonempty b.display_name)) [
          | inl q ↦ absurd (ground (arith, eq_iff a.login b.login))
          | inr (t, q) ↦
              append-ne_self (name_of b) _ (pos b)
                (sym (label_twice counts b t q two') ∙ sym h ∙ label_plain counts a p ∙ e)
        ]
        | inr (s, p) ↦ elim (Option-cases (nonempty b.display_name)) [
          | inl q ↦
              append-ne_self (name_of a) _ (pos a)
                (sym (label_twice counts a s p two) ∙ h ∙ label_plain counts b q ∙ sym e)
          | inr (t, q) ↦
              let same : name_of b +++ (" (" +++ (a.login +++ ")"))
                  ≡ name_of b +++ (" (" +++ (b.login +++ ")")) =
                ap (λ k. k +++ (" (" +++ (a.login +++ ")"))) (sym e)
                ∙ sym (label_twice counts a s p two)
                ∙ h
                ∙ label_twice counts b t q two' in
              let login : a.login ≡ b.login =
                append-cancel_right a.login b.login ")"
                  (append-cancel_left " (" _ _ (append-cancel_left (name_of b) _ _ same)) in
              absurd (ground (arith, eq_iff a.login b.login))
        ]
      ]
    where
      pos : (x : Account W) → 0 < len (" (" +++ (x.login +++ ")"))
      pos x = omega (arith, len-append " (" (x.login +++ ")"))

  -- In a list where no login stands twice, two accounts with different logins and the same name, be it a
  -- display name or a login, stand under different names in the table, in both displays.
  pub account_name-ne :
      (show_names : Bool) (accounts : List (Account W)) (a b : Account W)
      → NoneTwice accounts
      → Among a accounts
      → Among b accounts
      → str_eq a.login b.login ≡ false
      → name_of a ≡ name_of b
      → account_name show_names accounts a ≢ account_name show_names accounts b
  unfolding account_name labels counts_of
  account_name-ne false accounts a b d ha hb l e h = absurd (ground (arith, eq_iff a.login b.login))
  account_name-ne true accounts a b d ha hb l e h =
      let counts = tally (map name_of accounts) [] in
      let two : 2 ≤ count_of (name_of a) counts = omega (
        arith,
        count_of-tally_lem (name_of a) (map name_of accounts),
        occurrences_two a b accounts l e ha hb,
      ) in
      let same : label counts a ≡ label counts b = some-eq (
        sym (set_labels_lem a counts accounts [] d ha)
        ∙ h
        ∙ set_labels_lem b counts accounts [] d hb) in
      label-ne counts a b l e two same
    where
      some-eq : {s t : String} → some s ≡ some t → s ≡ t
      some-eq k = cc
