-- ===== src/Names.antt =====
-- web/app.js: the names in the accounts table (`renderAccounts`) and the key that switches between display
-- names and logins.
pub mod Distinct
use mathlib.Core.List.{foldl}
use copilot_api_dashboard.Base.{
  ℕ, suc, String, Bool, true, false, Option, none, some, List, [], ◌∷◌, ◌&&◌, ◌||◌, not, map, any,
  ltb, if◌then◌else◌, str_eq, ◌+++◌,
}
use copilot_api_dashboard.Model.{Account}

-- A text that is there and not empty.
abbrev pub nonempty : Option String → Option String
nonempty none = none
nonempty (some s) = if str_eq s "" then none else some s

-- `Map.get` and `Map.set` on the list of entries.
module _ {ℓ} {V : Type ℓ} where
  unfoldable pub map_get : String → List (String × V) → Option V
  map_get k [] = none
  map_get k ((j, v) ∷ m) = if str_eq j k then some v else map_get k m

  unfoldable pub map_set : String → V → List (String × V) → List (String × V)
  map_set k v [] = (k, v) ∷ []
  map_set k v ((j, w) ∷ m) = if str_eq j k then (j, v) ∷ m else (j, w) ∷ map_set k v m

-- `counts.get(name) ?? 0`
abbrev pub count_of : String → List (String × ℕ) → ℕ
count_of name counts = elim (map_get name counts) [ none ↦ 0 | some k ↦ k ]

-- `for (const name of names) counts.set(name, (counts.get(name) ?? 0) + 1)`
unfoldable pub tally : List String → List (String × ℕ) → List (String × ℕ)
unfolding map_get map_set
tally [] counts = counts
tally (name ∷ names) counts = tally names (map_set name (suc (count_of name counts)) counts)

module _ {ℓ} {W : Type ℓ} where
  -- `a.display_name || a.login`
  unfoldable pub name_of : Account W → String
  name_of a = elim (nonempty a.display_name) [ none ↦ a.login | some s ↦ s ]

  unfoldable pub counts_of : List (Account W) → List (String × ℕ)
  unfolding tally name_of
  counts_of accounts = tally (map name_of accounts) []

  unfoldable pub label : List (String × ℕ) → Account W → String
  unfolding name_of map_get
  label counts a = elim (nonempty a.display_name) [
    | none ↦ name_of a
    | some s ↦
        if ltb 1 (count_of (name_of a) counts)
        then name_of a +++ (" (" +++ (a.login +++ ")"))
        else name_of a
  ]

  -- `new Map(...)`: a later account with the same login takes the place of an earlier one.
  unfoldable pub set_labels :
      List (String × ℕ) → List (Account W) → List (String × String) → List (String × String)
  unfolding label map_set
  set_labels counts [] m = m
  set_labels counts (a ∷ rest) m = set_labels counts rest (map_set a.login (label counts a) m)

  unfoldable pub labels : List (Account W) → List (String × String)
  unfolding set_labels counts_of
  labels accounts = set_labels (counts_of accounts) accounts []

  -- `accountName`; `none` is undefined.
  unfoldable pub account_name : Bool → List (Account W) → Account W → Option String
  unfolding labels map_get
  account_name show_names accounts a =
      if show_names then map_get a.login (labels accounts) else some a.login

  -- `accounts.some((a) => a.display_name)`
  unfoldable pub has_aliases : List (Account W) → Bool
  has_aliases accounts =
      any (λ a. elim (nonempty a.display_name) [ none ↦ false | some s ↦ true ]) accounts

-- The event of a key press; `is_content_editable` and `in_field` are of its target, the latter whether
-- `closest("input, textarea, select")` finds an element.
pub record KeyPress : Type 0 where
  pub key : String
  pub default_prevented : Bool
  pub ctrl_key : Bool
  pub meta_key : Bool
  pub alt_key : Bool
  pub repeat : Bool
  pub is_composing : Bool
  pub is_content_editable : Bool
  pub in_field : Bool

-- `state.showAccountNames`, the conditions of the listener, and the announcement.
pub record Display : Type 0 where
  pub show_names : Bool
  pub accounts_hidden : Bool
  pub has_account_aliases : Bool
  pub has_table : Bool
  pub announcement : String

unfoldable pub toggle_names : KeyPress → Display → Display
toggle_names e d =
    if not (any (str_eq e.key) ("d" ∷ "D" ∷ []))
      || (e.default_prevented
          || (e.ctrl_key || (e.meta_key || (e.alt_key || (e.repeat || e.is_composing)))))
    then d
    else if e.is_content_editable || e.in_field
    then d
    else if d.accounts_hidden || (not d.has_account_aliases || not d.has_table)
    then d
    else record d {
      show_names = not d.show_names;
      announcement =
          if d.show_names then "Account logins shown." else "Account display names shown.";
    }
