-- ===== src/Accounts/Select.antt =====
-- What the account selector shows.
use copilot_api_dashboard.Base.{
  String, true, false, none, some, List, [], ◌∷◌, ◌++◌, any, str_eq, str_eq_self, ◌≡◌, inl, inr,
  refl, arith, eq_iff, Bool-cases, Option-cases,
}
use copilot_api_dashboard.Model.{Account}
use copilot_api_dashboard.Accounts.{
  select_value, same_login, find_login, logins, canonical, account_options, add_option, has_login,
}

any-append_right :
    (a : String) (xs ys : List String) → any (str_eq a) ys ≡ true → any (str_eq a) (xs ++ ys) ≡ true
any-append_right a [] ys h = h
any-append_right a (x ∷ xs) ys h = ground (arith, any-append_right a xs ys h)

any-last : (a : String) (xs : List String) → any (str_eq a) (xs ++ a ∷ []) ≡ true
any-last a xs = any-append_right a xs (a ∷ []) (ground (arith, str_eq_self a))

pub select_value-any :
    (a : String) (os : List String) → any (str_eq a) os ≡ true → select_value os a ≡ a
select_value-any a os h = rw h

-- `selectAccountOption` shows the account that it is given.
pub select_value-add_option : (a : String) (os : List String) → select_value (add_option a os) a ≡ a
unfolding add_option
select_value-add_option a os = ground (arith, eq_iff a "", any-last a os)

module _ {ℓ} {W : Type ℓ} (lower : String → String) where
  any-find_login :
      (account l : String) (as' : List (Account W))
      → find_login lower account as' ≡ some l
      → (any (str_eq l) (logins lower as') ≡ true)
        × (has_login l as' ≡ true)
        × (same_login lower l account ≡ true)
  unfolding find_login has_login
  any-find_login account l [] h = cc
  any-find_login account l (a ∷ rest) h = elim (Bool-cases (same_login lower a.login account)) [
    | inl e ↦ ground (arith, str_eq_self l)
    | inr e ↦ ground (arith, any-find_login account l rest)
  ]

  -- `updateAccounts` shows the selected account among the options, whether the server knows it or not.
  pub select_value-canonical :
      (account : String) (accounts : List (Account W))
      → select_value (account_options lower account accounts) (canonical lower account accounts)
        ≡ canonical lower account accounts
  unfolding account_options canonical
  select_value-canonical account accounts =
      elim (Option-cases (find_login lower account accounts)) [
        | inl e ↦ ground (
          arith,
          any-last account (logins lower accounts),
          eq_iff account "",
          str_eq_self account,
        )
        | inr (l, e) ↦ ground (arith, any-find_login account l accounts e)
      ]

  has_login-same_login :
      (account : String) (accounts : List (Account W))
      → find_login lower account accounts ≡ none
      → (has_login account accounts ≡ false)
        × (any (λ (a : Account W). same_login lower a.login account) accounts ≡ false)
  unfolding find_login has_login
  has_login-same_login account [] h = (refl, refl)
  has_login-same_login account (a ∷ rest) h = elim (Bool-cases (same_login lower a.login account)) [
    | inl e ↦ cc (rw e at h)
    | inr e ↦ ground (
      arith,
      has_login-same_login account rest,
      eq_iff a.login account,
      str_eq_self (lower account),
    )
  ]

  any_of_find_login :
      (account l : String) (accounts : List (Account W))
      → find_login lower account accounts ≡ some l
      → any (λ (a : Account W). same_login lower a.login account) accounts ≡ true
  unfolding find_login
  any_of_find_login account l [] h = cc
  any_of_find_login account l (a ∷ rest) h = ground (arith, any_of_find_login account l rest)

  canonical-same_login :
      (account : String) (accounts : List (Account W))
      → (same_login lower (canonical lower account accounts) account ≡ true)
        × (has_login (canonical lower account accounts) accounts
            ≡ any (λ (a : Account W). same_login lower a.login account) accounts)
  unfolding canonical
  canonical-same_login account accounts = elim (Option-cases (find_login lower account accounts)) [
    | inl e ↦ ground (arith, has_login-same_login account accounts e, str_eq_self (lower account))
    | inr (l, e) ↦
        ground (arith, any-find_login account l accounts e, any_of_find_login account l accounts e)
  ]

  -- The account that `updateAccounts` selects is the requested one up to case, and it is the login of an
  -- account of the list exactly when the list has an account with the requested login up to case; the selector,
  -- whose options `updateAccounts` writes, then shows it.
  pub canonical_lem :
      (account : String) (accounts : List (Account W))
      → (same_login lower (canonical lower account accounts) account ≡ true)
        × (has_login (canonical lower account accounts) accounts
            ≡ any (λ (a : Account W). same_login lower a.login account) accounts)
        × (select_value (account_options lower account accounts) (canonical lower account accounts)
            ≡ canonical lower account accounts)
  canonical_lem account accounts =
      let (same, has) = canonical-same_login account accounts in
      (same, has, select_value-canonical account accounts)
