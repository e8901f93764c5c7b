-- ===== src/Accounts.antt =====
-- web/app.js: the account selector (`updateAccounts`, `selectAccountOption`). `lower` is
-- `String.prototype.toLowerCase`.
pub mod Select
use copilot_api_dashboard.Base.{
  String, Bool, true, false, Option, none, some, List, [], ◌∷◌, ◌++◌, ◌&&◌, not, map, any,
  if◌then◌else◌, str_eq,
}
use copilot_api_dashboard.Model.{Account}

-- Assigning `select.value`: a value that is no option leaves the selector with none.
abbrev pub select_value : List String → String → String
select_value options login = if any (str_eq login) options then login else ""

module _ (lower : String → String) where
  abbrev pub same_login : String → String → Bool
  same_login a b = str_eq (lower a) (lower b)

  module _ {ℓ} {W : Type ℓ} where
    -- `accounts.find` by login, without regard to case.
    unfoldable pub find_login : String → List (Account W) → Option String
    find_login account [] = none
    find_login account (a ∷ rest) =
        if same_login a.login account then some a.login else find_login account rest

    abbrev pub logins : List (Account W) → List String
    logins = map (λ a. a.login)

    -- The account that is selected after `updateAccounts`: spelled as the server spells it.
    unfoldable pub canonical : String → List (Account W) → String
    unfolding find_login
    canonical account accounts = elim (find_login account accounts) [ none ↦ account | some l ↦ l ]

    unfoldable pub account_options : String → List (Account W) → List String
    unfolding find_login
    account_options account accounts = elim (find_login account accounts) [
      | none ↦
          if not (str_eq account "")
          then "" ∷ (logins accounts ++ account ∷ [])
          else "" ∷ logins accounts
      | some l ↦ "" ∷ logins accounts
    ]

-- `selectAccountOption`: the option is added if the selector has none for the account.
unfoldable pub add_option : String → List String → List String
add_option login options =
    if not (str_eq login "") && not (any (str_eq login) options)
    then options ++ login ∷ []
    else options

-- `accounts.find((a) => a.login === state.account)`
unfoldable pub has_login {ℓ} : {W : Type ℓ} → String → List (Account W) → Bool
has_login account accounts = any (λ a. str_eq a.login account) accounts
