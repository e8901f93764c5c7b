-- ===== src/Filters.antt =====
-- web/app.js: the filters in the address bar (`filterQuery`, `locationFilters`). A query is the list of
-- pairs that `URLSearchParams` reads from it and writes to it.
pub mod Roundtrip
use copilot_api_dashboard.Base.{
  String, Bool, true, false, Option, none, some, List, [], ◌∷◌, if◌then◌else◌, str_eq, any,
}

abbrev pub Query : Type 0
Query = List (String × String)

-- `URLSearchParams.get`: the first value of a key.
unfoldable pub get : String → Query → Option String
get k [] = none
get k ((j, v) ∷ q) = if str_eq j k then some v else get k q

unfoldable pub delete : String → Query → Query
delete k [] = []
delete k ((j, v) ∷ q) = let rest = delete k q in if str_eq j k then rest else (j, v) ∷ rest

-- `URLSearchParams.set`: the first pair of the key gets the value, and its other pairs go.
unfoldable pub set : String → String → Query → Query
unfolding delete
set k v [] = (k, v) ∷ []
set k v ((j, w) ∷ q) = if str_eq j k then (k, v) ∷ delete k q else (j, w) ∷ set k v q

-- `value ?? fallback` on what `get` gives
abbrev pub or_else : Option String → String → String
or_else none d = d
or_else (some v) d = v

abbrev pub periods : List String
periods = "today" ∷ "this_week" ∷ "last_7_days" ∷ "this_month" ∷ "last_30_days" ∷ "lifetime" ∷ []

abbrev pub default_period : String
default_period = "last_30_days"

-- `periods.includes(period)`
abbrev pub is_period : String → Bool
is_period p = any (str_eq p) periods

unfoldable pub filter_query : String → String → Query
unfolding set
filter_query account period =
    let query : Query = if str_eq account "" then [] else set "account" account [] in
    if str_eq period default_period then query else set "period" period query

pub record LocationFilters : Type 0 where
  pub account : String
  pub period : String
  pub valid_period : Bool

unfoldable pub location_filters : Query → LocationFilters
unfolding get
location_filters query =
    let period = or_else (get "period" query) default_period in
    record {
      account = or_else (get "account" query) "";
      period = if is_period period then period else default_period;
      valid_period = is_period period;
    }
