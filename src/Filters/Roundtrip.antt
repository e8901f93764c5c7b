-- ===== src/Filters/Roundtrip.antt =====
-- The address bar keeps the filters.
use copilot_api_dashboard.Base.{String, true, ◌≡◌, arith, eq_iff, Bool-cases, inl, inr}
use copilot_api_dashboard.Filters.{
  Query, get, or_else, default_period, is_period, filter_query, location_filters,
}

-- For every account and every period of the list, the query that `filterQuery` writes is read back by
-- `locationFilters` as the same account and period, and the period is found valid.
pub location_filters-filter_query :
    (account period : String)
    → is_period period ≡ true
    → location_filters (filter_query account period)
      ≡ record { account = account; period = period; valid_period = true }
unfolding location_filters filter_query
location_filters-filter_query account period h =
    ground (arith, eq_iff account "", eq_iff period default_period)

-- Whatever the address bar holds, the period that is read is one of the list.
pub location_filters-is_period : (q : Query) → is_period (location_filters q).period ≡ true
unfolding location_filters
location_filters-is_period q =
    elim (Bool-cases (is_period (or_else (get "period" q) default_period))) [
      | inl h ↦ rw (h) h
      | inr h ↦ rw h
    ]

-- For every query, writing the filters that are read from it and reading them back changes neither, and
-- the rewritten query has a valid period.
pub location_filters_idem :
    (q : Query)
    → let f = location_filters q in
      location_filters (filter_query f.account f.period) ≡ record f { valid_period = true }
location_filters_idem q =
    let f = location_filters q in
    location_filters-filter_query f.account f.period (location_filters-is_period q)
