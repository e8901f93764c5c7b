-- ===== src/Server/Resolve.antt =====
-- internal/dashboard/service.go: `resolve`, with `Less` and `Deduplicate` of internal/discovery/discovery.go.
pub mod Logins
use copilot_api_dashboard.Base.{
  String, Bool, true, false, List, [], ◌∷◌, ◌++◌, ◌||◌, any, not, str_eq, text_lt, if◌then◌else◌,
}
use copilot_api_dashboard.Server.Keyed.{sort}
use copilot_api_dashboard.Server.Service.{Endpoint, Failure, Usage, Resolved, failure}

-- What `Usage` returns: an error or the usage.
pub data Fetched {ℓ} (Q : Type ℓ) : Type ℓ where
  no_usage : String → Fetched Q
  fetched : Usage Q → Fetched Q

abbrev pub less : Endpoint → Endpoint → Bool
less a b =
    if not (str_eq a.source b.source)
    then str_eq a.source "yaml"
    else if not (str_eq a.url b.url)
    then text_lt a.url b.url
    else text_lt a.name b.name

-- `sort.SliceStable`
unfoldable pub place : Endpoint → List Endpoint → List Endpoint
place e [] = e ∷ []
place e (x ∷ xs) = if less x e then x ∷ place e xs else e ∷ x ∷ xs

unfoldable pub sort_stable : List Endpoint → List Endpoint
unfolding place
sort_stable [] = []
sort_stable (e ∷ es) = place e (sort_stable es)

-- The endpoints that are kept after those with these addresses and names.
unfoldable pub keep_new : List String → List String → List Endpoint → List Endpoint
keep_new urls names [] = []
keep_new urls names (e ∷ es) =
    let kept = keep_new (e.url ∷ urls) (e.name ∷ names) es in
    let rest = keep_new urls names es in
    if any (str_eq e.url) urls || any (str_eq e.name) names then rest else e ∷ kept

unfoldable pub deduplicate : List Endpoint → List Endpoint
unfolding keep_new sort_stable
deduplicate items = keep_new [] [] (sort_stable items)

-- A round of the loop over the results, after accounts with these logins; `rest` is what the later rounds give.
abbrev pub add_answer {ℓ} :
    {Q : Type ℓ}
    → (String → String)
    → Endpoint
    → List String
    → Fetched Q
    → (List String → List (Resolved Q) × List Failure)
    → List (Resolved Q) × List Failure
add_answer to_lower e seen (no_usage message) rest =
    ((rest seen).0, failure e "usage" message ∷ (rest seen).1)
add_answer to_lower e seen (fetched usage) rest =
    let key = to_lower usage.login in
    let next = rest (key ∷ seen) in
    if any (str_eq key) seen
    then rest seen
    else (record { endpoint = e; usage = usage } ∷ next.0, next.1)

module _ {ℓ} {Q : Type ℓ} (to_lower : String → String) (usage_of : Endpoint → Fetched Q) where
  unfoldable pub collect : List Endpoint → List String → List (Resolved Q) × List Failure
  collect [] seen = ([], [])
  collect (e ∷ es) seen = add_answer to_lower e seen (usage_of e) (collect es)

  unfoldable pub resolve : List Endpoint → List Failure → List (Resolved Q) × List Failure
  unfolding deduplicate collect sort
  resolve endpoints failures =
      let results = collect (deduplicate endpoints) [] in
      (sort (λ a. to_lower a.usage.login) results.0, failures ++ results.1)
