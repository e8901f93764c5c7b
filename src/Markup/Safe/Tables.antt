-- ===== src/Markup/Safe/Tables.antt =====
-- web/app.js: the tables of the page (`headerCell`, `table`, `metric`), read as a browser reads them.
use copilot_api_dashboard.Base.{
  any-codes-decimal, ℕ, suc, String, Bool, true, false, none, some, List, [], ◌∷◌, ◌++◌, All, refl,
  codes, decimal,
}
use copilot_api_dashboard.Html.{Text, escape_html, join}
use copilot_api_dashboard.Html.Escape.{is_markup}
use copilot_api_dashboard.Html.Reader.{read, IsFragment, IsValue}
use copilot_api_dashboard.Html.Fragments.{
  join-IsFragment, plain-IsFragment, plain-IsValue, escape_html-IsFragment, escape_html-IsValue,
}
use copilot_api_dashboard.Html.Templates.{html-IsFragment}
use copilot_api_dashboard.Markup.{
  TableId, accounts, models, days, table_id, arrow, SortOf, is_cost, is_active, sort_button,
  header_content, aria_attribute, heading, header_cell, table_around, header_cells, table, metric,
}
use copilot_api_dashboard.Sorting.{Direction, ascending, descending}

decimal-IsValue : (k : ℕ) → IsValue (codes (decimal k))
decimal-IsValue k = plain-IsValue (codes (decimal k)) (any-codes-decimal is_markup refl k)

table_id-IsValue : (id : TableId) → IsValue (codes (table_id id))
table_id-IsValue accounts = plain-IsValue (codes "accounts") refl
table_id-IsValue models = plain-IsValue (codes "models") refl
table_id-IsValue days = plain-IsValue (codes "days") refl

arrow-IsFragment : (b c : Bool) (d : Direction) → IsFragment (codes (arrow b c d))
arrow-IsFragment true c d = plain-IsFragment [] refl
arrow-IsFragment false false d = plain-IsFragment (codes "↕") refl
arrow-IsFragment false true ascending = plain-IsFragment (codes "↑") refl
arrow-IsFragment false true descending = plain-IsFragment (codes "↓") refl

sort_button-IsFragment :
    (label : String) (k : ℕ) (id : TableId) (b c : Bool) (d : Direction)
    → IsValue (codes (decimal k))
    → IsFragment (sort_button label k id b c d)
unfolding sort_button read
sort_button-IsFragment label k id true c d h = html-IsFragment _ (
  table_id-IsValue id,
  (h, (escape_html-IsFragment (codes label), (arrow-IsFragment true c d, refl))),
)
sort_button-IsFragment label k id false c d h = html-IsFragment _ (
  table_id-IsValue id,
  (h, (escape_html-IsFragment (codes label), (arrow-IsFragment false c d, refl))),
)

heading-IsFragment :
    (b c d : Bool) (e : Direction) (t : Text)
    → IsFragment t
    → IsFragment (heading b c (aria_attribute d e) t)
unfolding read
heading-IsFragment false false false e t h = html-IsFragment _ (h, refl)
heading-IsFragment false false true ascending t h = html-IsFragment _ (h, refl)
heading-IsFragment false false true descending t h = html-IsFragment _ (h, refl)
heading-IsFragment false true false e t h = html-IsFragment _ (h, refl)
heading-IsFragment false true true ascending t h = html-IsFragment _ (h, refl)
heading-IsFragment false true true descending t h = html-IsFragment _ (h, refl)
heading-IsFragment true false false e t h = html-IsFragment _ (h, refl)
heading-IsFragment true false true ascending t h = html-IsFragment _ (h, refl)
heading-IsFragment true false true descending t h = html-IsFragment _ (h, refl)
heading-IsFragment true true false e t h = html-IsFragment _ (h, refl)
heading-IsFragment true true true ascending t h = html-IsFragment _ (h, refl)
heading-IsFragment true true true descending t h = html-IsFragment _ (h, refl)

plain_heading-IsFragment : (b c : Bool) (t : Text) → IsFragment t → IsFragment (heading b c "" t)
unfolding read
plain_heading-IsFragment false false t h = html-IsFragment _ (h, refl)
plain_heading-IsFragment false true t h = html-IsFragment _ (h, refl)
plain_heading-IsFragment true false t h = html-IsFragment _ (h, refl)
plain_heading-IsFragment true true t h = html-IsFragment _ (h, refl)

header_cell-IsFragment :
    (label : String) (k : ℕ) (sorted : SortOf) (b c d : Bool)
    → IsFragment (header_cell label k sorted b c d)
unfolding header_cell header_content
header_cell-IsFragment label k none b c d =
    plain_heading-IsFragment c d (escape_html (codes label)) (escape_html-IsFragment (codes label))
header_cell-IsFragment label k (some (id, s)) b c d =
    heading-IsFragment c d (is_active (is_cost label b) k s) s.direction
      (header_content label k (some (id, s)) b)
      (sort_button-IsFragment label k id (is_cost label b) (is_active (is_cost label b) k s)
        s.direction (decimal-IsValue k))

header_cells-All :
    (k : ℕ) (headers : List String) (sorted : SortOf) (b : Bool)
    → All IsFragment (header_cells k headers sorted b)
unfolding header_cells
header_cells-All k [] sorted b = tt
header_cells-All k (header ∷ headers) sorted b =
    (header_cell-IsFragment header k sorted b _ _, header_cells-All (suc k) headers sorted b)

header_row-IsFragment :
    (headers : List String) (sorted : SortOf) (b : Bool)
    → IsFragment (join (header_cells 0 headers sorted b))
header_row-IsFragment headers sorted b =
    join-IsFragment (header_cells 0 headers sorted b) (header_cells-All 0 headers sorted b)

table_around-IsFragment :
    (sorted : SortOf) (name caption cells rows : Text)
    → IsValue name
    → IsFragment caption
    → IsFragment cells
    → IsFragment rows
    → IsFragment (table_around sorted name caption cells rows)
unfolding read
table_around-IsFragment none name caption cells rows h i j k =
    html-IsFragment _ (h, (i, (j, (k, refl))))
table_around-IsFragment (some (accounts, s)) name caption cells rows h i j k =
    html-IsFragment _ (h, (i, (j, (k, refl))))
table_around-IsFragment (some (models, s)) name caption cells rows h i j k =
    html-IsFragment _ (h, (i, (j, (k, refl))))
table_around-IsFragment (some (days, s)) name caption cells rows h i j k =
    html-IsFragment _ (h, (i, (j, (k, refl))))

pub table-IsFragment :
    (label : String) (headers : List String) (rows : List Text) (sorted : SortOf) (b : Bool)
    → All IsFragment rows
    → IsFragment (table label headers rows sorted b)
unfolding table
table-IsFragment label headers rows sorted b h =
    table_around-IsFragment sorted (escape_html (codes label ++ codes " table"))
      (escape_html (codes label)) (join (header_cells 0 headers sorted b)) (join rows)
      (escape_html-IsValue (codes label ++ codes " table")) (escape_html-IsFragment (codes label))
      (header_row-IsFragment headers sorted b) (join-IsFragment rows h)

pub metric-IsFragment : (label : String) (t : Text) → IsFragment t → IsFragment (metric label t)
unfolding metric read
metric-IsFragment label t h = html-IsFragment _ (escape_html-IsFragment (codes label), (h, refl))
