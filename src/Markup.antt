-- ===== src/Markup.antt =====
-- web/app.js: the texts and the markup of values and tables (`number`, `percent`, `tokens`, `duration`,
-- `money`, `requestOutcome`, `metric`, `headerCell`, `table`). A text is the list of its characters.
pub mod Cells
pub mod Sections
pub mod Trend
pub mod Safe
pub mod Keys
use copilot_api_dashboard.Base.{
  ℕ, String, Bool, true, false, Option, none, some, List, [], ◌∷◌, ◌++◌, ◌&&◌, ◌||◌, not, any, map,
  ◌==◌, if◌then◌else◌, str_eq, codes, decimal,
}
use copilot_api_dashboard.Model.{Value, undefined, null, boolean, num, text, Cost, Usage}
use copilot_api_dashboard.Number.{Number}
use copilot_api_dashboard.Quota.{numeric_where, cache_hit_rate}
use copilot_api_dashboard.Html.{Text, escape_html, escape_or_dash, Part, lit, hole, html, join}
pub use copilot_api_dashboard.Sorting.Redraw.{TableId, accounts, models, days}
use copilot_api_dashboard.Sorting.{Direction, ascending, descending, Sort}

-- `Intl.NumberFormat`, `toLocaleString`, `toFixed` and the text of a number in a template.
pub record Format {ℓ} (W : Type ℓ) : Type ℓ where
  -- at most three decimals, and at most one
  pub locale : W → Text
  pub locale_one : W → Text
  pub compact : W → Text
  pub compact_one : W → Text
  -- two decimals, or up to six
  pub amount : Bool → W → Text
  pub fixed : ℕ → W → Text
  pub written : W → Text

abbrev pub dash : Text
dash = codes "—"

-- A number where there is one; `none` stands for null.
abbrev pub value_of {ℓ} : {W : Type ℓ} → Option W → Value W
value_of none = null
value_of (some w) = num w

-- The number, where `numeric(value)`.
abbrev pub finite {ℓ} : {W : Type ℓ} ⦃n : Number W⦄ → Value W → Option W
finite = numeric_where λ _. true

abbrev pub outcome_text : String → Text
outcome_text s =
    if str_eq s "completed"
    then codes "Completed"
    else if str_eq s "cancelled"
    then codes "<span class=\"outcome outcome-cancelled\">Cancelled</span>"
    else if str_eq s "error"
    then codes "<span class=\"outcome outcome-error\">Error</span>"
    else dash

module _ {ℓ} {W : Type ℓ} ⦃n : Number W⦄ (f : Format W) where
  open f use {locale, locale_one, compact, amount, fixed}

  unfoldable pub number : Value W → Text
  number v = elim (finite v) [ none ↦ dash | some w ↦ locale w ]

  abbrev pub percent : W → Text
  percent = locale_one

  unfoldable pub tokens : Value W → Text
  tokens v = elim (finite v) [ none ↦ dash | some w ↦ escape_html (compact w) ]

  unfoldable pub cache_hit_rate_text : Option (Usage W) → Text
  cache_hit_rate_text u = elim (cache_hit_rate u) [
    | none ↦ dash
    | some rate ↦ percent rate ++ codes "%"
  ]

  unfoldable pub duration : Value W → Text
  duration v = elim (finite v) [
    | none ↦ dash
    | some w ↦
        if n.lt w (n.of_ℕ 0)
        then dash
        else if n.lt w (n.of_ℕ 1000)
        then fixed 0 w ++ codes " ms"
        else fixed 2 (n.div w (n.of_ℕ 1000)) ++ codes " s"
  ]

  unfoldable pub request_outcome : Value W → Text
  request_outcome (text s) = outcome_text s
  request_outcome v = dash

  -- `amount > 0 && amount < 0.01`, and the text of the amount
  abbrev pub is_subcent : W → Bool
  is_subcent a = n.lt (n.of_ℕ 0) a && n.lt a (n.div (n.of_ℕ 1) (n.of_ℕ 100))

  unfoldable pub display_amount : W → Text
  display_amount a =
      if is_subcent a && n.lt a (n.div (n.of_ℕ 1) (n.of_ℕ 1_000_000))
      then codes "<0.000001"
      else amount (is_subcent a) a

  unfoldable pub money_of : Cost W → Text
  unfolding display_amount
  money_of c = elim (finite c.total_cost_nanos) [
    | none ↦ dash
    | some w ↦ html (
        lit "<span class=\"money\">"
        ∷ hole (
            escape_html
              (codes c.currency ++ b' ' ∷ display_amount (n.div w (n.of_ℕ 1_000_000_000))))
        ∷ lit "</span>"
        ∷ [])
  ]

  -- `none` where there is no array
  unfoldable pub money : Option (List (Cost W)) → Text
  unfolding money_of
  money none = dash
  money (some []) = dash
  money (some (c ∷ cs)) = join (map money_of (c ∷ cs))

abbrev pub table_id : TableId → String
table_id accounts = "accounts"
table_id models = "models"
table_id days = "days"

abbrev pub arrow : Bool → Bool → Direction → String
arrow true active direction = ""
arrow false false direction = "↕"
arrow false true ascending = "↑"
arrow false true descending = "↓"

-- `sort && …`: the table's entry of `sorts`, if it has one.
abbrev pub SortOf : Type 0
SortOf = Option (TableId × Sort)

-- `label === "Cost" && disabledCost`, and whether the column is the sorted one
abbrev pub is_cost : String → Bool → Bool
is_cost label disabled_cost = str_eq label "Cost" && disabled_cost

abbrev pub is_active : Bool → ℕ → Sort → Bool
is_active disabled index s = not disabled && (s.column == index)

-- The button of a sortable column.
unfoldable pub sort_button : String → ℕ → TableId → Bool → Bool → Direction → Text
sort_button label index id disabled active direction = html (
    lit "<button type=\"button\" class=\"sort\" data-sort=\""
    ∷ hole (codes (table_id id))
    ∷ lit "\" data-column=\""
    ∷ hole (codes (decimal index))
    ∷ lit "\""
    ∷ lit (if disabled then " disabled title=\"Cost sorting requires a single currency\"" else "")
    ∷ lit ">"
    ∷ hole (escape_html (codes label))
    ∷ lit " <span aria-hidden=\"true\">"
    ∷ hole (codes (arrow disabled active direction))
    ∷ lit "</span></button>"
    ∷ [])

unfoldable pub header_content : String → ℕ → SortOf → Bool → Text
unfolding sort_button
header_content label index none disabled_cost = escape_html (codes label)
header_content label index (some (id, s)) disabled_cost =
    let disabled = is_cost label disabled_cost in
    sort_button label index id disabled (is_active disabled index s) s.direction

-- The attribute `aria-sort` of a column that is the sorted one or not.
abbrev pub aria_attribute : Bool → Direction → String
aria_attribute false direction = " aria-sort=\"none\""
aria_attribute true ascending = " aria-sort=\"ascending\""
aria_attribute true descending = " aria-sort=\"descending\""

abbrev pub aria_of : String → ℕ → SortOf → Bool → String
aria_of label index none disabled_cost = ""
aria_of label index (some (id, s)) disabled_cost =
    aria_attribute (is_active (is_cost label disabled_cost) index s) s.direction

-- `outcome` says whether `attributes` holds the title of the column "Outcome", `is_number` whether
-- `className` is "number".
abbrev pub heading : Bool → Bool → String → Text → Text
heading is_number outcome aria content = html (
    lit "<th scope=\"col\""
    ∷ lit (
        if outcome
        then " title=\"HTTP/body completion. Completed does not certify model success.\""
        else "")
    ∷ lit aria
    ∷ lit (if is_number then " class=\"number\"" else "")
    ∷ lit ">"
    ∷ hole content
    ∷ lit "</th>"
    ∷ [])

unfoldable pub header_cell : String → ℕ → SortOf → Bool → Bool → Bool → Text
unfolding header_content
header_cell label index sorted disabled_cost is_number outcome =
    heading is_number outcome (aria_of label index sorted disabled_cost)
      (header_content label index sorted disabled_cost)

abbrev pub text_columns : List String
text_columns = "Model" ∷ "Plan" ∷ "Endpoint" ∷ "Outcome" ∷ "Target" ∷ "Operation" ∷ "Error" ∷ []

-- `headers.map(...)`, from the column `index` on
unfoldable pub header_cells : ℕ → List String → SortOf → Bool → List Text
unfolding header_cell
header_cells index [] sorted disabled_cost = []
header_cells index (header ∷ headers) sorted disabled_cost =
    header_cell header index sorted disabled_cost
      (not (index == 0) && not (any (str_eq header) text_columns)) (str_eq header "Outcome")
    ∷ header_cells (ℕ.suc index) headers sorted disabled_cost

abbrev pub data_table : SortOf → String
data_table none = ""
data_table (some (accounts, s)) = " data-table=\"accounts\""
data_table (some (models, s)) = " data-table=\"models\""
data_table (some (days, s)) = " data-table=\"days\""

abbrev pub table_around : SortOf → Text → Text → Text → Text → Text
table_around sorted name caption cells rows = html (
    lit "<div class=\"table-scroll\""
    ∷ lit (data_table sorted)
    ∷ lit " tabindex=\"0\" role=\"region\" aria-label=\""
    ∷ hole name
    ∷ lit "\"><table><caption class=\"sr-only\">"
    ∷ hole caption
    ∷ lit "</caption><thead><tr>"
    ∷ hole cells
    ∷ lit "</tr></thead><tbody>"
    ∷ hole rows
    ∷ lit "</tbody></table></div>"
    ∷ [])

unfoldable pub table : String → List String → List Text → SortOf → Bool → Text
unfolding header_cells
table label headers rows sorted disabled_cost =
    table_around sorted (escape_html (codes label ++ codes " table")) (escape_html (codes label))
      (join (header_cells 0 headers sorted disabled_cost)) (join rows)

unfoldable pub metric : String → Text → Text
metric label value = html (
    lit "<article class=\"metric\"><div class=\"metric-label\">"
    ∷ hole (escape_html (codes label))
    ∷ lit "</div><div class=\"metric-value\">"
    ∷ hole value
    ∷ lit "</div></article>"
    ∷ [])
