-- ===== src/Markup/Trend.antt =====
-- web/app.js: the chart and the table of the daily values (`renderTrend`).
pub mod Labels
use copilot_api_dashboard.Base.{
  ℕ, suc, get_elem?, ◌-◌, ◌/◌, String, Bool, true, false, Option, none, some, List, [], ◌∷◌, ◌++◌,
  not, any, map, length, ◌==◌, leb, if◌then◌else◌, codes,
}
use copilot_api_dashboard.Model.{Day}
use copilot_api_dashboard.Number.{Number}
use copilot_api_dashboard.Html.{Text, escape_html, empty, Part, lit, hole, html, join}
use copilot_api_dashboard.Chart.{chart_width, day_value, max_value, point_x, point_y}
use copilot_api_dashboard.Sorting.{Sort}
use copilot_api_dashboard.Markup.{Format, TableId, dash, table}
use copilot_api_dashboard.Markup.Cells.{is_padded, day_row}

-- `[...new Set(indexes)]`, behind those that were seen
unfoldable pub distinct_indexes : List ℕ → List ℕ → List ℕ
distinct_indexes seen [] = []
distinct_indexes seen (i ∷ is) =
    if any (i ==◌) seen then distinct_indexes seen is else i ∷ distinct_indexes (i ∷ seen) is

-- `narrow` is `width < 450`, and `count` is `days.length`.
unfoldable pub label_indexes : Bool → ℕ → List ℕ
unfolding distinct_indexes
label_indexes narrow count =
    distinct_indexes []
      (if narrow then 0 ∷ (count - 1) ∷ [] else 0 ∷ ((count - 1) / 2) ∷ (count - 1) ∷ [])

unfoldable pub text_anchor : ℕ → ℕ → String
text_anchor count i =
    if count == 1
    then "middle"
    else if i == 0
    then "start"
    else if i == count - 1
    then "end"
    else "middle"

module _ {ℓ} {W : Type ℓ} ⦃n : Number W⦄ (f : Format W) where
  open f use {written, compact_one}

  -- `days[i].date`; the labels stand at positions of the list.
  abbrev pub date_at : List (Day W) → ℕ → Text
  date_at days i = elim (get_elem? days i) [ none ↦ [] | some d ↦ codes d.date ]

  abbrev pub at_point : W → W → Text
  at_point x y = written x ++ b',' ∷ written y

  -- `values.map(...).join(" ")`, from the day `i` on
  unfoldable pub points_from : W → W → ℕ → ℕ → List W → Text
  points_from width max count i [] = []
  points_from width max count i (v ∷ []) = at_point (point_x width count i) (point_y max v)
  points_from width max count i (v ∷ w ∷ vs) =
      at_point (point_x width count i) (point_y max v)
      ++ b' ' ∷ points_from width max count (suc i) (w ∷ vs)

  unfoldable pub tick : W → W → W → Text
  tick width max value = html (
      lit "<line class=\"grid\" x1=\""
      ∷ hole (written (n.of_ℕ 50))
      ∷ lit "\" x2=\""
      ∷ hole (written (n.sub width (n.of_ℕ 12)))
      ∷ lit "\" y1=\""
      ∷ hole (written (point_y max value))
      ∷ lit "\" y2=\""
      ∷ hole (written (point_y max value))
      ∷ lit "\"/><text x=\""
      ∷ hole (written (n.of_ℕ 40))
      ∷ lit "\" y=\""
      ∷ hole (written (n.add (point_y max value) (n.of_ℕ 4)))
      ∷ lit "\" text-anchor=\"end\">"
      ∷ hole (escape_html (compact_one value))
      ∷ lit "</text>"
      ∷ [])

  unfoldable pub date_label : W → List (Day W) → ℕ → Text
  unfolding text_anchor
  date_label width days i = html (
      lit "<text x=\""
      ∷ hole (written (point_x width (length days) i))
      ∷ lit "\" y=\""
      ∷ hole (written (n.of_ℕ 193))
      ∷ lit "\" text-anchor=\""
      ∷ hole (codes (text_anchor (length days) i))
      ∷ lit "\">"
      ∷ hole (escape_html (date_at days i))
      ∷ lit "</text>"
      ∷ [])

  -- The points of the days, from the day `i` on, or none above 31 days.
  unfoldable pub dots_from : W → W → ℕ → ℕ → List W → List Text
  dots_from width max count i [] = []
  dots_from width max count i (v ∷ vs) =
      html (
        lit "<circle class=\"chart-point\" cx=\""
        ∷ hole (written (point_x width count i))
        ∷ lit "\" cy=\""
        ∷ hole (written (point_y max v))
        ∷ lit "\" r=\"3\"/>"
        ∷ [])
      ∷ dots_from width max count (suc i) vs

  unfoldable pub dots_of : W → W → List W → List Text
  unfolding dots_from
  dots_of width max values =
      if leb (length values) 31 then dots_from width max (length values) 0 values else []

  -- The template of the chart, from the ticks, the points of the area and of the line, the dots and the
  -- labels.
  abbrev pub chart_template : W → Text → Text → Text → Text → Text → Text → Text
  chart_template width ticks area line dots labels note = html (
      lit
        "<div class=\"chart\"><div class=\"chart-plot\" tabindex=\"0\" role=\"group\" aria-label=\"Daily total tokens. Use Left and Right Arrow keys to inspect dates.\"><svg viewBox=\"0 0 "
      ∷ hole (written width)
      ∷ lit " "
      ∷ hole (written (n.of_ℕ 200))
      ∷ lit
          "\" role=\"img\" aria-label=\"Daily total tokens. Daily breakdown is available in the daily values table.\">"
      ∷ hole ticks
      ∷ lit "<polygon class=\"area\" points=\""
      ∷ hole area
      ∷ lit "\"/><polyline class=\"line\" points=\""
      ∷ hole line
      ∷ lit "\"/>"
      ∷ hole dots
      ∷ lit "<line class=\"chart-guide\" y1=\""
      ∷ hole (written (n.of_ℕ 12))
      ∷ lit "\" y2=\""
      ∷ hole (written (n.of_ℕ 168))
      ∷ lit "\" hidden/><circle class=\"chart-active\" r=\"5\" hidden/>"
      ∷ hole labels
      ∷ lit "<rect class=\"chart-hit-area\" x=\""
      ∷ hole (written (n.of_ℕ 50))
      ∷ lit "\" y=\""
      ∷ hole (written (n.of_ℕ 12))
      ∷ lit "\" width=\""
      ∷ hole (written (n.sub (n.sub width (n.of_ℕ 50)) (n.of_ℕ 12)))
      ∷ lit "\" height=\""
      ∷ hole (written (n.of_ℕ 156))
      ∷ lit
          "\"/></svg><div id=\"trend-tooltip\" class=\"chart-tooltip\" role=\"status\" aria-atomic=\"true\" hidden></div></div>"
      ∷ hole note
      ∷ lit "</div>"
      ∷ [])

  abbrev pub area_points : W → W → List W → Text
  area_points width max values =
      at_point (point_x width (length values) 0) (point_y max (n.of_ℕ 0))
      ++ b' '
        ∷ (points_from width max (length values) 0 values
            ++ b' '
              ∷ at_point (point_x width (length values) (length values - 1))
                  (point_y max (n.of_ℕ 0)))

  abbrev pub note_of : List (Day W) → Text
  note_of days =
      if any is_padded days
      then codes "<p class=\"chart-note\">Dates without recorded usage are shown as zero.</p>"
      else []

  unfoldable pub chart_of : W → List (Day W) → Text
  unfolding points_from tick date_label dots_of label_indexes max_value day_value
  chart_of width days =
      let values = map day_value days in
      let max = max_value values in
      chart_template width
        (join (map (tick width max) (n.of_ℕ 0 ∷ n.div max (n.of_ℕ 2) ∷ max ∷ [])))
        (area_points width max values) (points_from width max (length days) 0 values)
        (join (dots_of width max values))
        (join (map (date_label width days) (label_indexes (n.lt width (n.of_ℕ 450)) (length days))))
        (note_of days)

  abbrev pub day_columns : List String
  day_columns = "Date" ∷ "Tokens" ∷ "Requests" ∷ "Cost" ∷ []

  -- `expanded` says whether the table of the days was open.
  abbrev pub details : Bool → Text → Text
  details expanded daily = html (
      lit "<details class=\"chart-details\""
      ∷ lit (if expanded then " open" else "")
      ∷ lit "><summary>Daily values</summary>"
      ∷ hole daily
      ∷ lit "</details>"
      ∷ [])

  -- `sorted` is `days` as `sortableTable` orders them, and `today` is `state.period === "today"`.
  unfoldable pub render_trend :
      Bool → Bool → W → Sort → Bool → Option (List (Day W)) → List (Day W) → Text
  unfolding chart_of chart_width
  render_trend true expanded client_width s disabled_cost days sorted = []
  render_trend false expanded client_width s disabled_cost none sorted = empty dash
  render_trend false expanded client_width s disabled_cost (some []) sorted =
      empty (codes "No daily usage for this period.")
  render_trend false expanded client_width s disabled_cost (some (d ∷ ds)) sorted = html (
      hole (chart_of (chart_width client_width) (d ∷ ds))
      ∷ lit "\n    "
      ∷ hole (
          details expanded (
            table "Daily values" day_columns (map (day_row f) sorted) (some (TableId.days, s))
              disabled_cost))
      ∷ [])
