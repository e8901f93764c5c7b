-- ===== src/Markup/Safe/Plots.antt =====
-- web/app.js: the chart and the table of the daily values (`renderTrend`), read as a browser reads them.
use copilot_api_dashboard.Base.{
  ℕ, suc, ◌-◌, Bool, true, false, Option, none, some, List, [], ◌∷◌, ◌++◌, any, All, map, length,
  ◌==◌, leb, codes, any-append-false, refl,
}
use copilot_api_dashboard.Model.{Day}
use copilot_api_dashboard.Number.{Number}
use copilot_api_dashboard.Html.{Text, join}
use copilot_api_dashboard.Html.Escape.{is_markup}
use copilot_api_dashboard.Html.Reader.{read, IsFragment, IsValue}
use copilot_api_dashboard.Html.Fragments.{
  All-map, All-if, nil-IsFragment, join-IsFragment, IsPlain, plain-IsValue, escape_html-IsFragment,
  if-IsFragment, if-IsPlain,
}
use copilot_api_dashboard.Html.Templates.{html-IsFragment, literal-IsFragment}
use copilot_api_dashboard.Chart.{chart_width, day_value, max_value, point_x, point_y}
use copilot_api_dashboard.Sorting.{Sort}
use copilot_api_dashboard.Markup.{Format, TableId, dash}
use copilot_api_dashboard.Markup.Cells.{is_padded, day_row}
use copilot_api_dashboard.Markup.Trend.{
  label_indexes, text_anchor, date_at, at_point, points_from, tick, date_label, dots_from, dots_of,
  chart_template, area_points, note_of, chart_of, day_columns, details, render_trend,
}
use copilot_api_dashboard.Markup.Safe.{IsFormat, written-IsValue}
use copilot_api_dashboard.Markup.Safe.Parts.{empty-IsFragment}
use copilot_api_dashboard.Markup.Safe.Rows.{day_row-IsFragment}
use copilot_api_dashboard.Markup.Safe.Tables.{table-IsFragment}

append-IsPlain : (s t : Text) → IsPlain s → IsPlain t → IsPlain (s ++ t)
append-IsPlain s t h k = any-append-false is_markup s t h k

spaced-IsPlain :
    (r s t : Text) → IsPlain r → IsPlain s → IsPlain t → IsPlain (r ++ b' ' ∷ (s ++ b' ' ∷ t))
spaced-IsPlain r s t h k l =
    append-IsPlain r (b' ' ∷ (s ++ b' ' ∷ t)) h (append-IsPlain s (b' ' ∷ t) k l)

text_anchor-IsValue : (count i : ℕ) → IsValue (codes (text_anchor count i))
unfolding text_anchor
text_anchor-IsValue count i = plain-IsValue (codes (text_anchor count i)) (
    if-IsPlain (count == 1) "middle" _ refl
      (if-IsPlain (i == 0) "start" _ refl (if-IsPlain (i == count - 1) "end" "middle" refl refl)))

module _ {ℓ} {W : Type ℓ} ⦃n : Number W⦄ (f : Format W) (ok : IsFormat f) where
  open ok use {written-IsPlain}

  at_point-IsPlain : (x y : W) → IsPlain (at_point f x y)
  at_point-IsPlain x y =
      append-IsPlain (f.written x) (b',' ∷ f.written y) (written-IsPlain x) (written-IsPlain y)

  points_from-IsPlain :
      (width max : W) (count i : ℕ) (vs : List W) → IsPlain (points_from f width max count i vs)
  unfolding points_from
  points_from-IsPlain width max count i [] = refl
  points_from-IsPlain width max count i (v ∷ []) = at_point-IsPlain _ _
  points_from-IsPlain width max count i (v ∷ w ∷ vs) =
      append-IsPlain (at_point f (point_x width count i) (point_y max v)) (b' ' ∷ _)
        (at_point-IsPlain (point_x width count i) (point_y max v))
        (points_from-IsPlain width max count (suc i) (w ∷ vs))

  area_points-IsValue : (width max : W) (vs : List W) → IsValue (area_points f width max vs)
  area_points-IsValue width max vs =
      let first = at_point f (point_x width (length vs) 0) (point_y max (n.of_ℕ 0)) in
      let last = at_point f (point_x width (length vs) (length vs - 1)) (point_y max (n.of_ℕ 0)) in
      plain-IsValue (area_points f width max vs) (
        spaced-IsPlain first (points_from f width max (length vs) 0 vs) last
          (at_point-IsPlain (point_x width (length vs) 0) (point_y max (n.of_ℕ 0)))
          (points_from-IsPlain width max (length vs) 0 vs)
          (at_point-IsPlain (point_x width (length vs) (length vs - 1)) (point_y max (n.of_ℕ 0))))

  tick-IsFragment : (width max value : W) → IsFragment (tick f width max value)
  unfolding tick read
  tick-IsFragment width max value = html-IsFragment _ (
    written-IsValue f ok (n.of_ℕ 50),
    (
      written-IsValue f ok (n.sub width (n.of_ℕ 12)),
      (
        written-IsValue f ok (point_y max value),
        (
          written-IsValue f ok (point_y max value),
          (
            written-IsValue f ok (n.of_ℕ 40),
            (
              written-IsValue f ok (n.add (point_y max value) (n.of_ℕ 4)),
              (escape_html-IsFragment (f.compact_one value), refl),
            ),
          ),
        ),
      ),
    ),
  )

  date_label-IsFragment :
      (width : W) (days : List (Day W)) (i : ℕ) → IsFragment (date_label f width days i)
  unfolding date_label read
  date_label-IsFragment width days i = html-IsFragment _ (
    written-IsValue f ok (point_x width (length days) i),
    (
      written-IsValue f ok (n.of_ℕ 193),
      (text_anchor-IsValue (length days) i, (escape_html-IsFragment (date_at f days i), refl)),
    ),
  )

  dots_from-All :
      (width max : W) (count i : ℕ) (vs : List W)
      → All IsFragment (dots_from f width max count i vs)
  unfolding dots_from read
  dots_from-All width max count i [] = tt
  dots_from-All width max count i (v ∷ vs) = (
    html-IsFragment _ (
      written-IsValue f ok (point_x width count i),
      (written-IsValue f ok (point_y max v), refl),
    ),
    dots_from-All width max count (suc i) vs,
  )

  dots_of-IsFragment : (width max : W) (vs : List W) → IsFragment (join (dots_of f width max vs))
  unfolding dots_of
  dots_of-IsFragment width max vs =
      join-IsFragment (dots_of f width max vs)
        (All-if (leb (length vs) 31) _ [] (dots_from-All width max (length vs) 0 vs) tt)

  chart_template-IsFragment :
      (width : W) (ticks area line dots labels note : Text)
      → IsFragment ticks
      → IsValue area
      → IsValue line
      → IsFragment dots
      → IsFragment labels
      → IsFragment note
      → IsFragment (chart_template f width ticks area line dots labels note)
  unfolding read
  chart_template-IsFragment width ticks area line dots labels note a b c d e g = html-IsFragment _ (
    written-IsValue f ok width,
    (
      written-IsValue f ok (n.of_ℕ 200),
      (
        a,
        (
          b,
          (
            c,
            (
              d,
              (
                written-IsValue f ok (n.of_ℕ 12),
                (
                  written-IsValue f ok (n.of_ℕ 168),
                  (
                    e,
                    (
                      written-IsValue f ok (n.of_ℕ 50),
                      (
                        written-IsValue f ok (n.of_ℕ 12),
                        (
                          written-IsValue f ok (n.sub (n.sub width (n.of_ℕ 50)) (n.of_ℕ 12)),
                          (written-IsValue f ok (n.of_ℕ 156), (g, refl)),
                        ),
                      ),
                    ),
                  ),
                ),
              ),
            ),
          ),
        ),
      ),
    ),
  )

  note_of-IsFragment : (days : List (Day W)) → IsFragment (note_of f days)
  unfolding read
  note_of-IsFragment days =
      if-IsFragment (any is_padded days) _ []
        (literal-IsFragment
          "<p class=\"chart-note\">Dates without recorded usage are shown as zero.</p>" refl)
        nil-IsFragment

  chart_of-IsFragment : (width : W) (days : List (Day W)) → IsFragment (chart_of f width days)
  unfolding chart_of
  chart_of-IsFragment width days =
      let values = map day_value days in
      let max = max_value values in
      let ticks = n.of_ℕ 0 ∷ n.div max (n.of_ℕ 2) ∷ max ∷ [] in
      let labelled = label_indexes (n.lt width (n.of_ℕ 450)) (length days) in
      chart_template-IsFragment width (join (map (tick f width max) ticks))
        (area_points f width max values) (points_from f width max (length days) 0 values)
        (join (dots_of f width max values)) (join (map (date_label f width days) labelled))
        (note_of f days)
        (join-IsFragment (map (tick f width max) ticks)
          (All-map (tick f width max) (tick-IsFragment width max) ticks))
        (area_points-IsValue width max values)
        (plain-IsValue _ (points_from-IsPlain width max (length days) 0 values))
        (dots_of-IsFragment width max values)
        (join-IsFragment (map (date_label f width days) labelled)
          (All-map (date_label f width days) (date_label-IsFragment width days) labelled))
        (note_of-IsFragment days)

  details-IsFragment :
      (expanded : Bool) (daily : Text) → IsFragment daily → IsFragment (details f expanded daily)
  unfolding read
  details-IsFragment true daily h = html-IsFragment _ (h, refl)
  details-IsFragment false daily h = html-IsFragment _ (h, refl)

  -- If the numbers that the page does not escape are written without markup characters, then for whatever
  -- days, width and order of the rows the markup of the chart and of the table of the daily values is a
  -- fragment.
  pub render_trend-IsFragment :
      (today expanded : Bool) (client_width : W) (s : Sort) (disabled_cost : Bool)
      (days : Option (List (Day W))) (sorted : List (Day W))
      → IsFragment (render_trend f today expanded client_width s disabled_cost days sorted)
  unfolding render_trend read
  render_trend-IsFragment true expanded client_width s b days sorted = nil-IsFragment
  render_trend-IsFragment false expanded client_width s b none sorted = empty-IsFragment dash
  render_trend-IsFragment false expanded client_width s b (some []) sorted =
      empty-IsFragment (codes "No daily usage for this period.")
  render_trend-IsFragment false expanded client_width s b (some (d ∷ ds)) sorted =
      html-IsFragment _ (
        chart_of-IsFragment (chart_width client_width) (d ∷ ds),
        (
          details-IsFragment expanded _ (
              table-IsFragment "Daily values" (day_columns f) (map (day_row f) sorted)
                (some (TableId.days, s)) b (All-map (day_row f) (day_row-IsFragment f ok) sorted)),
          refl,
        ),
      )
