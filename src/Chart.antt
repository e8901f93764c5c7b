-- ===== src/Chart.antt =====
-- web/app.js: the chart of the daily usage: the places of its points (`renderTrend`), the day at a position
-- (`trendIndexAt`) and the place of the tooltip (`setupTrendInteraction`).
pub mod Plot
pub mod Bounds
pub mod Shown
pub mod Keys
use copilot_api_dashboard.Base.{
  ℕ, ◌-◌, Bool, true, false, Option, none, some, List, [], ◌∷◌, ◌||◌, map, leb, if◌then◌else◌,
  length, ◌==◌,
}
use copilot_api_dashboard.Model.{Day, Usage, num}
use copilot_api_dashboard.Number.{Number}
use copilot_api_dashboard.Quota.{numeric_where}

-- `getBoundingClientRect()`
pub record Rect {ℓ} (W : Type ℓ) : Type ℓ where
  pub left : W
  pub top : W
  pub width : W
  pub height : W

-- What the layout gives when a tooltip is placed: the rectangles of the svg and of the plot, and the size
-- of the tooltip.
pub record Layout {ℓ} (W : Type ℓ) : Type ℓ where
  pub bounds : Rect W
  pub plot_bounds : Rect W
  pub tooltip_width : W
  pub tooltip_height : W

module _ {ℓ} {W : Type ℓ} ⦃n : Number W⦄ where
  unfoldable pub trend_index_at : W → W → W → ℕ → W
  trend_index_at position start end count =
      if leb count 1 || n.le end start
      then n.of_ℕ 0
      else n.round (
          n.mul (n.div (n.sub (n.min end (n.max start position)) start) (n.sub end start))
            (n.of_ℕ (count - 1)))

  -- `const height = 200, left = 50, right = 12, top = 12, bottom = 32`, and `width`
  unfoldable pub chart_width : W → W
  chart_width client_width = n.max (n.of_ℕ 280) (n.sub client_width (n.of_ℕ 32))

  -- `day.totals?.total_tokens`, where it is numeric, or 0
  unfoldable pub day_value : Day W → W
  day_value d = elim d.totals [
    | none ↦ n.of_ℕ 0
    | some u ↦ elim (numeric_where (λ _. true) u.total_tokens) [ none ↦ n.of_ℕ 0 | some w ↦ w ]
  ]

  -- `Math.max(1, ...values)`
  unfoldable pub max_value : List W → W
  max_value [] = n.of_ℕ 1
  max_value (v ∷ vs) = n.max v (max_value vs)

  unfoldable pub point_x : W → ℕ → ℕ → W
  point_x width count i =
      if count == 1
      then n.div (n.sub (n.add width (n.of_ℕ 50)) (n.of_ℕ 12)) (n.of_ℕ 2)
      else n.add (n.of_ℕ 50) (
          n.div (n.mul (n.of_ℕ i) (n.sub (n.sub width (n.of_ℕ 50)) (n.of_ℕ 12)))
            (n.of_ℕ (count - 1)))

  unfoldable pub point_y : W → W → W
  point_y max value =
      n.sub (n.sub (n.of_ℕ 200) (n.of_ℕ 32))
        (n.mul (n.div value max) (n.sub (n.sub (n.of_ℕ 200) (n.of_ℕ 12)) (n.of_ℕ 32)))

  abbrev pub inset : W
  inset = n.of_ℕ 8

  abbrev pub gap : W
  gap = n.of_ℕ 12

  -- `const clamp = (value, min, max) => Math.min(max, Math.max(min, value))`
  abbrev pub clamp : W → W → W → W
  clamp value low high = n.min high (n.max low value)

  -- `Math.max(inset, size - tooltipSize - inset)`
  abbrev pub last_place : W → W → W
  last_place size tooltip_size = n.max inset (n.sub (n.sub size tooltip_size) inset)

  -- `tooltipLeft` and `tooltipTop`, for a point at `screenX` and `screenY`
  module _ (l : Layout W) (screen_x screen_y : W) where
    abbrev pub max_left : W
    max_left = last_place l.plot_bounds.width l.tooltip_width

    abbrev pub max_top : W
    max_top = last_place l.plot_bounds.height l.tooltip_height

    abbrev pub above : W
    above = n.sub (n.sub screen_y l.tooltip_height) gap

    abbrev pub below : W
    below = n.add screen_y gap

    abbrev pub centred : W
    centred = clamp (n.sub screen_x (n.div l.tooltip_width (n.of_ℕ 2))) inset max_left

    abbrev pub beside_left : W
    beside_left = n.sub (n.sub screen_x l.tooltip_width) gap

    abbrev pub beside_right : W
    beside_right = n.add screen_x gap

    -- the place beside the point, where there is one
    abbrev pub beside : W
    beside =
        if n.le inset beside_left
        then beside_left
        else if n.le beside_right max_left
        then beside_right
        else centred

    unfoldable pub tooltip_place : W × W
    tooltip_place =
        if n.le inset above
        then (centred, above)
        else if n.le below max_top
        then (centred, below)
        else (beside, clamp (n.sub screen_y (n.div l.tooltip_height (n.of_ℕ 2))) inset max_top)
