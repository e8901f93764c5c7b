-- ===== src/Chart/Plot.antt =====
-- web/app.js: the listeners of the chart (`setupTrendInteraction`), on the days that it was drawn for.
use Prim.Native.Nat.{pred, min}
use mathlib.Core.List.{foldl}
use copilot_api_dashboard.Base.{
  ℕ, suc, ◌-◌, Bool, true, false, Option, none, some, List, ◌&&◌, ◌||◌, not, map, ◌==◌,
  if◌then◌else◌, length, get_elem?,
}
use copilot_api_dashboard.Model.{Day}
use copilot_api_dashboard.Number.{Number}
use copilot_api_dashboard.Chart.{
  Rect, Layout, trend_index_at, day_value, max_value, point_x, point_y, tooltip_place,
}

-- The local variable `selected`, and the elements of the plot. `described` is the day that the tooltip
-- describes, and `failed` an exception in a listener.
pub record Plot {ℓ} (W : Type ℓ) : Type ℓ where
  pub selected : Option ℕ
  pub guide_hidden : Bool
  pub active_hidden : Bool
  pub tooltip_hidden : Bool
  pub guide_x : W
  pub active_point : W × W
  pub described : Option (Day W)
  pub place : W × W
  pub focused : Bool
  pub failed : Bool

pub data Key : Type 0 where
  arrow_left arrow_right home end escape other : Key

-- The events of the plot and of its hit area, with what the layout gives and `clientX`; a Boolean says
-- whether the pointer is a mouse.
pub data PlotEvent {ℓ} (W : Type ℓ) : Type ℓ where
  pointer_move : Layout W → W → PlotEvent W
  pointer_down : Layout W → W → Bool → PlotEvent W
  pointer_leave : Bool → PlotEvent W
  focus : Layout W → PlotEvent W
  blur : PlotEvent W
  key_down : Layout W → Key → PlotEvent W

abbrev pub is_selected : ℕ → Option ℕ → Bool
is_selected i none = false
is_selected i (some j) = i == j

-- `hide`
unfoldable pub hide {ℓ} : {W : Type ℓ} → Bool → Plot W → Plot W
hide reset p = record p {
  selected = if reset then none else p.selected;
  guide_hidden = true;
  active_hidden = true;
  tooltip_hidden = true;
}

module _ {ℓ} {W : Type ℓ} ⦃n : Number W⦄ where
  -- `Math.min(bounds.width / width, bounds.height / height)`
  abbrev pub scale : W → Rect W → W
  scale width bounds = n.min (n.div bounds.width width) (n.div bounds.height (n.of_ℕ 200))

  -- `(bounds.width - width * scale) / 2`
  abbrev pub offset_x : W → Rect W → W
  offset_x width bounds = n.div (n.sub bounds.width (n.mul width (scale width bounds))) (n.of_ℕ 2)

  abbrev pub offset_y : W → Rect W → W
  offset_y width bounds =
      n.div (n.sub bounds.height (n.mul (n.of_ℕ 200) (scale width bounds))) (n.of_ℕ 2)

  abbrev pub screen_x : W → Layout W → W → W
  screen_x width l x =
      n.add (n.add (n.sub l.bounds.left l.plot_bounds.left) (offset_x width l.bounds))
        (n.mul x (scale width l.bounds))

  abbrev pub screen_y : W → Layout W → W → W
  screen_y width l y =
      n.add (n.add (n.sub l.bounds.top l.plot_bounds.top) (offset_y width l.bounds))
        (n.mul y (scale width l.bounds))

  -- `(event.clientX - bounds.left - offsetX) / scale`
  abbrev pub position_of : W → Rect W → W → W
  position_of width bounds client_x =
      n.div (n.sub (n.sub client_x bounds.left) (offset_x width bounds)) (scale width bounds)

  module _ (days : List (Day W)) (width : W) where
    -- The point of a day.
    abbrev pub x_of : ℕ → W
    x_of = point_x width (length days)

    abbrev pub y_of : Day W → W
    y_of d = point_y (max_value (map day_value days)) (day_value d)

    unfoldable pub show_day : Layout W → ℕ → Day W → Plot W → Plot W
    show_day l i d p = record p {
      selected = some i;
      guide_x = x_of i;
      active_point = (x_of i, y_of d);
      guide_hidden = false;
      active_hidden = false;
      described = some d;
      tooltip_hidden = false;
      place = tooltip_place l (screen_x width l (x_of i)) (screen_y width l (y_of d));
    }

    unfoldable pub show : Layout W → ℕ → Plot W → Plot W
    unfolding show_day
    show l i p = elim (get_elem? days i) [
      | none ↦ p
      | some d ↦ if is_selected i p.selected && not p.tooltip_hidden then p else show_day l i d p
    ]

    -- A number that is no place in the array, and yet passes the guard of `show`, is NaN or a fraction:
    -- `trendTooltip` then gets `undefined`.
    unfoldable pub show_number : Layout W → W → Plot W → Plot W
    unfolding show
    show_number l w p = elim (n.index w) [
      | none ↦
          if n.lt w (n.of_ℕ 0) || n.le (n.of_ℕ (length days)) w
          then p
          else record p { failed = true }
      | some i ↦ show l i p
    ]

    unfoldable pub show_at_pointer : Layout W → W → Plot W → Plot W
    unfolding show_number
    show_at_pointer l client_x p =
        show_number l
          (trend_index_at (position_of width l.bounds client_x) (n.of_ℕ 50)
            (n.sub width (n.of_ℕ 12)) (length days))
          p

    -- `selected >= 0 ? selected : days.length - 1`
    abbrev pub current : Plot W → ℕ
    current p = elim p.selected [ none ↦ length days - 1 | some i ↦ i ]

    unfoldable pub focus_plot : Layout W → Plot W → Plot W
    unfolding show
    focus_plot l p = show l (current p) (record p { focused = true })

    unfoldable pub key_listener : Layout W → Key → Plot W → Plot W
    unfolding show hide
    key_listener l arrow_left p = show l (pred (current p)) p
    key_listener l arrow_right p = show l (min (length days - 1) (suc (current p))) p
    key_listener l home p = show l 0 p
    key_listener l end p = show l (length days - 1) p
    key_listener l escape p = hide false p
    key_listener l other p = p

    -- A plot that has the focus gets no `focus` event.
    unfoldable pub plot_step : Plot W → PlotEvent W → Plot W
    unfolding show_at_pointer focus_plot key_listener hide
    plot_step p (pointer_move l client_x) = show_at_pointer l client_x p
    plot_step p (pointer_down l client_x is_mouse) =
        let shown = show_at_pointer l client_x p in
        if is_mouse || shown.focused then shown else focus_plot l shown
    plot_step p (pointer_leave is_mouse) = if is_mouse then hide false p else p
    plot_step p (focus l) = if p.focused then p else focus_plot l p
    plot_step p blur = hide true (record p { focused = false })
    plot_step p (key_down l key) = if p.focused then key_listener l key p else p

    -- The plot as `renderTrend` writes it.
    abbrev pub drawn : Plot W
    drawn = record {
      selected = none;
      guide_hidden = true;
      active_hidden = true;
      tooltip_hidden = true;
      guide_x = n.of_ℕ 0;
      active_point = (n.of_ℕ 0, n.of_ℕ 0);
      described = none;
      place = (n.of_ℕ 0, n.of_ℕ 0);
      focused = false;
      failed = false;
    }

    abbrev pub plot_run : List (PlotEvent W) → Plot W
    plot_run events = foldl plot_step drawn events
