-- ===== src/Tests/Charts.antt =====
-- The chart and the names of the accounts, over thousandths.
use mathlib.Core.List.{foldl}
use Prim.Native.Nat.{min}
use copilot_api_dashboard.Base.{
  ℕ, ◌-◌, ◌<◌, String, true, false, none, some, List, [], ◌∷◌, ◌≡◌, ◌≢◌, refl, arith, All, map,
}
use copilot_api_dashboard.Model.{Account, Day, Usage, num, null, boolean}
use copilot_api_dashboard.Number.{◌≼◌}
use copilot_api_dashboard.Number.Milli.{Milli, Milli-IsNumber, milli_number}
use copilot_api_dashboard.Chart.{
  Layout, trend_index_at, chart_width, day_value, max_value, tooltip_place,
}
use copilot_api_dashboard.Chart.Bounds.{
  Within, OnPlot, trend_index_at_bounds, tooltip_place_bounds, renders-OnPlot,
}
use copilot_api_dashboard.Chart.Plot.{
  Plot, PlotEvent, pointer_move, pointer_leave, key_down, focus, home, end, arrow_left, arrow_right,
  drawn, plot_step, plot_run,
}
use copilot_api_dashboard.Chart.Shown.{Shown}
use copilot_api_dashboard.Chart.Keys.{At, presses, plot_run-Shown, plot_step-At}
use copilot_api_dashboard.Names.{name_of, account_name, KeyPress, Display, toggle_names}
use copilot_api_dashboard.Names.Distinct.{here, there, account_name-ne}

trend_index_at_bounds_example :
    (i : ℕ) × (i < 8)
    × (milli_number.index (trend_index_at (some 400_000) (some 50_000) (some 750_000) 8) ≡ some i)
trend_index_at_bounds_example =
    trend_index_at_bounds Milli-IsNumber (some 400_000) (some 50_000) (some 750_000) 8 refl refl
      refl refl (omega arith) (omega arith)

-- A plot of 700 by 200 pixels, and a tooltip of 120 by 80.
abbrev wide : Layout Milli
wide = record {
  bounds = record { left = some 0; top = some 0; width = some 700_000; height = some 200_000 };
  plot_bounds = record { left = some 0; top = some 0; width = some 700_000; height = some 200_000 };
  tooltip_width = some 120_000;
  tooltip_height = some 80_000;
}

tooltip_place_bounds_example :
    Within {W = Milli}
      (some 700_000)
      (some 120_000)
      (tooltip_place wide (some 690_000) (some 100_000)).0
    × Within {W = Milli}
        (some 200_000)
        (some 80_000)
        (tooltip_place wide (some 690_000) (some 100_000)).1
tooltip_place_bounds_example =
    tooltip_place_bounds Milli-IsNumber wide (some 690_000) (some 100_000) refl refl (refl, refl)
      (refl, refl) (refl, refl) (refl, refl)

abbrev usage_of : ℕ → Usage Milli
usage_of tokens = record {
  input_tokens = null;
  output_tokens = null;
  cache_read_input_tokens = null;
  cache_creation_input_tokens = null;
  total_tokens = num (some tokens);
  request_count = null;
  costs = none;
}

abbrev two_days : List (Day Milli)
two_days =
    record { date = "2026-09-08"; recorded = boolean true; totals = some (usage_of 5_000) }
    ∷ record { date = "2026-09-09"; recorded = boolean false; totals = none }
    ∷ []

renders-OnPlot_example :
    All
      (λ d. some 0 ≼ day_value d → OnPlot (max_value (map day_value two_days)) (day_value d))
      two_days
renders-OnPlot_example = renders-OnPlot Milli-IsNumber two_days

abbrev moves : List (PlotEvent Milli)
moves =
    pointer_move wide (some 600_000)
    ∷ focus wide
    ∷ key_down wide arrow_left
    ∷ pointer_leave true
    ∷ []

plot_run-Shown_example :
    Shown two_days
      (chart_width (some 732_000))
      (plot_run two_days (chart_width (some 732_000)) moves)
unfolding chart_width
plot_run-Shown_example =
    plot_run-Shown Milli-IsNumber (some 732_000) refl two_days moves (omega arith) (omega arith)
      (refl, (tt, (tt, (tt, tt))))

abbrev focused_plot : Plot Milli
focused_plot = record (drawn two_days (some 700_000)) { focused = true }

plot_step-At_example :
    At two_days (some 700_000) (min 1 3) (
      foldl
        (plot_step two_days (some 700_000))
        focused_plot
        (key_down wide home ∷ presses two_days (some 700_000) 3 (key_down wide arrow_right)))
    × At two_days (some 700_000) (1 - 3) (
        foldl
          (plot_step two_days (some 700_000))
          focused_plot
          (key_down wide end ∷ presses two_days (some 700_000) 3 (key_down wide arrow_left)))
plot_step-At_example = plot_step-At two_days (some 700_000) wide 3 focused_plot (omega arith) refl

abbrev account_of : String → String → Account ℕ
account_of login display_name = record {
  login = login;
  display_name = some display_name;
  copilot_plan = none;
  quota_reset_date = none;
  premium_interactions = none;
  chat = none;
  completions = none;
  totals = none;
}

abbrev two_alices : List (Account ℕ)
two_alices = account_of "a" "Alice" ∷ account_of "b" "Alice" ∷ []

account_name-ne_example :
    account_name true two_alices (account_of "a" "Alice")
    ≢ account_name true two_alices (account_of "b" "Alice")
unfolding name_of
account_name-ne_example =
    account_name-ne true two_alices (account_of "a" "Alice") (account_of "b" "Alice")
      (refl, (refl, tt)) (here refl) (there (here refl)) refl refl

abbrev plain_d : KeyPress
plain_d = record {
  key = "d";
  default_prevented = false;
  ctrl_key = false;
  meta_key = false;
  alt_key = false;
  repeat = false;
  is_composing = false;
  is_content_editable = false;
  in_field = false;
}

abbrev logins_shown : Display
logins_shown = record {
  show_names = false;
  accounts_hidden = false;
  has_account_aliases = true;
  has_table = true;
  announcement = "";
}

names_toggled :
    toggle_names plain_d logins_shown
    ≡ record logins_shown { show_names = true; announcement = "Account display names shown." }
unfolding toggle_names
names_toggled = refl

names_left : toggle_names (record plain_d { alt_key = true }) logins_shown ≡ logins_shown
unfolding toggle_names
names_left = refl

-- A display name that has the form of a name with its login.
abbrev three_bobs : List (Account ℕ)
three_bobs =
    account_of "alice" "Bob" ∷ account_of "bob" "Bob" ∷ account_of "carol" "Bob (alice)" ∷ []

account_name_collides :
    account_name true three_bobs (account_of "alice" "Bob")
    ≡ account_name true three_bobs (account_of "carol" "Bob (alice)")
unfolding account_name
account_name_collides = refl
