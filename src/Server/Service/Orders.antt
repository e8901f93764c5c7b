-- ===== src/Server/Service/Orders.antt =====
-- The sums of the server over days that arrive in another order.
use mathlib.Core.List.{Permᴰ}
use mathlib.Core.List.Permᴰ.{nil, cons, swap, trans}
use copilot_api_dashboard.Base.{ℕ, some, List, [], ◌∷◌, ◌≡◌, refl, sym, ap, ap₂, ◌∙◌}
use copilot_api_dashboard.Server.{
  Totals, ModelTotals, UpstreamDay, Day, zero_totals, add_totals, merge_models, merge_day,
}
use copilot_api_dashboard.Server.Sums.{
  IsSummed, IsMerged, IsCalendar, add_totals-IsSummed, add_totals_swap, merge_models-IsMerged,
  merge_models_swap, merge_day-IsCalendar, merge_day_swap,
}
use copilot_api_dashboard.Server.Service.{sum_totals, sum_models, summarize_days, merge_days}

abbrev fold {ℓ κ} : {S : Type ℓ} {B : Type κ} → (S → B → S) → S → List B → S
fold step s [] = s
fold step s (b ∷ bs) = fold step (step s b) bs

module _ {ℓ κ μ} {S : Type ℓ} {B : Type κ} (step : S → B → S) (Good : S → Type μ)
    (keep : (s : S) (b : B) → Good s → Good (step s b))
    (swaps : (s : S) (a b : B) → Good s → step (step s a) b ≡ step (step s b) a) where
  fold_perm : {xs ys : List B} → Permᴰ xs ys → (s : S) → Good s → fold step s xs ≡ fold step s ys
  fold_perm nil s g = refl
  fold_perm (cons {a} {l₂} e p) s g =
      fold_perm p (step s a) (keep s a g) ∙ ap (λ x. fold step (step s x) l₂) e
  fold_perm (swap {a} {b} {l} d e) s g =
      ap (λ x. fold step x l) (swaps s a b g ∙ ap₂ (λ x y. step (step s x) y) e d)
  fold_perm (trans p q) s g = fold_perm p s g ∙ fold_perm q s g

module _ {ℓ} {F : Type ℓ} (amount_of : ℕ → F) where
  abbrev add_day_totals : Totals F → UpstreamDay F → Totals F
  add_day_totals t d = add_totals amount_of t d.totals

  abbrev add_day_models : List (ModelTotals F) → UpstreamDay F → List (ModelTotals F)
  add_day_models ms d = merge_models amount_of ms d.models

  sum_totals-fold :
      (t : Totals F) (ds : List (UpstreamDay F))
      → sum_totals amount_of t ds ≡ fold add_day_totals t ds
  unfolding sum_totals
  sum_totals-fold t [] = refl
  sum_totals-fold t (d ∷ ds) = sum_totals-fold (add_totals amount_of t d.totals) ds

  sum_models-fold :
      (ms : List (ModelTotals F)) (ds : List (UpstreamDay F))
      → sum_models amount_of ms ds ≡ fold add_day_models ms ds
  unfolding sum_models
  sum_models-fold ms [] = refl
  sum_models-fold ms (d ∷ ds) = sum_models-fold (merge_models amount_of ms d.models) ds

  merge_days-fold :
      (dst : List (Day F)) (ds : List (UpstreamDay F))
      → merge_days amount_of dst ds ≡ fold (merge_day amount_of) dst ds
  unfolding merge_days
  merge_days-fold dst [] = refl
  merge_days-fold dst (d ∷ ds) = merge_days-fold (merge_day amount_of dst d) ds

  -- In whatever order the same days arrive, with overflow and with costs in any currencies, `summarizeDays`
  -- gives the same totals and models, and merging them gives the same days.
  pub days_perm :
      (days others : List (UpstreamDay F))
      → Permᴰ days others
      → (summarize_days amount_of days ≡ summarize_days amount_of others)
        × (merge_days amount_of [] days ≡ merge_days amount_of [] others)
  unfolding summarize_days
  days_perm days others p =
      let totals =
        fold_perm add_day_totals (IsSummed amount_of)
          (λ t d. add_totals-IsSummed amount_of t d.totals)
          (λ t a b. add_totals_swap amount_of t a.totals b.totals) p (zero_totals (some [])) tt in
      let models =
        fold_perm add_day_models (IsMerged amount_of)
          (λ ms d. merge_models-IsMerged amount_of ms d.models)
          (λ ms a b. merge_models_swap amount_of ms a.models b.models) p []
          (record { distinct = tt; summed = tt }) in
      let merged =
        fold_perm (merge_day amount_of) (IsCalendar amount_of) (merge_day-IsCalendar amount_of)
          (merge_day_swap amount_of) p [] (record { ascending = tt; summed = tt }) in
      (
        ap₂ (λ t ms. (t, ms)) (sum_totals-fold _ days ∙ totals ∙ sym (sum_totals-fold _ others))
            (sum_models-fold [] days ∙ models ∙ sym (sum_models-fold [] others)),
        merge_days-fold [] days ∙ merged ∙ sym (merge_days-fold [] others),
      )
