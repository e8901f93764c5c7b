-- ===== src/Server/Sums.antt =====
-- The sums of the server, in any order.
use copilot_api_dashboard.Base.{
  ℕ, true, Option, none, some, List, [], ◌∷◌, All, ◌≡◌, refl, sym, ap, arith,
}
use copilot_api_dashboard.Server.Keyed.{merge}
use copilot_api_dashboard.Server.Keyed.Sorted.{Distinct, Ascending, Ascending-Distinct}
use copilot_api_dashboard.Server.Keyed.Merging.{
  IsAdder, AllOf, Commutes, merge-Ascending, All-merge, merge_comm,
}
use copilot_api_dashboard.Server.{
  add64, Cost, Totals, ModelTotals, UpstreamDay, Day, or_empty, add_nano, nanos_of, currency_of,
  add_cost, add_costs, add_totals, zero_totals, add_model, merge_models, add_day, merge_day,
}

pub add64_swap : (a b c : ℕ) → add64 (add64 a b) c ≡ add64 (add64 a c) b
add64_swap a b c = omega arith

add_nano_swap : (o a b : Option ℕ) → add_nano (add_nano o a) b ≡ add_nano (add_nano o b) a
add_nano_swap o none none = refl
add_nano_swap none (some a) none = refl
add_nano_swap (some n) (some a) none = refl
add_nano_swap none none (some b) = refl
add_nano_swap (some n) none (some b) = refl
add_nano_swap none (some a) (some b) = ap some (omega arith)
add_nano_swap (some n) (some a) (some b) = ap some (omega arith)

module _ {ℓ} {F : Type ℓ} (amount_of : ℕ → F) where
  add_cost-IsAdder :
      IsAdder {A = Cost F} {B = Cost F} (λ c. c.currency) (λ c. c.currency) (add_cost amount_of)
  add_cost-IsAdder = record { key_none = λ b. refl; key_some = λ b x. refl }

  abbrev Any : Cost F → Type 0
  Any c = Unit

  add_cost-Commutes : Commutes Any (λ c. c.currency) (add_cost amount_of)
  add_cost-Commutes = record { good = λ b o h. tt; comm = swap }
    where
      swap :
          (b c : Cost F) (o : Option (Cost F))
          → AllOf Any o
          → b.currency ≡ c.currency
          → add_cost amount_of b (some (add_cost amount_of c o))
            ≡ add_cost amount_of c (some (add_cost amount_of b o))
      swap b c o h e =
          let nanos = add64_swap (nanos_of o) c.nanos b.nanos in
          λ i. record { amount = amount_of (nanos i); currency = same o i; nanos = nanos i }
        where
          same : (p : Option (Cost F)) → currency_of c.currency p ≡ currency_of b.currency p
          same none = sym e
          same (some x) = refl

  -- The costs of totals that have been added up are sorted by their currencies, each once.
  abbrev pub IsSummed : Totals F → Type 0
  IsSummed t = Distinct (λ (c : Cost F). c.currency) (or_empty t.costs)

  pub add_costs-Ascending :
      (dst src : List (Cost F))
      → Distinct (λ (c : Cost F). c.currency) dst
      → Ascending (λ (c : Cost F). c.currency) (add_costs amount_of dst src)
  unfolding add_costs
  add_costs-Ascending dst src d =
      merge-Ascending (λ c. c.currency) (λ c. c.currency) (add_cost amount_of) add_cost-IsAdder dst
        src d

  all-Any : (cs : List (Cost F)) → All Any cs
  all-Any [] = tt
  all-Any (c ∷ cs) = (tt, all-Any cs)

  add_costs_swap :
      (dst a b : List (Cost F))
      → Distinct (λ (c : Cost F). c.currency) dst
      → add_costs amount_of (add_costs amount_of dst a) b
        ≡ add_costs amount_of (add_costs amount_of dst b) a
  unfolding add_costs
  add_costs_swap dst a b d =
      merge_comm (λ c. c.currency) (λ c. c.currency) (add_cost amount_of) add_cost-IsAdder
        add_cost-Commutes dst a b d (all-Any dst)

  pub add_totals-IsSummed :
      (dst src : Totals F) → IsSummed dst → IsSummed (add_totals amount_of dst src)
  unfolding add_totals
  add_totals-IsSummed dst src d =
      Ascending-Distinct (λ c. c.currency) _
        (add_costs-Ascending (or_empty dst.costs) (or_empty src.costs) d)

  pub add_totals_swap :
      (t a b : Totals F)
      → IsSummed t
      → add_totals amount_of (add_totals amount_of t a) b
        ≡ add_totals amount_of (add_totals amount_of t b) a
  unfolding add_totals
  add_totals_swap t a b d =
      let costs = add_costs_swap (or_empty t.costs) (or_empty a.costs) (or_empty b.costs) d in
      λ i. record {
        input = add64_swap t.input a.input b.input i;
        output = add64_swap t.output a.output b.output i;
        cache_read = add64_swap t.cache_read a.cache_read b.cache_read i;
        cache_creation = add64_swap t.cache_creation a.cache_creation b.cache_creation i;
        requests = add64_swap t.requests a.requests b.requests i;
        tokens = add64_swap t.tokens a.tokens b.tokens i;
        nano_aiu = add_nano_swap t.nano_aiu a.nano_aiu b.nano_aiu i;
        costs = some (costs i);
      }

  add_model-IsAdder :
      IsAdder {A = ModelTotals F} {B = ModelTotals F}
        (λ m. m.model)
        (λ m. m.model)
        (add_model amount_of)
  add_model-IsAdder = record { key_none = λ b. refl; key_some = λ b x. refl }

  abbrev pub IsSummedModel : ModelTotals F → Type 0
  IsSummedModel m = IsSummed m.totals

  add_model-good :
      (b : ModelTotals F) (o : Option (ModelTotals F))
      → AllOf IsSummedModel o
      → IsSummedModel (add_model amount_of b o)
  add_model-good b none h = add_totals-IsSummed (zero_totals none) b.totals tt
  add_model-good b (some m) h = add_totals-IsSummed m.totals b.totals h

  add_model-Commutes : Commutes IsSummedModel (λ m. m.model) (add_model amount_of)
  add_model-Commutes = record { good = add_model-good; comm = swap }
    where
      swap :
          (b c : ModelTotals F) (o : Option (ModelTotals F))
          → AllOf IsSummedModel o
          → b.model ≡ c.model
          → add_model amount_of b (some (add_model amount_of c o))
            ≡ add_model amount_of c (some (add_model amount_of b o))
      swap b c none h e =
          let totals = add_totals_swap (zero_totals none) c.totals b.totals tt in
          let name = sym e in λ i. record { model = name i; totals = totals i }
      swap b c (some m) h e =
          let totals = add_totals_swap m.totals c.totals b.totals h in
          λ i. record { model = m.model; totals = totals i }

  -- Models that have been merged: each once, with costs that have been added up.
  pub record IsMerged (ms : List (ModelTotals F)) : Type 0 where
    pub distinct : Distinct (λ (m : ModelTotals F). m.model) ms
    pub summed : All IsSummedModel ms

  pub merge_models-IsMerged :
      (dst src : List (ModelTotals F)) → IsMerged dst → IsMerged (merge_models amount_of dst src)
  unfolding merge_models
  merge_models-IsMerged dst src h = record {
    distinct =
        Ascending-Distinct (λ m. m.model) _
          (merge-Ascending (λ m. m.model) (λ m. m.model) (add_model amount_of) add_model-IsAdder dst
            src h.distinct);
    summed =
        All-merge (λ m. m.model) (λ m. m.model) (add_model amount_of) add_model-IsAdder
          IsSummedModel dst src add_model-good h.summed;
  }

  pub merge_models_swap :
      (ms a b : List (ModelTotals F))
      → IsMerged ms
      → merge_models amount_of (merge_models amount_of ms a) b
        ≡ merge_models amount_of (merge_models amount_of ms b) a
  unfolding merge_models
  merge_models_swap ms a b h =
      merge_comm (λ m. m.model) (λ m. m.model) (add_model amount_of) add_model-IsAdder
        add_model-Commutes ms a b h.distinct h.summed

  -- Days that have been merged.
  abbrev pub IsSummedDay : Day F → Type 0
  IsSummedDay d = IsSummed d.totals × IsMerged d.models

  no_models : IsMerged []
  no_models = record { distinct = tt; summed = tt }

  add_day-IsAdder :
      IsAdder {A = Day F} {B = UpstreamDay F} (λ d. d.date) (λ d. d.date) (add_day amount_of)
  add_day-IsAdder = record { key_none = λ b. refl; key_some = λ b x. refl }

  pub add_day-good :
      (b : UpstreamDay F) (o : Option (Day F))
      → AllOf IsSummedDay o
      → IsSummedDay (add_day amount_of b o)
  add_day-good b none h = (
    add_totals-IsSummed (zero_totals none) b.totals tt,
    merge_models-IsMerged [] b.models no_models,
  )
  add_day-good b (some d) h =
      (add_totals-IsSummed d.totals b.totals h.0, merge_models-IsMerged d.models b.models h.1)

  add_day-Commutes : Commutes IsSummedDay (λ d. d.date) (add_day amount_of)
  add_day-Commutes = record { good = add_day-good; comm = swap }
    where
      swap :
          (b c : UpstreamDay F) (o : Option (Day F))
          → AllOf IsSummedDay o
          → b.date ≡ c.date
          → add_day amount_of b (some (add_day amount_of c o))
            ≡ add_day amount_of c (some (add_day amount_of b o))
      swap b c none h e =
          let name = sym e in
          let totals = add_totals_swap (zero_totals none) c.totals b.totals tt in
          let models = merge_models_swap [] c.models b.models no_models in
          λ i. record { date = name i; recorded = true; totals = totals i; models = models i }
      swap b c (some d) h e =
          let totals = add_totals_swap d.totals c.totals b.totals h.0 in
          let models = merge_models_swap d.models c.models b.models h.1 in
          λ i. record { date = d.date; recorded = true; totals = totals i; models = models i }

  -- Days by their dates, each once.
  pub record IsCalendar (ds : List (Day F)) : Type 0 where
    pub ascending : Ascending (λ (d : Day F). d.date) ds
    pub summed : All IsSummedDay ds

  merge_day-merge :
      (ds : List (Day F)) (d : UpstreamDay F)
      → merge_day amount_of ds d ≡ merge (λ x. x.date) (λ x. x.date) (add_day amount_of) ds (d ∷ [])
  unfolding merge_day merge
  merge_day-merge ds d = refl

  pub merge_day-IsCalendar :
      (ds : List (Day F)) (d : UpstreamDay F)
      → IsCalendar ds
      → IsCalendar (merge_day amount_of ds d)
  merge_day-IsCalendar ds d h = rw (merge_day-merge ds d) (record {
    ascending =
        merge-Ascending (λ x. x.date) (λ x. x.date) (add_day amount_of) add_day-IsAdder ds (d ∷ [])
          (Ascending-Distinct (λ x. x.date) ds h.ascending);
    summed =
        All-merge (λ x. x.date) (λ x. x.date) (add_day amount_of) add_day-IsAdder IsSummedDay ds
          (d ∷ []) add_day-good h.summed;
  })

  pub merge_day_swap :
      (ds : List (Day F)) (a b : UpstreamDay F)
      → IsCalendar ds
      → merge_day amount_of (merge_day amount_of ds a) b
        ≡ merge_day amount_of (merge_day amount_of ds b) a
  merge_day_swap ds a b h =
      rw
        (
          merge_day-merge (merge_day amount_of ds a) b,
          merge_day-merge ds a,
          merge_day-merge (merge_day amount_of ds b) a,
          merge_day-merge ds b,
        )
        (merge_comm (λ x. x.date) (λ x. x.date) (add_day amount_of) add_day-IsAdder add_day-Commutes
          ds (a ∷ []) (b ∷ []) (Ascending-Distinct (λ x. x.date) ds h.ascending) h.summed)
