-- ===== src/Router/Planner.antt =====
-- `Planner` of internal/router/plan.go: which provider calls are proposed, and in which order.
pub mod Planned
pub mod Ranked
use waterfall.Prelude.{
  ℤ, pos, ◌+◌, String, Bool, true, false, not, ◌&&◌, ◌||◌, Option, none, some, List, [], ◌∷◌, ◌++◌,
  ◌==◌, Dict, get, put, or_else, leb_ℤ, ltb_ℤ, add64, sort_by, if◌then◌else◌,
}
use waterfall.Domain.Fields.{Field, Credits, Float, field_valid}
use waterfall.Domain.Requests.{Strings}
use waterfall.Provider.Env.{Adapter, Capability, can}
use waterfall.Router.Types.{Step, Plan}

module _ (fl : Float) (s : Strings) where
  open fl use {F, million, lt, eq, mul, div, of_int}

  -- `density`.
  unfoldable pub density : Step F → F → F
  density step est = if leb_ℤ step.cost (pos 0) then mul est million else div est (of_int step.cost)

  pub step_of : {W : Type 0} → Field → Adapter F W → Option (Capability F) → List (Step F)
  step_of f a none = []
  step_of f a (some c) =
      record {
        field = f;
        provider = a.name;
        cost = c.cost;
        expected_confidence = c.expected_confidence;
      }
      ∷ []

  -- The steps of the adapters that advertise a field.
  unfoldable pub offers : {W : Type 0} → Field → List (Adapter F W) → List (Step F)
  unfolding step_of
  offers f [] = []
  offers f (a ∷ adapters) = step_of f a (can a f) ++ offers f adapters

  -- The scores by provider. A scorer is consulted once a step, in order; it may sample, so each
  -- consultation leaves a new state `R`.
  module _ {R : Type 0} (scorer : Option (String → Field → F → R → F × R)) where
    unfoldable pub score_of : Option (String → Field → F → R → F × R) → Step F → Field → R → F × R
    score_of none step f r = (step.expected_confidence, r)
    score_of (some score) step f r = score step.provider f step.expected_confidence r

    unfoldable pub scores : List (Step F) → Field → Dict F → R → Dict F × R
    unfolding score_of
    scores [] f known r = (known, r)
    scores (step ∷ steps) f known r =
        let (est, r') = score_of scorer step f r in scores steps f (put known step.provider est) r'

    -- The comparison that the steps are sorted by.
    unfoldable pub goes_before : Dict F → Step F → Step F → Bool
    goes_before known a b =
        let da = density a (or_else fl.float_zero (get known a.provider)) in
        let db = density b (or_else fl.float_zero (get known b.provider)) in
        if not (eq da db)
        then lt db da
        else if not (leb_ℤ a.cost b.cost && leb_ℤ b.cost a.cost)
        then ltb_ℤ a.cost b.cost
        else s.less a.provider b.provider

    -- `sort.SliceStable`, by insertion from the right: an element stays before its equals.
    unfoldable pub sort_steps : Dict F → List (Step F) → List (Step F)
    unfolding goes_before
    sort_steps known steps = sort_by (goes_before known) steps

    -- One turn of the loop over the wanted fields.
    unfoldable pub plan_field : Field → List (Step F) → Plan F → R → Plan F × R
    unfolding scores sort_steps
    plan_field f [] p r = (p, r)
    plan_field f (step ∷ steps) p r =
        let (known, r') = scores (step ∷ steps) f [] r in
        (
          record {
            by_field = put p.by_field f (sort_steps known (step ∷ steps));
            order = p.order ++ f ∷ [];
          },
          r',
        )

    unfoldable pub plan_fields :
        {W : Type 0} → List (Adapter F W) → List Field → Plan F → R → Plan F × R
    unfolding plan_field offers
    plan_fields adapters [] p r = (p, r)
    plan_fields adapters (f ∷ fs) p r = elim (field_valid f) [
      | false ↦ plan_fields adapters fs p r
      | true ↦ let (p', r') = plan_field f (offers f adapters) p r in plan_fields adapters fs p' r'
    ]

    -- `Planner.Plan`, for the fields wanted.
    unfoldable pub make_plan : {W : Type 0} → List (Adapter F W) → List Field → R → Plan F × R
    unfolding plan_fields
    make_plan adapters want r = plan_fields adapters want (record { by_field = []; order = [] }) r

sum_costs : {C : Type 0} → List (Step C) → Credits → Credits
sum_costs [] total = total
sum_costs (step ∷ steps) total = sum_costs steps (add64 total step.cost)

sum_fields : {C : Type 0} → Dict (List (Step C)) → Credits → Credits
unfolding sum_costs
sum_fields [] total = total
sum_fields ((f, steps) ∷ rest) total = sum_fields rest (sum_costs steps total)

-- `MaxCommitted`.
unfoldable pub max_committed : {C : Type 0} → Plan C → Credits
unfolding sum_fields
max_committed p = sum_fields p.by_field (pos 0)
