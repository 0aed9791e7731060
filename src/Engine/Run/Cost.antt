-- ===== src/Engine/Run/Cost.antt =====
-- The cost ceiling and charge-on-success over a whole run (gate G4).
use waterfall.Prelude.{
  ◌≡◌, refl, ap, ◌∙◌, String, List, [], ◌∷◌, inl, inr, Dict, get, put, or_else, All, Each,
  Each-or_else,
}
use waterfall.Domain.Errors.{Result, Result-cases, ok, err}
use waterfall.Domain.Fields.{Field, Float}
use waterfall.Domain.Requests.{EnrichmentRequest, Strings}
use waterfall.Tenant.{Context, tenant_id}
use waterfall.Store.Memory.{Memory, current, committed}
use waterfall.Provider.Env.{Env}
use waterfall.Router.Types.{Plan}
use waterfall.Engine.Types.{StopReason, Engine, RunState}
use waterfall.Engine.Fill.{fill_field}
use waterfall.Engine.Fill.Account.{
  IsCap, IsPriced, IsWithin, Balanced, Balanced-trans, fill_field-Account,
}
use waterfall.Engine.Run.{fill_fields, attributed, report, run_as, run_plan}
use waterfall.Engine.Run.Keeps.{tenant_id-attributed}
use waterfall.Store.Spend.{current-same, committed-same}

module _ {W : Type 0} (fl : Float) (env : Env W) (s : Strings) (e : Engine fl.F W)
    (req : EnrichmentRequest fl.F) where
  -- The reads at the end of a run leave it as it was.
  pub report-same :
      (ctx : Context) (r : Result (Dict StopReason)) (run : RunState fl.F W)
      → (report fl env s e ctx req r run).1 ≡ run
  unfolding report
  report-same ctx (err x) run = refl
  report-same ctx (ok stops) run =
      let m = (current fl.lt ctx req.subject.id run.store).1 in
      let read = current-same ctx run.store fl.lt req.subject.id in
      let spend = committed-same ctx m req.job_id in
      let both = ap (λ (n : Memory fl.F). record run { store = n }) (spend ∙ read) in
      elim (Result-cases (current fl.lt ctx req.subject.id run.store).0) [
        | inl (x, q) ↦ rw (q, report) (ap (λ (n : Memory fl.F). record run { store = n }) read)
        | inr (values, q) ↦ elim (Result-cases (committed ctx req.job_id m).0) [
          | inl (x, q') ↦ rw (q, q', report) both
          | inr (total, q') ↦ rw (q, q', report) both
        ]
      ]

module _ {W : Type 0} (fl : Float) (env : Env W) (s : Strings) (e : Engine fl.F W)
    (req : EnrichmentRequest fl.F) (plan : Plan fl.F) (cap : IsCap req.cost_ceiling)
    (priced : Each (All (IsPriced req.cost_ceiling)) plan.by_field) (tenant : String) where
  abbrev pub Within : RunState fl.F W → Type 0
  Within = IsWithin tenant req.job_id req.cost_ceiling

  abbrev pub Accounts : RunState fl.F W → RunState fl.F W → Type 0
  Accounts a b = Within b × Balanced tenant req.job_id req.cost_ceiling a b

  fill_fields-Account :
      (ctx : Context)
      → tenant_id ctx ≡ ok tenant
      → (fields : List Field) (stops : Dict StopReason) (run : RunState fl.F W) → Within run
      → Accounts run (fill_fields fl env s e ctx tenant req plan fields stops run).1
  unfolding fill_fields
  fill_fields-Account ctx p [] stops run within = (within, refl)
  fill_fields-Account ctx p (field ∷ rest) stops run within =
      let steps = or_else [] (get plan.by_field field) in
      let run' = (fill_field fl env s e ctx tenant req field steps run).1 in
      let now =
        fill_field-Account fl env s e ctx tenant req field p cap steps run
          (Each-or_else (All (IsPriced req.cost_ceiling)) [] plan.by_field field tt priced)
          within in
      elim (Result-cases (fill_field fl env s e ctx tenant req field steps run).0) [
        | inl (x, q) ↦ rw (q, fill_fields) now
        | inr (reason, q) ↦
            let later = fill_fields-Account ctx p rest (put stops field reason) run' now.0 in
            let run'' =
              (fill_fields fl env s e ctx tenant req plan rest (put stops field reason) run').1 in
            rw (q, fill_fields)
              (
                later.0,
                Balanced-trans tenant req.job_id req.cost_ceiling run run' run'' now.1 later.1,
              )
      ]

  -- A run that starts with a spend between 0 and the ceiling ends with one, and has added to the
  -- spend exactly the costs of the values that it reports as filled: calls that fail, calls that
  -- find nothing, and results used again cost nothing. The costs of the plan are not negative, and
  -- with the ceiling they stay within `int64`.
  pub run_plan-Accounts :
      (ctx : Context) (run : RunState fl.F W)
      → tenant_id ctx ≡ ok tenant
      → Within run
      → Accounts run (run_plan fl env s e ctx req plan run).1
  unfolding run_plan run_as
  run_plan-Accounts ctx run p within =
      let ctx' = attributed fl env s e ctx req in
      let stops = (fill_fields fl env s e ctx' tenant req plan plan.order [] run).0 in
      let run' = (fill_fields fl env s e ctx' tenant req plan plan.order [] run).1 in
      rw (p, report-same fl env s e req ctx' stops run')
        (fill_fields-Account ctx' (tenant_id-attributed fl env s e req ctx ∙ p) plan.order [] run
          within)
