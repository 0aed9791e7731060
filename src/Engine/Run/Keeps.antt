-- ===== src/Engine/Run/Keeps.antt =====
-- What every method of the store keeps, `Run` keeps.
use waterfall.Prelude.{
  ◌≡◌, List, [], ◌∷◌, inl, inr, Dict, or_else, get, not, ◌==◌, ◌||◌, Bool-cases, String, ◌∙◌,
}
use waterfall.Domain.Errors.{Result-cases, Result, ok, err}
use waterfall.Domain.Fields.{Field, Float}
use waterfall.Domain.Requests.{EnrichmentRequest, Strings}
use waterfall.Tenant.{Context, tenant_id}
use waterfall.Store.Memory.{Memory, current, committed}
use waterfall.Store.Isolation.{Operation, perform, op_current, op_committed}
use waterfall.Provider.Env.{Env}
use waterfall.Router.Types.{Plan}
use waterfall.Engine.Types.{
  StopReason, Engine, RunState, tenant_id-with_attribution, tenant_id-with_lease_attribution,
}
use waterfall.Engine.Fill.{fill_field}
use waterfall.Engine.Fill.Keeps.{fill_field-keeps}
use waterfall.Engine.Run.{fill_fields, attributed, report, run_as, run_plan}

module _ {W : Type 0} (fl : Float) (env : Env W) (s : Strings) (e : Engine fl.F W)
    (req : EnrichmentRequest fl.F) where
  -- The attribution that `Run` adds leaves the tenant alone.
  pub tenant_id-attributed :
      (ctx : Context) → tenant_id (attributed fl env s e ctx req) ≡ tenant_id ctx
  unfolding attributed
  tenant_id-attributed ctx =
      elim (Bool-cases (not (req.workflow_key == "") || not (req.country == ""))) [
        | inl q ↦ rw q (
            tenant_id-with_lease_attribution _
            ∙ tenant_id-with_attribution ctx req.workflow_key req.country)
        | inr q ↦ rw q (tenant_id-with_lease_attribution ctx)
      ]

module _ {W : Type 0} (fl : Float) (env : Env W) (s : Strings) (e : Engine fl.F W)
    (req : EnrichmentRequest fl.F) (plan : Plan fl.F) (P : Memory fl.F → Type 0) where
  abbrev Kept : Context → Type 0
  Kept ctx = (op : Operation fl.F) (m : Memory fl.F) → P m → P (perform fl.lt ctx op m).1

  fill_fields-keeps :
      (ctx : Context) (tenant : String)
      → Kept ctx
      → (fields : List Field) (stops : Dict StopReason) (run : RunState fl.F W) → P run.store
      → P (fill_fields fl env s e ctx tenant req plan fields stops run).1.store
  unfolding fill_fields
  fill_fields-keeps ctx tenant keeps [] stops run h = h
  fill_fields-keeps ctx tenant keeps (field ∷ rest) stops run h =
      let steps = or_else [] (get plan.by_field field) in
      let kept = fill_field-keeps fl env s e ctx tenant req field {P = P} keeps steps run h in
      elim (Result-cases (fill_field fl env s e ctx tenant req field steps run).0) [
        | inl (x, q) ↦ rw (q, fill_fields) kept
        | inr (reason, q) ↦ rw (q, fill_fields) (fill_fields-keeps ctx tenant keeps rest _ _ kept)
      ]

  report-keeps :
      (ctx : Context)
      → Kept ctx
      → (r : Result (Dict StopReason)) (run : RunState fl.F W) → P run.store
      → P (report fl env s e ctx req r run).1.store
  unfolding report perform
  report-keeps ctx keeps (err x) run h = h
  report-keeps ctx keeps (ok stops) run h =
      let kept = keeps (op_current req.subject.id) run.store h in
      elim (Result-cases (current fl.lt ctx req.subject.id run.store).0) [
        | inl (x, q) ↦ rw (q, report) kept
        | inr (values, q) ↦
            elim (Result-cases
              (committed ctx req.job_id (current fl.lt ctx req.subject.id run.store).1).0) [
                | inl (x, q') ↦ rw (q, q', report) (keeps (op_committed req.job_id) _ kept)
                | inr (total, q') ↦ rw (q, q', report) (keeps (op_committed req.job_id) _ kept)
              ]
      ]

  -- `Run` reaches the store through its methods alone, each under a context of the caller's tenant:
  -- what every such method keeps, it keeps.
  pub run_plan-keeps :
      (ctx : Context)
      → ((c : Context) → tenant_id c ≡ tenant_id ctx → Kept c)
      → (run : RunState fl.F W) → P run.store
      → P (run_plan fl env s e ctx req plan run).1.store
  unfolding run_plan run_as
  run_plan-keeps ctx keeps run h = elim (Result-cases (tenant_id ctx)) [
    | inl (x, q) ↦ rw q h
    | inr (tenant, q) ↦
        let kept =
          keeps (attributed fl env s e ctx req) (tenant_id-attributed fl env s e req ctx) in
        rw q (report-keeps _ kept _ _ (fill_fields-keeps _ tenant kept plan.order [] run h))
  ]
