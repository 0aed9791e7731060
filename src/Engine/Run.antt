-- ===== src/Engine/Run.antt =====
-- `Run` of internal/engine/engine.go.
pub mod Keeps
pub mod Cost
pub mod Replay
use waterfall.Prelude.{
  String, not, ◌||◌, List, [], ◌∷◌, ◌==◌, Dict, get, put, or_else, if◌then◌else◌,
}
use waterfall.Domain.Errors.{Result, ok, err}
use waterfall.Domain.Fields.{Field, Float}
use waterfall.Domain.Requests.{EnrichmentRequest, Strings}
use waterfall.Tenant.{Context, tenant_id}
use waterfall.Store.Memory.{committed as committed_in_store, current}
use waterfall.Provider.Env.{Env}
use waterfall.Router.Types.{Plan}
use waterfall.Engine.Types.{
  StopReason, Engine, RunState, Outcome, with_attribution, with_lease_attribution,
}
use waterfall.Engine.Fill.{fill_field}

module _ {W : Type 0} (fl : Float) (env : Env W) (s : Strings) (e : Engine fl.F W) where
  open fl use {F, lt}

  module _ (ctx : Context) (tenant : String) (req : EnrichmentRequest F) (plan : Plan F) where
    -- The loop of `Run` over the fields, with the stop reasons so far.
    fill_fields :
        List Field → Dict StopReason → RunState F W → Result (Dict StopReason) × RunState F W
    unfolding fill_field
    fill_fields [] stops run = (ok stops, run)
    fill_fields (field ∷ rest) stops run =
        let (r, run') =
          fill_field fl env s e ctx tenant req field (or_else [] (get plan.by_field field)) run in
        elim r [
          | ok reason ↦ fill_fields rest (put stops field reason) run'
          | err x ↦ (err x, run')
        ]

  pub attributed : Context → EnrichmentRequest F → Context
  attributed ctx req = with_lease_attribution (
      if not (req.workflow_key == "") || not (req.country == "")
      then with_attribution ctx req.workflow_key req.country
      else ctx)

  -- The reads at the end of `Run`.
  pub report :
      Context
      → EnrichmentRequest F
      → Result (Dict StopReason)
      → RunState F W
      → Result (Outcome F) × RunState F W
  report ctx req (err x) run = (err x, run)
  report ctx req (ok stops) run =
      let (found, m) = current lt ctx req.subject.id run.store in
      elim found [
        | err x ↦ (err x, record run { store = m })
        | ok values ↦
            let (spent, m') = committed_in_store ctx req.job_id m in
            elim spent [
              | err x ↦ (err x, record run { store = m' })
              | ok total ↦ (
                ok (record { filled_values = values; committed = total; stops = stops }),
                record run { store = m' },
              )
            ]
      ]

  run_as :
      Result String
      → Context
      → EnrichmentRequest F
      → Plan F
      → RunState F W
      → Result (Outcome F) × RunState F W
  unfolding fill_fields report attributed
  run_as (err x) ctx req plan run = (err x, run)
  run_as (ok tenant) ctx req plan run =
      let ctx' = attributed ctx req in
      let (stops, run') = fill_fields ctx' tenant req plan plan.order [] run in
      report ctx' req stops run'

  -- `Run`.
  unfoldable pub run_plan :
      Context → EnrichmentRequest F → Plan F → RunState F W → Result (Outcome F) × RunState F W
  unfolding run_as
  run_plan ctx req plan run = run_as (tenant_id ctx) ctx req plan run
