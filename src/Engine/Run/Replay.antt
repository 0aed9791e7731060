-- ===== src/Engine/Run/Replay.antt =====
-- A whole run of results on record (gate G2).
use waterfall.Prelude.{◌≡◌, ◌∙◌, String, List, [], ◌∷◌, inl, inr, Dict, get, put, or_else, All}
use waterfall.Domain.Errors.{Result-cases, ok}
use waterfall.Domain.Fields.{Field, Float}
use waterfall.Domain.Requests.{EnrichmentRequest, Strings}
use waterfall.Tenant.{Context, tenant_id}
use waterfall.Provider.Env.{Env}
use waterfall.Router.Types.{Plan}
use waterfall.Engine.Types.{StopReason, Engine, RunState}
use waterfall.Engine.Fill.{fill_field}
use waterfall.Engine.Fill.Replay.{
  IsReplay, IsReplay-refl, IsReplay-trans, OnRecord, OnRecord-later, fill_field-IsReplay,
}
use waterfall.Engine.Run.{fill_fields, attributed, run_as, run_plan}
use waterfall.Engine.Run.Keeps.{tenant_id-attributed}
use waterfall.Engine.Run.Cost.{report-same}

module _ {W : Type 0} (fl : Float) (env : Env W) (s : Strings) (e : Engine fl.F W)
    (req : EnrichmentRequest fl.F) (plan : Plan fl.F) (tenant : String) where
  -- The results of all planned calls for the fields are on record.
  abbrev pub AllOnRecord : RunState fl.F W → List Field → Type 0
  AllOnRecord run [] = Unit
  AllOnRecord run (field ∷ rest) =
      All (OnRecord s tenant req field run) (or_else [] (get plan.by_field field))
      × AllOnRecord run rest

  AllOnRecord-later :
      (a b : RunState fl.F W) (fields : List Field)
      → IsReplay a b
      → AllOnRecord a fields
      → AllOnRecord b fields
  AllOnRecord-later a b [] h r = tt
  AllOnRecord-later a b (field ∷ rest) h (now, r) = (
    OnRecord-later s tenant req field a b (or_else [] (get plan.by_field field)) h now,
    AllOnRecord-later a b rest h r,
  )

  fill_fields-IsReplay :
      (ctx : Context)
      → tenant_id ctx ≡ ok tenant
      → (fields : List Field) (stops : Dict StopReason) (run : RunState fl.F W)
      → AllOnRecord run fields
      → IsReplay run (fill_fields fl env s e ctx tenant req plan fields stops run).1
  unfolding fill_fields
  fill_fields-IsReplay ctx p [] stops run r = IsReplay-refl run
  fill_fields-IsReplay ctx p (field ∷ rest) stops run (first, r) =
      let steps = or_else [] (get plan.by_field field) in
      let run' = (fill_field fl env s e ctx tenant req field steps run).1 in
      let now = fill_field-IsReplay fl env s e ctx tenant req field p steps run first in
      elim (Result-cases (fill_field fl env s e ctx tenant req field steps run).0) [
        | inl (x, q) ↦ rw (q, fill_fields) now
        | inr (reason, q) ↦
            rw (q, fill_fields)
              (IsReplay-trans run run' _ now (
                fill_fields-IsReplay ctx p rest (put stops field reason) run'
                  (AllOnRecord-later run run' rest now r)))
      ]

  -- A run whose planned calls are all on record contacts no vendor: it makes no fetch, consults no
  -- breaker, and leaves the cost ledger and the idempotency ledger of every tenant as they were.
  pub run_plan-IsReplay :
      (ctx : Context) (run : RunState fl.F W)
      → tenant_id ctx ≡ ok tenant
      → AllOnRecord run plan.order
      → IsReplay run (run_plan fl env s e ctx req plan run).1
  unfolding run_plan run_as
  run_plan-IsReplay ctx run p r =
      let ctx' = attributed fl env s e ctx req in
      let stops = (fill_fields fl env s e ctx' tenant req plan plan.order [] run).0 in
      let run' = (fill_fields fl env s e ctx' tenant req plan plan.order [] run).1 in
      rw (p, report-same fl env s e req ctx' stops run')
        (fill_fields-IsReplay ctx' (tenant_id-attributed fl env s e req ctx ∙ p) plan.order [] run
          r)
