-- ===== src/Engine/Gates.antt =====
-- What `Run` of internal/engine/engine.go leaves as it was: the data of other tenants (G1), the
-- results on record (G2), and the validity of every observation (G5).
use waterfall.Prelude.{◌≡◌, ◌≢◌, sym, ◌∙◌, String}
use waterfall.Domain.Errors.{ok}
use waterfall.Domain.Fields.{Float}
use waterfall.Domain.Values.{Values}
use waterfall.Domain.Requests.{EnrichmentRequest, Strings}
use waterfall.Tenant.{Context, tenant_id}
use waterfall.Store.Isolation.{
  Operation, perform, IsSame, IsSame-refl, IsSame-trans, perform-IsSame, reply-IsSame,
}
use waterfall.Store.Provenance.{IsProven, perform-IsProven}
use waterfall.Store.Recorded.{Recorded, perform-Recorded}
use waterfall.Provider.Env.{Env}
use waterfall.Router.Types.{Plan}
use waterfall.Engine.Types.{Engine, RunState}
use waterfall.Engine.Run.{run_plan}
use waterfall.Engine.Run.Keeps.{run_plan-keeps}

module _ {W : Type 0} (fl : Float) (env : Env W) (s : Strings) (e : Engine fl.F W)
    (req : EnrichmentRequest fl.F) (plan : Plan fl.F) (ctx : Context) (run : RunState fl.F W) where
  -- A run for one tenant changes no reply that another tenant can get from the store.
  pub run_plan-isolated :
      (viewer : Context) (t : String) (op : Operation fl.F)
      → tenant_id viewer ≡ ok t
      → tenant_id ctx ≢ ok t
      → (perform fl.lt viewer op (run_plan fl env s e ctx req plan run).1.store).0
        ≡ (perform fl.lt viewer op run.store).0
  run_plan-isolated viewer t op p h = sym (
      reply-IsSame fl.lt t viewer op run.store _ p (
        run_plan-keeps fl env s e req plan (IsSame fl.lt t run.store) ctx
          (λ c q. λ op' m same.
            IsSame-trans fl.lt t run.store m _ same
              (perform-IsSame fl.lt t c op' m (λ r. h (sym q ∙ r))))
          run (IsSame-refl fl.lt t run.store)))

  -- A result on record is still on record after any run, also one of its own tenant.
  pub run_plan-Recorded :
      (t key : String) (res : Values fl.F)
      → Recorded t key res run.store
      → Recorded t key res (run_plan fl env s e ctx req plan run).1.store
  run_plan-Recorded t key res =
      run_plan-keeps fl env s e req plan (Recorded t key res) ctx
        (λ c q. perform-Recorded fl.lt c t key res) run

  -- A run leaves every retained observation valid, on every path, the failing ones included.
  pub run_plan-IsProven :
      IsProven run.store → IsProven (run_plan fl env s e ctx req plan run).1.store
  run_plan-IsProven =
      run_plan-keeps fl env s e req plan IsProven ctx (λ c q. perform-IsProven fl.lt c) run
