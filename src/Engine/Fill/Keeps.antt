-- ===== src/Engine/Fill/Keeps.antt =====
-- The engine changes the store by its methods alone: what every method keeps, a run keeps.
use waterfall.Prelude.{
  Option, none, some, List, [], ◌∷◌, get, pos, Bool-cases, inl, inr, Option-cases, String,
}
use waterfall.Domain.Errors.{Result-cases, Result, ok, err, ceiling_exceeded}
use waterfall.Domain.Fields.{Field, Credits, Float}
use waterfall.Domain.Values.{Values, Observation}
use waterfall.Domain.Requests.{EnrichmentRequest, Strings, idempotency_key}
use waterfall.Tenant.{Context}
use waterfall.Store.Memory.{Memory}
use waterfall.Store.Isolation.{
  Operation, perform, op_lookup, op_record, op_reserve, op_release, op_append,
}
use waterfall.Provider.Env.{Env, Adapter}
use waterfall.Router.Types.{Step}
use waterfall.Engine.Fuse.{met, best_confidence}
use waterfall.Engine.Types.{Engine, Fill, RunState}
use waterfall.Engine.Fill.{
  integrate, integrate_found, integrate_option, refund, bill, after_call, paid_call, spend,
  after_reserve, after_lookup, with_adapter, fill_step, fill_steps, fill_field,
}

module _ {W : Type 0} (fl : Float) (env : Env W) (s : Strings) (e : Engine fl.F W) (ctx : Context)
    (tenant : String) (req : EnrichmentRequest fl.F) (field : Field) {P : Memory fl.F → Type 0}
    (keeps : (op : Operation fl.F) (m : Memory fl.F) → P m → P (perform fl.lt ctx op m).1) where
  module _ (provider : String) (key : String) (cost : Credits) (f : Fill fl.F W) where
    integrate_found-keeps :
        (obs : Observation fl.F)
        → P f.run.store
        → P (integrate_found fl env s e ctx tenant req field provider obs key cost f).1.run.store
    unfolding integrate_found perform
    integrate_found-keeps obs h = keeps (op_append req.subject.id _) f.run.store h

    integrate_option-keeps :
        (o : Option (Observation fl.F))
        → P f.run.store
        → P (integrate_option fl env s e ctx tenant req field provider o key cost f).1.run.store
    unfolding integrate_option
    integrate_option-keeps none h = h
    integrate_option-keeps (some obs) h = integrate_found-keeps obs h

    integrate-keeps :
        (res : Values fl.F)
        → P f.run.store
        → P (integrate fl env s e ctx tenant req field provider res key cost f).1.run.store
    unfolding integrate
    integrate-keeps res h = integrate_option-keeps (get res field) h

  refund-keeps :
      (cost : Credits) (f : Fill fl.F W)
      → P f.run.store
      → P (refund fl env s e ctx tenant req field cost f).1.run.store
  unfolding refund perform
  refund-keeps cost f h = keeps (op_release req.job_id cost) f.run.store h

  module _ (step : Step fl.F) (key : String) where
    bill-keeps :
        (res : Values fl.F) (f : Fill fl.F W) (r : Result (Unit {0}))
        → P f.run.store
        → P (bill fl env s e ctx tenant req field step key res f r).1.run.store
    unfolding bill
    bill-keeps res f (err x) h = h
    bill-keeps res f (ok _) h = elim (Option-cases (get res field)) [
      | inl q ↦ rw (q, bill) (refund-keeps step.cost f h)
      | inr (obs, q) ↦ rw (q, bill) (integrate-keeps step.provider key step.cost f res h)
    ]

    after_call-keeps :
        (r : Result (Values fl.F)) (f : Fill fl.F W)
        → P f.run.store
        → P (after_call fl env s e ctx tenant req field step key r f).1.run.store
    unfolding after_call perform
    after_call-keeps (err x) f h = refund-keeps step.cost f h
    after_call-keeps (ok res) f h = bill-keeps res _ _ (keeps (op_record key res) f.run.store h)

    module _ (a : Adapter fl.F W) where
      after_reserve-keeps :
          (r : Result Credits) (f : Fill fl.F W)
          → P f.run.store
          → P (after_reserve fl env s e ctx tenant req field step a key r f).1.run.store
      unfolding after_reserve paid_call spend
      after_reserve-keeps (ok total) f h = after_call-keeps _ _ h
      after_reserve-keeps (err ceiling_exceeded) f h = h
      after_reserve-keeps (err x) f h = h

      after_lookup-keeps :
          (r : Result (Option (Values fl.F))) (f : Fill fl.F W)
          → P f.run.store
          → P (after_lookup fl env s e ctx tenant req field step a key r f).1.run.store
      unfolding after_lookup perform
      after_lookup-keeps (err x) f h = h
      after_lookup-keeps (ok (some res)) f h = integrate-keeps step.provider key (pos 0) f res h
      after_lookup-keeps (ok none) f h =
          after_reserve-keeps _ _
            (keeps (op_reserve req.job_id step.cost req.cost_ceiling) f.run.store h)

  with_adapter-keeps :
      (step : Step fl.F) (o : Option (Adapter fl.F W)) (f : Fill fl.F W)
      → P f.run.store
      → P (with_adapter fl env s e ctx tenant req field step o f).1.run.store
  unfolding with_adapter perform
  with_adapter-keeps step none f h = h
  with_adapter-keeps step (some a) f h =
      let key = idempotency_key s req tenant field step.provider in
      after_lookup-keeps step key a _ _ (keeps (op_lookup key) f.run.store h)

  fill_step-keeps :
      (step : Step fl.F) (f : Fill fl.F W)
      → P f.run.store
      → P (fill_step fl env s e ctx tenant req field step f).1.run.store
  unfolding fill_step
  fill_step-keeps step f h = with_adapter-keeps step (get e.adapters step.provider) f h

  fill_steps-keeps :
      (steps : List (Step fl.F)) (f : Fill fl.F W)
      → P f.run.store
      → P (fill_steps fl env s e ctx tenant req field steps f).1.run.store
  unfolding fill_steps
  fill_steps-keeps [] f h = h
  fill_steps-keeps (step ∷ rest) f h =
      elim (Bool-cases (met fl (best_confidence fl f.values) req.confidence_target)) [
        | inl t ↦ rw (t, fill_steps) h
        | inr t ↦ elim (Result-cases (fill_step fl env s e ctx tenant req field step f).0) [
          | inl (x, q) ↦ rw (t, q, fill_steps) (fill_step-keeps step f h)
          | inr (u, q) ↦ rw (t, q, fill_steps) (fill_steps-keeps rest _ (fill_step-keeps step f h))
        ]
      ]

  pub fill_field-keeps :
      (steps : List (Step fl.F)) (run : RunState fl.F W)
      → P run.store
      → P (fill_field fl env s e ctx tenant req field steps run).1.store
  unfolding fill_field
  fill_field-keeps steps run h = fill_steps-keeps steps _ h
