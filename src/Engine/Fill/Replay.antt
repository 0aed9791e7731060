-- ===== src/Engine/Fill/Replay.antt =====
-- A replay of `fillField` (gate G2): what is on record is used again.
use waterfall.Prelude.{
  ◌≡◌, refl, ◌∙◌, ap, inl, inr, String, pos, Option, List, [], ◌∷◌, get, All, Bool-cases,
  Option-cases,
}
use waterfall.Domain.Errors.{Result-cases, ok}
use waterfall.Domain.Fields.{Field, Float}
use waterfall.Domain.Values.{Values}
use waterfall.Domain.Requests.{EnrichmentRequest, Strings, idempotency_key}
use waterfall.Tenant.{Context, tenant_id}
use waterfall.Store.Recorded.{Recorded}
use waterfall.Store.Spend.{lookup-same, lookup-found, committed-append, idempotency-append}
use waterfall.Provider.Env.{Env}
use waterfall.Router.Types.{Step}
use waterfall.Engine.Fuse.{met, best_confidence}
use waterfall.Engine.Types.{Engine, Fill, RunState}
use waterfall.Engine.Fill.{
  integrate, integrate_found, after_lookup, with_adapter, fill_step, fill_steps, fill_field,
}
use waterfall.Engine.Fill.Cost.{integrate-some, integrate-none}

-- No vendor was contacted, nothing was spent, and no result was put on record.
pub record IsReplay {C W : Type 0} (a b : RunState C W) : Type 0 where
  pub fetches : b.fetches ≡ a.fetches
  pub committed : b.store.committed ≡ a.store.committed
  pub idempotency : b.store.idempotency ≡ a.store.idempotency
  pub breakers : b.breakers ≡ a.breakers

pub IsReplay-refl : {C W : Type 0} (a : RunState C W) → IsReplay a a
IsReplay-refl a = record { fetches = refl; committed = refl; idempotency = refl; breakers = refl }

pub IsReplay-trans :
    {C W : Type 0} (a b c : RunState C W) → IsReplay a b → IsReplay b c → IsReplay a c
IsReplay-trans a b c h k = record {
  fetches = k.fetches ∙ h.fetches;
  committed = k.committed ∙ h.committed;
  idempotency = k.idempotency ∙ h.idempotency;
  breakers = k.breakers ∙ h.breakers;
}

module _ {C W : Type 0} (s : Strings) (tenant : String) (req : EnrichmentRequest C)
    (field : Field) where
  -- The result of a step's call is on record.
  abbrev pub OnRecord : RunState C W → Step C → Type 0
  OnRecord run step =
      (res : Values C) × Recorded tenant (idempotency_key s req tenant field step.provider) res
        run.store

  pub OnRecord-later :
      (a b : RunState C W) (steps : List (Step C))
      → IsReplay a b
      → All (OnRecord a) steps
      → All (OnRecord b) steps
  OnRecord-later a b [] h r = tt
  OnRecord-later a b (step ∷ rest) h ((res, on), r) =
      ((res, rw h.idempotency on), OnRecord-later a b rest h r)

module _ {W : Type 0} (fl : Float) (env : Env W) (s : Strings) (e : Engine fl.F W) (ctx : Context)
    (tenant : String) (req : EnrichmentRequest fl.F) (field : Field)
    (as_tenant : tenant_id ctx ≡ ok tenant) where
  reuse-IsReplay :
      (provider key : String) (res : Values fl.F) (f : Fill fl.F W)
      → IsReplay f.run (integrate fl env s e ctx tenant req field provider res key (pos 0) f).1.run
  reuse-IsReplay provider key res f = elim (Option-cases (get res field)) [
    | inl q ↦
        rw (integrate-none fl env s e ctx tenant req field as_tenant provider key (pos 0) f res q)
          (IsReplay-refl f.run)
    | inr (obs, q) ↦
        rw
          (integrate-some fl env s e ctx tenant req field as_tenant provider key (pos 0) f res obs
            q)
          (unfold integrate_found in
            record {
              fetches = refl;
              committed = committed-append ctx f.run.store req.subject.id _;
              idempotency = idempotency-append ctx f.run.store req.subject.id _;
              breakers = refl;
            })
  ]

  fill_step-IsReplay :
      (step : Step fl.F) (f : Fill fl.F W)
      → OnRecord s tenant req field f.run step
      → IsReplay f.run (fill_step fl env s e ctx tenant req field step f).1.run
  unfolding fill_step with_adapter after_lookup
  fill_step-IsReplay step f (res, on) = elim (Option-cases (get e.adapters step.provider)) [
    | inl q ↦ rw q (IsReplay-refl f.run)
    | inr (a, q) ↦
        let key = idempotency_key s req tenant field step.provider in
        let same = lookup-same ctx f.run.store key in
        let found =
          lookup-found ctx f.run.store tenant key as_tenant
          ∙ ap (λ (o : Option (Values fl.F)). ok o) on in
        rw (q, found, same) (reuse-IsReplay step.provider key res f)
  ]

  fill_steps-IsReplay :
      (steps : List (Step fl.F)) (f : Fill fl.F W)
      → All (OnRecord s tenant req field f.run) steps
      → IsReplay f.run (fill_steps fl env s e ctx tenant req field steps f).1.run
  unfolding fill_steps
  fill_steps-IsReplay [] f r = IsReplay-refl f.run
  fill_steps-IsReplay (step ∷ rest) f (first, r) =
      let f' = (fill_step fl env s e ctx tenant req field step f).1 in
      let now = fill_step-IsReplay step f first in
      let later =
        fill_steps-IsReplay rest f' (OnRecord-later s tenant req field f.run f'.run rest now r) in
      elim (Bool-cases (met fl (best_confidence fl f.values) req.confidence_target)) [
        | inl t ↦ rw (t, fill_steps) (IsReplay-refl f.run)
        | inr t ↦ elim (Result-cases (fill_step fl env s e ctx tenant req field step f).0) [
          | inl (x, q) ↦ rw (t, q, fill_steps) now
          | inr (u, q) ↦ rw (t, q, fill_steps) (IsReplay-trans f.run f'.run _ now later)
        ]
      ]

  pub fill_field-IsReplay :
      (steps : List (Step fl.F)) (run : RunState fl.F W)
      → All (OnRecord s tenant req field run) steps
      → IsReplay run (fill_field fl env s e ctx tenant req field steps run).1
  unfolding fill_field
  fill_field-IsReplay steps run r = fill_steps-IsReplay steps _ r
