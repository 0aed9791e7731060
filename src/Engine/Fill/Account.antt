-- ===== src/Engine/Fill/Account.antt =====
-- The spend of a job over the loop of `fillField` (gate G4): within the ceiling, and accounted for
-- by the values reported as filled.
use waterfall.Prelude.{
  ℤ, pos, ◌+ℤ◌, ◌≤ℤ◌, IsInt64, int_laws, one_part, balance_trans, ◌≡◌, refl, sym, ◌⊎◌, inl, inr,
  String, Option, none, some, List, [], ◌∷◌, get, All, Bool-cases, Option-cases, arith,
}
use waterfall.Domain.Errors.{Result-cases, ok}
use waterfall.Domain.Fields.{Field, Credits, Float}
use waterfall.Domain.Values.{Values}
use waterfall.Domain.Requests.{EnrichmentRequest, Strings, idempotency_key}
use waterfall.Tenant.{Context, tenant_id}
use waterfall.Store.Memory.{lookup, reserve, committed_of}
use waterfall.Store.Ceiling.{reserve_exact}
use waterfall.Store.Spend.{lookup-same}
use waterfall.Provider.Env.{Env, Adapter}
use waterfall.Router.Types.{Step}
use waterfall.Engine.Fuse.{met, best_confidence}
use waterfall.Engine.Types.{Engine, Fill, RunState}
use waterfall.Engine.Fill.{
  integrate, paid_call, after_reserve, after_lookup, with_adapter, fill_step, fill_steps,
  fill_field,
}
use waterfall.Engine.Fill.Cost.{
  billed, paid_call-Settled, integrate_found-Settled, integrate-some, integrate-none,
}

module _ {C W : Type 0} (tenant job : String) (cap : Credits) where
  -- The spend of the job.
  abbrev pub spend_of : RunState C W → ℤ
  spend_of run = committed_of run.store tenant job

  pub record IsWithin (run : RunState C W) : Type 0 where
    pub nonneg : pos 0 ≤ℤ spend_of run
    pub capped : spend_of run ≤ℤ cap

  -- From `a` to `b` the spend grows by what is billed.
  abbrev pub Balanced : RunState C W → RunState C W → Type 0
  Balanced a b = spend_of b +ℤ billed a.events ≡ spend_of a +ℤ billed b.events

  pub Balanced-refl : (a : RunState C W) → Balanced a a
  Balanced-refl a = refl

  pub Balanced-trans : (a b c : RunState C W) → Balanced a b → Balanced b c → Balanced a c
  Balanced-trans a b c h k =
      balance_trans (spend_of a) (spend_of b) (spend_of c) (billed a.events) (billed b.events)
        (billed c.events) h k

-- A ceiling that is not negative, and costs that it can be added to within `int64`.
abbrev pub IsCap : Credits → Type 0
IsCap cap = (pos 0 ≤ℤ cap) × (IsInt64 cap)

abbrev pub IsPriced : {C : Type 0} → Credits → Step C → Type 0
IsPriced cap step = (pos 0 ≤ℤ step.cost) × (IsInt64 (step.cost +ℤ cap))

fits_under :
    (base cost cap : ℤ)
    → pos 0 ≤ℤ base
    → base ≤ℤ cap
    → pos 0 ≤ℤ cost
    → IsInt64 (cost +ℤ cap)
    → IsInt64 (base +ℤ cost)
fits_under base cost cap h k p f = omega (int_laws, one_part)

small_under : (base cap : ℤ) → pos 0 ≤ℤ base → base ≤ℤ cap → IsInt64 cap → IsInt64 base
small_under base cap h k f = omega (int_laws, one_part)

add_nil : (base : ℤ) → base +ℤ pos 0 ≡ base
add_nil base = omega int_laws

sum_nonneg : (base cost : ℤ) → pos 0 ≤ℤ base → pos 0 ≤ℤ cost → pos 0 ≤ℤ (base +ℤ cost)
sum_nonneg base cost h k = omega int_laws

module _ {W : Type 0} (fl : Float) (env : Env W) (s : Strings) (e : Engine fl.F W) (ctx : Context)
    (tenant : String) (req : EnrichmentRequest fl.F) (field : Field)
    (as_tenant : tenant_id ctx ≡ ok tenant) (cap : IsCap req.cost_ceiling) where
  -- The state after a turn is within the ceiling, and balanced with the state before it.
  abbrev pub Account : RunState fl.F W → RunState fl.F W → Type 0
  Account a b =
      IsWithin tenant req.job_id req.cost_ceiling b
      × Balanced tenant req.job_id req.cost_ceiling a b

  -- How a settled reservation stands to the state before it.
  settled-Account :
      (cost : Credits) (a b : RunState fl.F W)
      → IsWithin tenant req.job_id req.cost_ceiling a
      → committed_of a.store tenant req.job_id +ℤ cost ≤ℤ req.cost_ceiling
      → pos 0 ≤ℤ cost
      → ((committed_of b.store tenant req.job_id ≡ committed_of a.store tenant req.job_id)
          × (billed b.events ≡ billed a.events))
        ⊎ ((committed_of b.store tenant req.job_id ≡ committed_of a.store tenant req.job_id +ℤ cost)
            × (billed b.events ≡ billed a.events +ℤ cost))
      → Account a b
  settled-Account cost a b within le priced (inl (h, k)) =
      (record { nonneg = rw h within.nonneg; capped = rw h within.capped }, rw (h, k))
  settled-Account cost a b within le priced (inr (h, k)) = (
    record { nonneg = rw h (sum_nonneg _ cost within.nonneg priced); capped = rw h le },
    rw (h, k) (omega int_laws),
  )

  after_reserve-Account :
      (step : Step fl.F) (a : Adapter fl.F W) (key : String) (f : Fill fl.F W)
      → IsPriced req.cost_ceiling step
      → IsWithin tenant req.job_id req.cost_ceiling f.run
      → let out = reserve ctx req.job_id step.cost req.cost_ceiling f.run.store in
        Account f.run
          (after_reserve fl env s e ctx tenant req field step a key out.0
            (record f { run = record f.run { store = out.1 } })).1.run
  unfolding after_reserve
  after_reserve-Account step a key f priced within =
      let m = f.run.store in
      let base = committed_of m tenant req.job_id in
      let fits : IsInt64 (base +ℤ step.cost) =
        fits_under base step.cost req.cost_ceiling within.nonneg within.capped priced.0 priced.1 in
      let range : (pos 0 ≤ℤ base) × (pos 0 ≤ℤ step.cost) × IsInt64 base = (
        within.nonneg,
        priced.0,
        small_under base req.cost_ceiling within.nonneg within.capped cap.1,
      ) in
      elim (reserve_exact m tenant req.job_id step.cost req.cost_ceiling ctx as_tenant fits) [
        | inl (le, r, total) ↦ rw r (
            settled-Account step.cost f.run
              (paid_call fl env s e ctx tenant req field step a key (record f {
                run = record f.run {
                  store = (reserve ctx req.job_id step.cost req.cost_ceiling m).1;
                };
              })).1.run
              within le priced.0
              (paid_call-Settled fl env s e ctx tenant req field as_tenant base
                (billed f.run.events) step.cost range step a key
                (record f {
                  run = record f.run {
                    store = (reserve ctx req.job_id step.cost req.cost_ceiling m).1;
                  };
                })
                refl (total, refl)))
        | inr (above, r, same) ↦ rw (r, same) (within, refl)
      ]

  -- A value that is used again is integrated at no cost.
  reused-Account :
      (provider key : String) (res : Values fl.F) (f : Fill fl.F W)
      → IsWithin tenant req.job_id req.cost_ceiling f.run
      → Account f.run (integrate fl env s e ctx tenant req field provider res key (pos 0) f).1.run
  reused-Account provider key res f within = elim (Option-cases (get res field)) [
    | inl q ↦
        rw (integrate-none fl env s e ctx tenant req field as_tenant provider key (pos 0) f res q)
          (within, refl)
    | inr (obs, q) ↦
        let base = committed_of f.run.store tenant req.job_id in
        let range : (pos 0 ≤ℤ base) × (pos 0 ≤ℤ pos 0) × IsInt64 base = (
          within.nonneg,
          omega arith,
          small_under base req.cost_ceiling within.nonneg within.capped cap.1,
        ) in
        rw
          (integrate-some fl env s e ctx tenant req field as_tenant provider key (pos 0) f res obs
            q)
          (settled-Account (pos 0) f.run _ within (omega (int_laws, within.capped)) (omega arith) (
            integrate_found-Settled fl env s e ctx tenant req field as_tenant base
              (billed f.run.events) (pos 0) range provider key obs f (sym (add_nil base), refl)))
  ]

  with_adapter-Account :
      (step : Step fl.F) (o : Option (Adapter fl.F W)) (f : Fill fl.F W)
      → IsPriced req.cost_ceiling step
      → IsWithin tenant req.job_id req.cost_ceiling f.run
      → Account f.run (with_adapter fl env s e ctx tenant req field step o f).1.run
  unfolding with_adapter after_lookup
  with_adapter-Account step none f priced within = (within, refl)
  with_adapter-Account step (some a) f priced within =
      let key = idempotency_key s req tenant field step.provider in
      let same = lookup-same ctx f.run.store key in
      elim (Result-cases (lookup ctx key f.run.store).0) [
        | inl (x, q) ↦ rw (q, same) (within, refl)
        | inr (some res, q) ↦ rw (q, same) (reused-Account step.provider key res f within)
        | inr (none, q) ↦ rw (q, same) (after_reserve-Account step a key f priced within)
      ]

  fill_step-Account :
      (step : Step fl.F) (f : Fill fl.F W)
      → IsPriced req.cost_ceiling step
      → IsWithin tenant req.job_id req.cost_ceiling f.run
      → Account f.run (fill_step fl env s e ctx tenant req field step f).1.run
  unfolding fill_step
  fill_step-Account step f priced within =
      with_adapter-Account step (get e.adapters step.provider) f priced within

  fill_steps-Account :
      (steps : List (Step fl.F)) (f : Fill fl.F W)
      → All (IsPriced req.cost_ceiling) steps
      → IsWithin tenant req.job_id req.cost_ceiling f.run
      → Account f.run (fill_steps fl env s e ctx tenant req field steps f).1.run
  unfolding fill_steps
  fill_steps-Account [] f priced within = (within, refl)
  fill_steps-Account (step ∷ rest) f priced within =
      let f' = (fill_step fl env s e ctx tenant req field step f).1 in
      let now = fill_step-Account step f priced.0 within in
      let later = fill_steps-Account rest f' priced.1 now.0 in
      elim (Bool-cases (met fl (best_confidence fl f.values) req.confidence_target)) [
        | inl t ↦ rw (t, fill_steps) (within, refl)
        | inr t ↦ elim (Result-cases (fill_step fl env s e ctx tenant req field step f).0) [
          | inl (x, q) ↦ rw (t, q, fill_steps) now
          | inr (u, q) ↦
              rw (t, q, fill_steps)
                (
                  later.0,
                  Balanced-trans tenant req.job_id req.cost_ceiling f.run f'.run
                      (fill_steps fl env s e ctx tenant req field rest f').1.run now.1 later.1,
                )
        ]
      ]

  pub fill_field-Account :
      (steps : List (Step fl.F)) (run : RunState fl.F W)
      → All (IsPriced req.cost_ceiling) steps
      → IsWithin tenant req.job_id req.cost_ceiling run
      → Account run (fill_field fl env s e ctx tenant req field steps run).1
  unfolding fill_field
  fill_field-Account steps run priced within = fill_steps-Account steps _ priced within
