-- ===== src/Engine/Fill.antt =====
-- `fillField` and `integrate` of internal/engine/engine.go.
pub mod Keeps
pub mod Cost
pub mod Account
pub mod Replay
use waterfall.Prelude.{
  ◌+◌, pos, ltb_ℤ, String, Bool, true, false, Option, none, some, List, [], ◌∷◌, ◌++◌, Dict, get,
  put, or_else, if◌then◌else◌,
}
use waterfall.Domain.Errors.{GoError, Result, ok, err, ceiling_exceeded}
use waterfall.Domain.Fields.{Field, Credits, Float}
use waterfall.Domain.Values.{Values, Observation, FieldValue}
use waterfall.Domain.Requests.{EnrichmentRequest, Strings, idempotency_key}
use waterfall.Tenant.{Context}
use waterfall.Store.Memory.{lookup, record_result, reserve, release, append}
use waterfall.Provider.Env.{Env, CallPolicy, Request, Adapter}
use waterfall.Provider.Breaker.{Breaker}
use waterfall.Provider.Call.{call}
use waterfall.Router.Types.{Step}
use waterfall.Engine.Fuse.{fuse_agreeing, met, best_confidence}
use waterfall.Engine.Types.{
  StopReason, target_met, exhausted, ceiling, no_target, called, learned, filled, Engine, RunState,
  Fill,
}

module _ {W : Type 0} (fl : Float) (env : Env W) (s : Strings) (e : Engine fl.F W) where
  open fl use {F, float_zero, lt, le}

  override_of : Option CallPolicy → CallPolicy
  override_of none = e.policy
  override_of (some p) = if ltb_ℤ (pos 0) p.timeout then p else e.policy

  -- `policyFor`.
  unfoldable pub policy_for : Adapter F W → CallPolicy
  unfolding override_of
  policy_for a = override_of a.call_policy

  calibrated : Option (String → Field → F → F) → String → Field → F → F
  calibrated none provider field c = c
  calibrated (some f) provider field c = f provider field c

  module _ (ctx : Context) (tenant : String) (req : EnrichmentRequest F) (field : Field) where
    -- `integrate`, for the observation that the result holds.
    pub integrate_found :
        String → Observation F → String → Credits → Fill F W → Result (Unit {0}) × Fill F W
    unfolding calibrated
    integrate_found provider obs key cost f =
        let old = or_else float_zero (get f.values obs.value) in
        let fused = fuse_agreeing fl old (calibrated e.calibrator provider field obs.confidence) in
        let (t, w) = env.now f.run.world in
        let fv : FieldValue F = record {
          field = field;
          value = obs.value;
          confidence = fused;
          prov = record {
            provider = provider;
            observed_at = t;
            cost_credits = cost;
            confidence = obs.confidence;
            idempotency_key = key;
          };
        } in
        let (r, m) = append ctx req.subject.id fv f.run.store in
        (
          r,
          record f {
            values = put f.values obs.value fused;
            run = record f.run {
              store = m;
              world = w;
              events = f.run.events ++ filled field provider cost ∷ [];
            };
          },
        )

    pub integrate_option :
        String → Option (Observation F) → String → Credits → Fill F W → Result (Unit {0}) × Fill F W
    unfolding integrate_found
    integrate_option provider none key cost f = (ok tt, f)
    integrate_option provider (some obs) key cost f = integrate_found provider obs key cost f

    -- `integrate`.
    unfoldable pub integrate :
        String → Values F → String → Credits → Fill F W → Result (Unit {0}) × Fill F W
    unfolding integrate_option
    integrate provider res key cost f = integrate_option provider (get res field) key cost f

    -- `Release` of a reservation that bought nothing.
    pub refund : Credits → Fill F W → Result (Unit {0}) × Fill F W
    refund cost f =
        let (r, m) = release ctx req.job_id cost f.run.store in
        (r, record f { run = record f.run { store = m } })

    -- After `Record`: a result without the field is refunded.
    pub bill :
        Step F → String → Values F → Fill F W → Result (Unit {0}) → Result (Unit {0}) × Fill F W
    unfolding integrate refund
    bill step key res f (err x) = (err x, f)
    bill step key res f (ok _) = elim (get res field) [
      | none ↦ refund step.cost f
      | some obs ↦ integrate step.provider res key step.cost f
    ]

    -- After the call: a failed call is refunded, a result is recorded under its key.
    pub after_call : Step F → String → Result (Values F) → Fill F W → Result (Unit {0}) × Fill F W
    unfolding bill refund
    after_call step key (err x) f = refund step.cost f
    after_call step key (ok res) f =
        let (r, m) = record_result ctx key res f.run.store in
        bill step key res (record f { run = record f.run { store = m } }) r

    has_field : Result (Values F) → Bool
    has_field (err x) = false
    has_field (ok res) = elim (get res field) [ none ↦ false | some obs ↦ true ]

    error_of : Result (Values F) → Option GoError
    error_of (err x) = some x
    error_of (ok res) = none

    put_breaker : String → Option Breaker → Dict Breaker → Dict Breaker
    put_breaker provider none bs = bs
    put_breaker provider (some b) bs = put bs provider b

    -- The bounded call (G3) and its reports.
    pub spend : Step F → Adapter F W → String → Fill F W → Result (Values F) × Fill F W
    unfolding has_field error_of put_breaker policy_for
    spend step a key f =
        let (start, w) = env.now f.run.world in
        let ask : Request = record {
          known = req.subject.known;
          fields = field ∷ [];
          idempotency_key = key;
        } in
        let (res, c) = call env ctx a ask (policy_for a) (record {
          breaker = get f.run.breakers step.provider;
          attempts = 0;
          sentinel = f.run.sentinel;
          world = w;
        }) in
        let (end, w') = env.now c.world in
        (
          res,
          record f {
            run = record f.run {
              breakers = put_breaker step.provider c.breaker f.run.breakers;
              sentinel = c.sentinel;
              world = w';
              fetches = f.run.fetches + c.attempts;
              events =
                  f.run.events
                  ++ called step.provider field (error_of res) (has_field res)
                    ∷ learned step.provider field (has_field res)
                    ∷ [];
            };
          },
        )

    pub paid_call : Step F → Adapter F W → String → Fill F W → Result (Unit {0}) × Fill F W
    unfolding after_call spend
    paid_call step a key f = let (res, f') = spend step a key f in after_call step key res f'

    -- After `Reserve`: past the ceiling the provider is skipped.
    pub after_reserve :
        Step F → Adapter F W → String → Result Credits → Fill F W → Result (Unit {0}) × Fill F W
    unfolding paid_call
    after_reserve step a key (ok total) f = paid_call step a key f
    after_reserve step a key (err ceiling_exceeded) f = (ok tt, record f { hit_ceiling = true })
    after_reserve step a key (err x) f = (err x, f)

    -- After `Lookup`: a recorded result is used again at no cost (G2).
    pub after_lookup :
        Step F
        → Adapter F W
        → String
        → Result (Option (Values F))
        → Fill F W
        → Result (Unit {0}) × Fill F W
    unfolding after_reserve integrate
    after_lookup step a key (err x) f = (err x, f)
    after_lookup step a key (ok (some res)) f = integrate step.provider res key (pos 0) f
    after_lookup step a key (ok none) f =
        let (r, m) = reserve ctx req.job_id step.cost req.cost_ceiling f.run.store in
        after_reserve step a key r (record f { run = record f.run { store = m } })

    pub with_adapter : Step F → Option (Adapter F W) → Fill F W → Result (Unit {0}) × Fill F W
    unfolding after_lookup
    with_adapter step none f = (ok tt, f)
    with_adapter step (some a) f =
        let key = idempotency_key s req tenant field step.provider in
        let (r, m) = lookup ctx key f.run.store in
        after_lookup step a key r (record f { run = record f.run { store = m } })

    -- One turn of the loop of `fillField`; a nil error is `ok tt`.
    unfoldable pub fill_step : Step F → Fill F W → Result (Unit {0}) × Fill F W
    unfolding with_adapter
    fill_step step f = with_adapter step (get e.adapters step.provider) f

    pub stop_reason : Fill F W → StopReason
    stop_reason f =
        if met fl (best_confidence fl f.values) req.confidence_target
        then target_met
        else if le req.confidence_target float_zero
        then no_target
        else if f.hit_ceiling
        then ceiling
        else exhausted

    pub fill_steps : List (Step F) → Fill F W → Result StopReason × Fill F W
    unfolding stop_reason
    fill_steps [] f = (ok (stop_reason f), f)
    fill_steps (step ∷ rest) f = elim (met fl (best_confidence fl f.values) req.confidence_target) [
      | true ↦ (ok target_met, f)
      | false ↦
          let (r, f') = fill_step step f in
          elim r [ ok _ ↦ fill_steps rest f' | err x ↦ (err x, f') ]
    ]

    -- `fillField`.
    unfoldable pub fill_field : List (Step F) → RunState F W → Result StopReason × RunState F W
    unfolding fill_steps
    fill_field steps run =
        let (r, f) = fill_steps steps (record { values = []; hit_ceiling = false; run = run }) in
        (r, f.run)
