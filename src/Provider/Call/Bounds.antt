-- ===== src/Provider/Call/Bounds.antt =====
-- Gate G3 of internal/provider/call.go: how often a call contacts the vendor.
use waterfall.Prelude.{
  ℕ, zero, suc, ◌+◌, ◌-◌, ◌≤◌, ◌≡◌, refl, ap, ◌⊎◌, inl, inr, Bool, true, false, Option, none, some,
  arith, if◌then◌else◌,
}
use waterfall.Domain.Errors.{ErrorClass, GoError, breaker_open, Result, ok, err, provider_down}
use waterfall.Domain.Values.{Values}
use waterfall.Tenant.{Context}
use waterfall.Provider.Env.{Env, CallPolicy, Request, Adapter}
use waterfall.Provider.Breaker.{Breaker, allow}
use waterfall.Provider.Call.{
  CallState, Round, returned, again, attempt_cap, allow_option, retry_or_stop, after_fetch,
  after_allow, round, call_loop, call, prov_err,
}

Round-cases :
    {C : Type 0} (r : Round C)
    → ((res : Result (Values C)) × (r ≡ returned res)) ⊎ ((e : GoError) × (r ≡ again e))
Round-cases (returned res) = inl (res, refl)
Round-cases (again e) = inr (e, refl)

module _ {C W : Type 0} (env : Env W) (ctx : Context) (a : Adapter C W) (req : Request)
    (pol : CallPolicy) where
  retry_or_stop-attempts :
      (attempt : ℕ) (class : ErrorClass) (last : GoError) (s : CallState W)
      → (retry_or_stop env ctx a req pol attempt class last s).1.attempts ≡ s.attempts
  unfolding retry_or_stop
  retry_or_stop-attempts attempt class last s = ground arith

  after_fetch-attempts :
      (attempt : ℕ) (s : CallState W) (r : Result (Values C))
      → (after_fetch env ctx a req pol attempt s r).1.attempts ≡ s.attempts
  unfolding after_fetch
  after_fetch-attempts attempt s (ok res) = refl
  after_fetch-attempts attempt s (err e) = retry_or_stop-attempts attempt _ _ _

  after_allow-attempts :
      (attempt : ℕ) (s : CallState W) (allowed : Bool)
      → (after_allow env ctx a req pol attempt s allowed).1.attempts
        ≡ (if allowed then s.attempts + 1 else s.attempts)
  unfolding after_allow
  after_allow-attempts attempt s false = refl
  after_allow-attempts attempt s true = after_fetch-attempts attempt _ _

  round-attempts :
      (attempt : ℕ) (s : CallState W)
      → (round env ctx a req pol attempt s).1.attempts ≤ s.attempts + 1
  unfolding round
  round-attempts attempt s = ground (
    arith,
    after_allow-attempts attempt
        (record s {
          breaker = (allow_option env s.breaker s.world).1;
          world = (allow_option env s.breaker s.world).2;
        })
        (allow_option env s.breaker s.world).0,
  )

  call_loop-attempts :
      (n attempt : ℕ) (last : Option GoError) (s : CallState W)
      → (call_loop env ctx a req pol n attempt last s).1.attempts ≤ s.attempts + n
  unfolding call_loop
  call_loop-attempts zero attempt last s = omega arith
  call_loop-attempts (suc n) attempt last s =
      elim (Round-cases (round env ctx a req pol attempt s).0) [
        | inl (res, q) ↦ rw (q, call_loop) (omega (arith, round-attempts attempt s))
        | inr (e, q) ↦
            rw (q, call_loop)
              (omega (
                arith,
                round-attempts attempt s,
                call_loop-attempts n (attempt + 1) (some e) (round env ctx a req pol attempt s).1,
              ))
      ]

  -- One call contacts the vendor at most as often as the policy allows, and at most once where the
  -- policy names no number above 0.
  pub attempts_bounded :
      (s : CallState W) → (call env ctx a req pol s).1.attempts ≤ s.attempts + attempt_cap pol
  unfolding call
  attempts_bounded s = call_loop-attempts (attempt_cap pol) 1 none s

  cap_positive : (n : ℕ) × (attempt_cap pol ≡ suc n)
  cap_positive = (attempt_cap pol - 1, ground arith)

  abbrev pub rejected : CallState W → Breaker → CallState W
  rejected s b = record s {
    breaker = some (allow env b s.world).1;
    sentinel = (prov_err a.name provider_down breaker_open s.sentinel).1;
    world = (allow env b s.world).2;
  }

  round-rejected :
      (attempt : ℕ) (s : CallState W) (b : Breaker)
      → s.breaker ≡ some b
      → (allow env b s.world).0 ≡ false
      → round env ctx a req pol attempt s
        ≡ (returned (err (prov_err a.name provider_down breaker_open s.sentinel).0), rejected s b)
  unfolding round after_allow allow_option
  round-rejected attempt s b has no_entry = rw (has, no_entry)

  -- One round of the loop, by what the round ended in.
  module _ (n attempt : ℕ) (last : Option GoError) (s s' : CallState W) where
    abbrev go_on : Round C × CallState W → Result (Values C) × CallState W
    go_on p = elim p.0 as (λ r. Result (Values C) × CallState W) [
      | returned res ↦ (res, p.1)
      | again e ↦ call_loop env ctx a req pol n (attempt + 1) (some e) p.1
    ]

    call_loop-returned :
        (res : Result (Values C))
        → round env ctx a req pol attempt s ≡ (returned res, s')
        → call_loop env ctx a req pol (suc n) attempt last s ≡ (res, s')
    unfolding call_loop
    call_loop-returned res h = ap go_on h

    call_loop-again :
        (e : GoError)
        → round env ctx a req pol attempt s ≡ (again e, s')
        → call_loop env ctx a req pol (suc n) attempt last s
          ≡ call_loop env ctx a req pol n (attempt + 1) (some e) s'
    unfolding call_loop
    call_loop-again e h = ap go_on h

  pub call-rejected :
      (s : CallState W) (b : Breaker)
      → s.breaker ≡ some b
      → (allow env b s.world).0 ≡ false
      → call env ctx a req pol s
        ≡ (err (prov_err a.name provider_down breaker_open s.sentinel).0, rejected s b)
  unfolding call
  call-rejected s b has no_entry =
      let (n, cap) = cap_positive in
      rw cap (call_loop-returned n 1 none s (rejected s b) _ (round-rejected 1 s b has no_entry))
