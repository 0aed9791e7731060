-- ===== src/Examples/Calls.antt =====
-- The theorems on internal/provider, applied.
use waterfall.Prelude.{
  ℕ, ◌+◌, ◌≤◌, ◌≤ℤ◌, pos, refl, ap, ◌==◌, arith, ◌≡◌, ◌≢◌, ◌↔◌, inr, true, false, some, All,
}
use waterfall.Domain.Errors.{GoError, err}
use waterfall.Tenant.{background}
use waterfall.Provider.Breaker.{
  Breaker, closed, open_state, half_open, allow, rejecting, record_failure,
}
use waterfall.Provider.Breaker.Trips.{
  fail_times, trips_at_threshold, rejects_until_cooldown, allow_times, probes_unbounded,
}
use waterfall.Provider.Call.{CallState, call, attempt_cap, backoff_delay}
use waterfall.Provider.Call.Bounds.{attempts_bounded}
use waterfall.Provider.Call.Errors.{backoff_delay_bounds, provider_field, breaker_open_misnamed}
use waterfall.Examples.Data.{ticking, policy, answering, failing, ask, fresh_breaker}

abbrev open_breaker : Breaker
open_breaker = record fresh_breaker { state = open_state; opened_at = 5 }

abbrev shut : CallState ℕ
shut = record { breaker = some open_breaker; attempts = 0; sentinel = ""; world = 6 }

abbrev ready : CallState ℕ
ready = record shut { breaker = some fresh_breaker }

rejects_until_cooldown_example :
    let b = (record_failure ticking (record fresh_breaker { failures = 2 }) 4).0 in
    (((allow ticking b 6).0 ≡ true) ↔ ((ticking.now 4).0 + 10 ≤ (ticking.now 6).0))
    × (((allow ticking b 6).0 ≡ true) ↔ ((allow ticking b 6).1.state ≡ half_open))
    × ((allow ticking b 6).0 ≢ (rejecting ticking b 6).0)
rejects_until_cooldown_example =
    rejects_until_cooldown ticking (record fresh_breaker { failures = 2 }) 4 (inr (refl, refl)) 6

trips_at_threshold_example :
    ((fail_times ticking 2 fresh_breaker 4).0.state ≡ closed)
    × ((fail_times ticking fresh_breaker.failure_threshold fresh_breaker 4).0.state ≡ open_state)
trips_at_threshold_example = trips_at_threshold ticking fresh_breaker 4 2 refl refl (omega arith)

probes_unbounded_example : All (λ allowed. allowed ≡ true) (allow_times ticking 5 open_breaker 15)
probes_unbounded_example = probes_unbounded ticking 5 open_breaker 15 refl (omega arith)

attempts_bounded_example :
    (call ticking background failing ask policy ready).1.attempts ≤ 0 + attempt_cap policy
attempts_bounded_example = attempts_bounded ticking background failing ask policy ready

rejects : (allow ticking open_breaker 6).0 ≡ false
unfolding allow
rejects = refl

backoff_delay_bounds_example :
    (pos 0 ≤ℤ backoff_delay policy 2) × (backoff_delay policy 2 ≤ℤ policy.max_backoff)
backoff_delay_bounds_example = backoff_delay_bounds policy 2 (omega arith) (omega arith)

abbrev later : CallState ℕ
later = record shut { sentinel = (call ticking background answering ask policy shut).1.sentinel }

hunter_named : answering.name ≢ ""
hunter_named e = let clash : false ≡ true = ap (λ n. n == "") e in ground arith

breaker_open_misnamed_example :
    (e : GoError) × ((call ticking background failing ask policy later).0 ≡ err e)
    × (provider_field (call ticking background failing ask policy later).1.sentinel e ≡ "hunter")
breaker_open_misnamed_example =
    breaker_open_misnamed ticking background ask policy answering failing shut later open_breaker
      open_breaker refl rejects refl hunter_named refl rejects refl
