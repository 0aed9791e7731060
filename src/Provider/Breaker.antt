-- ===== src/Provider/Breaker.antt =====
-- internal/provider/breaker.go: the circuit breaker of one provider. The mutex makes each method
-- one step; the counter stays below the threshold, so its `int` does not overflow.
pub mod Trips
use waterfall.Prelude.{ℕ, ◌+◌, ℤ, pos, pos_part, ltb_ℤ, Bool, true, false, leb, ltb, if◌then◌else◌}
use waterfall.Domain.Values.{Time}
use waterfall.Provider.Env.{Env}

pub data BreakerState : Type 0 where
  closed open_state half_open : BreakerState

pub record Breaker : Type 0 where
  pub failure_threshold : ℕ
  pub cooldown : ℕ
  pub state : BreakerState
  pub failures : ℕ
  pub opened_at : Time

unfoldable pub new_breaker : ℤ → ℕ → Breaker
new_breaker threshold cooldown = record {
  failure_threshold = if ltb_ℤ threshold (pos 1) then 1 else pos_part threshold;
  cooldown = cooldown;
  state = closed;
  failures = 0;
  opened_at = 0;
}

unfoldable pub record_success : Breaker → Breaker
record_success b = record b { failures = 0; state = closed }

module _ {W : Type 0} (env : Env W) where
  allow_at : Breaker → Time × W → Bool × Breaker × W
  allow_at b (t, w) =
      if leb (b.opened_at + b.cooldown) t
      then (true, record b { state = half_open }, w)
      else (false, b, w)

  allow_in : BreakerState → Breaker → W → Bool × Breaker × W
  unfolding allow_at
  allow_in open_state b w = allow_at b (env.now w)
  allow_in closed b w = (true, b, w)
  allow_in half_open b w = (true, b, w)

  -- `Allow`. A clock that runs backwards keeps the breaker open.
  unfoldable pub allow : Breaker → W → Bool × Breaker × W
  unfolding allow_in
  allow b w = allow_in b.state b w

  rejecting_in : BreakerState → Breaker → W → Bool × W
  rejecting_in open_state b w = let (t, w') = env.now w in (ltb t (b.opened_at + b.cooldown), w')
  rejecting_in closed b w = (false, w)
  rejecting_in half_open b w = (false, w)

  -- `Open`.
  unfoldable pub rejecting : Breaker → W → Bool × W
  unfolding rejecting_in
  rejecting b w = rejecting_in b.state b w

  unfoldable pub trip : Breaker → W → Breaker × W
  trip b w =
      let (t, w') = env.now w in (record b { state = open_state; opened_at = t; failures = 0 }, w')

  count_failure : Breaker → W → Breaker × W
  unfolding trip
  count_failure b w =
      let counted = record b { failures = b.failures + 1 } in
      if leb b.failure_threshold counted.failures then trip counted w else (counted, w)

  failure_in : BreakerState → Breaker → W → Breaker × W
  unfolding count_failure trip
  failure_in half_open b w = trip b w
  failure_in closed b w = count_failure b w
  failure_in open_state b w = count_failure b w

  -- `RecordFailure`.
  unfoldable pub record_failure : Breaker → W → Breaker × W
  unfolding failure_in
  record_failure b w = failure_in b.state b w
