-- ===== src/Provider/Breaker/Trips.antt =====
-- When the breaker of internal/provider/breaker.go trips, rejects and recovers.
use waterfall.Prelude.{
  ℕ, zero, suc, ◌+◌, ◌≤◌, ◌<◌, ◌≡◌, ◌≢◌, refl, ◌⊎◌, ◌↔◌, ℤ, Bool, true, arith, All, List, [], ◌∷◌,
}
use waterfall.Provider.Env.{Env}
use waterfall.Provider.Breaker.{
  Breaker, closed, open_state, half_open, new_breaker, allow, rejecting, record_failure,
}

-- Between two methods the count is below the threshold.
pub record IsSound (b : Breaker) : Type 0 where
  pub below : b.failures < b.failure_threshold

pub new_breaker-IsSound : (threshold : ℤ) (cooldown : ℕ) → IsSound (new_breaker threshold cooldown)
unfolding new_breaker
new_breaker-IsSound threshold cooldown = ground arith

module _ {W : Type 0} (env : Env W) where
  pub allow-IsSound : (b : Breaker) (w : W) → IsSound b → IsSound (allow env b w).1
  unfolding allow
  allow-IsSound b w h = ground arith

  pub record_failure-IsSound :
      (b : Breaker) (w : W) → IsSound b → IsSound (record_failure env b w).0
  unfolding record_failure
  record_failure-IsSound b w h = ground arith

  -- `n` failures one after the other.
  pub fail_times : ℕ → Breaker → W → Breaker × W
  fail_times zero b w = (b, w)
  fail_times (suc n) b w = let (b', w') = record_failure env b w in fail_times n b' w'

  record_failure-below :
      (b : Breaker) (w : W)
      → b.state ≡ closed
      → b.failures + 1 < b.failure_threshold
      → ((record_failure env b w).0.state ≡ closed)
        × ((record_failure env b w).0.failures ≡ b.failures + 1)
        × ((record_failure env b w).0.failure_threshold ≡ b.failure_threshold)
  unfolding record_failure
  record_failure-below b w c h = ground arith

  record_failure-at :
      (b : Breaker) (w : W)
      → b.state ≡ closed
      → b.failures + 1 ≡ b.failure_threshold
      → (record_failure env b w).0.state ≡ open_state
  unfolding record_failure
  record_failure-at b w c h = ground arith

  fail_times-below :
      (n : ℕ) (b : Breaker) (w : W)
      → b.state ≡ closed
      → b.failures + n < b.failure_threshold
      → ((fail_times n b w).0.state ≡ closed) × ((fail_times n b w).0.failures ≡ b.failures + n)
  unfolding fail_times
  fail_times-below zero b w c h = (c, omega arith)
  fail_times-below (suc n) b w c h =
      let (b', w') = record_failure env b w in
      let (c', more, same) = record_failure-below b w c (omega arith) in
      let (c'', all) = fail_times-below n b' w' c' (omega (arith, more, same)) in
      (c'', omega (arith, more, all))

  fail_times-at :
      (n : ℕ) (b : Breaker) (w : W)
      → b.state ≡ closed
      → b.failures + suc n ≡ b.failure_threshold
      → (fail_times (suc n) b w).0.state ≡ open_state
  unfolding fail_times
  fail_times-at zero b w c h = record_failure-at b w c (omega arith)
  fail_times-at (suc n) b w c h =
      let (b', w') = record_failure env b w in
      let (c', more, same) = record_failure-below b w c (omega arith) in
      fail_times-at n b' w' c' (omega (arith, more, same))

  open_at :
      (b : Breaker) (w : W) (k : ℕ)
      → k ≡ b.failure_threshold
      → b.state ≡ closed
      → b.failures ≡ 0
      → 0 < b.failure_threshold
      → (fail_times k b w).0.state ≡ open_state
  open_at b w zero e c z positive = absurd (omega arith)
  open_at b w (suc k) e c z positive = fail_times-at k b w c (omega arith)

  -- A closed breaker with no failures counted stays closed over any number of failures below its
  -- threshold, and is open after as many as its threshold.
  pub trips_at_threshold :
      (b : Breaker) (w : W) (n : ℕ)
      → b.state ≡ closed
      → b.failures ≡ 0
      → n < b.failure_threshold
      → ((fail_times n b w).0.state ≡ closed)
        × ((fail_times b.failure_threshold b w).0.state ≡ open_state)
  trips_at_threshold b w n c z below = (
    (fail_times-below n b w c (omega arith)).0,
    open_at b w b.failure_threshold refl c z (omega arith),
  )

  -- The failure that trips a breaker, or that ends its probe, keeps calls out until the cooldown
  -- has passed since that failure, and the first call after it is a probe.
  pub rejects_until_cooldown :
      (b : Breaker) (w : W)
      → (b.state ≡ half_open) ⊎ ((b.state ≡ closed) × (b.failures + 1 ≡ b.failure_threshold))
      → (v : W)
      → let b' = (record_failure env b w).0 in
        (((allow env b' v).0 ≡ true) ↔ ((env.now w).0 + b.cooldown ≤ (env.now v).0))
        × (((allow env b' v).0 ≡ true) ↔ ((allow env b' v).1.state ≡ half_open))
        × ((allow env b' v).0 ≢ (rejecting env b' v).0)
  unfolding record_failure allow rejecting
  rejects_until_cooldown b w h v =
      ((ground arith, ground arith), (ground arith, ground arith), ground arith)

  -- `n` calls of `Allow` one after the other with nothing recorded between: what each returned.
  pub allow_times : ℕ → Breaker → W → List Bool
  allow_times zero b w = []
  allow_times (suc n) b w = let (allowed, b', w') = allow env b w in allowed ∷ allow_times n b' w'

  allow-half_open :
      (b : Breaker) (w : W)
      → b.state ≡ half_open
      → ((allow env b w).0 ≡ true) × ((allow env b w).1.state ≡ half_open)
  unfolding allow
  allow-half_open b w h = ground arith

  allow-late :
      (b : Breaker) (w : W)
      → b.state ≡ open_state
      → b.opened_at + b.cooldown ≤ (env.now w).0
      → ((allow env b w).0 ≡ true) × ((allow env b w).1.state ≡ half_open)
  unfolding allow
  allow-late b w h late = ground arith

  allow_times-half_open :
      (n : ℕ) (b : Breaker) (w : W)
      → b.state ≡ half_open
      → All (λ allowed. allowed ≡ true) (allow_times n b w)
  unfolding allow_times
  allow_times-half_open zero b w h = tt
  allow_times-half_open (suc n) b w h =
      let (granted, still) = allow-half_open b w h in
      (granted, allow_times-half_open n (allow env b w).1 (allow env b w).2 still)

  -- Once the cooldown has passed, every call is let through until one of them reports back: the
  -- breaker does not hold the others back behind a single probe.
  pub probes_unbounded :
      (n : ℕ) (b : Breaker) (w : W)
      → b.state ≡ open_state
      → b.opened_at + b.cooldown ≤ (env.now w).0
      → All (λ allowed. allowed ≡ true) (allow_times n b w)
  probes_unbounded zero b w h late = unfold allow_times in tt
  probes_unbounded (suc n) b w h late =
      let (granted, probing) = allow-late b w h late in
      unfold allow_times in
      (granted, allow_times-half_open n (allow env b w).1 (allow env b w).2 probing)
