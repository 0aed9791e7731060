-- ===== src/Provider/Call.antt =====
-- internal/provider/call.go: one provider call under the breaker, the timeout and the retry cap.
pub mod Bounds
pub mod Errors
use waterfall.Prelude.{
  ℕ, zero, suc, ◌+◌, ◌-◌, ◌*◌, ◌^◌, ℤ, pos, pos_part, wrap64, ltb_ℤ, leb_ℤ, String, Bool, true,
  false, not, ◌&&◌, ◌||◌, Option, none, some, [], ◌==◌, eqb, if◌then◌else◌,
}
use waterfall.Domain.Errors.{
  ErrorClass, transient, rate_limit, provider_down, GoError, provider_error, breaker_open, Result,
  ok, err, class_of, find_provider_error, is_deadline, retryable,
}
use waterfall.Domain.Values.{Values}
use waterfall.Tenant.{Context}
use waterfall.Provider.Env.{Env, CallPolicy, Request, Adapter}
use waterfall.Provider.Breaker.{Breaker, allow, record_success, record_failure}

abbrev pub default_policy : CallPolicy
default_policy = record {
  timeout = pos 3_000_000_000;
  max_attempts = pos 3;
  backoff = pos 50_000_000;
  max_backoff = pos 1_000_000_000;
}

-- `backoff`: the shift of an `int64` wraps, and gives 0 from 64 places on.
unfoldable pub backoff_delay : CallPolicy → ℕ → ℤ
backoff_delay pol attempt =
    if leb_ℤ pol.backoff (pos 0)
    then pos 0
    else let d = wrap64 (pos (pos_part pol.backoff * 2 ^ (attempt - 1))) in
      if ltb_ℤ (pos 0) pol.max_backoff && ltb_ℤ pol.max_backoff d then pol.max_backoff else d

-- The error that `provErr` returns for the `*ProviderError` found in the chain, and the provider
-- that `ErrBreakerOpen` names from then on: the missing name is written into the value found.
pub named : String → ErrorClass → GoError → Option GoError → String → GoError × String
named name class e (some (provider_error n c inner)) sentinel =
    (provider_error (if n == "" then name else n) c inner, sentinel)
named name class e (some pe) sentinel = (pe, if sentinel == "" then name else sentinel)
named name class e none sentinel = (provider_error name class e, sentinel)

unfoldable pub prov_err : String → ErrorClass → GoError → String → GoError × String
unfolding named find_provider_error
prov_err name class e sentinel = named name class e (find_provider_error e) sentinel

unfoldable pub counts_as_failure : ErrorClass → Bool
counts_as_failure transient = true
counts_as_failure provider_down = true
counts_as_failure rate_limit = true
counts_as_failure _ = false

-- What a call reads and writes: the breaker, if there is one; the count behind `attempts`; the
-- provider name inside the shared `ErrBreakerOpen`; and the world.
pub record CallState (W : Type 0) : Type 0 where
  pub breaker : Option Breaker
  pub attempts : ℕ
  pub sentinel : String
  pub world : W

-- The end of one round of the loop: a return, or the error to go on with.
pub data Round (C : Type 0) : Type 0 where
  returned : Result (Values C) → Round C
  again : GoError → Round C

-- The cap with its default.
abbrev pub attempt_cap : CallPolicy → ℕ
attempt_cap pol = if ltb_ℤ pol.max_attempts (pos 1) then 1 else pos_part pol.max_attempts

module _ {W : Type 0} (env : Env W) where
  unfoldable pub real_sleep : ℤ → W → Bool × W
  real_sleep d w = if leb_ℤ d (pos 0) then (false, w) else env.wait d w

  -- `br == nil || br.Allow()`.
  pub allow_option : Option Breaker → W → Bool × Option Breaker × W
  allow_option none w = (true, none, w)
  allow_option (some b) w = let (allowed, b', w') = allow env b w in (allowed, some b', w')

  -- `br.RecordFailure()`, where there is a breaker and the class counts.
  pub failure_option : Bool → Option Breaker → W → Option Breaker × W
  failure_option true (some b) w = let (b', w') = record_failure env b w in (some b', w')
  failure_option true none w = (none, w)
  failure_option false br w = (br, w)

  pub success_option : Option Breaker → Option Breaker
  success_option none = none
  success_option (some b) = some (record_success b)

  module _ {C : Type 0} (ctx : Context) (a : Adapter C W) (req : Request) (pol : CallPolicy) where
    -- From the classified error to the end of the round: the context, the cap, the backoff.
    pub retry_or_stop : ℕ → ErrorClass → GoError → CallState W → Round C × CallState W
    unfolding real_sleep
    retry_or_stop attempt class last s =
        let (done, w) = env.context_done s.world in
        let s1 = record s { world = w } in
        if done
        then (returned (err last), s1)
        else if not (retryable class) || eqb attempt (attempt_cap pol)
        then (returned (err last), s1)
        else let (cut, w') = real_sleep (backoff_delay pol attempt) w in
          (if cut then returned (err last) else again last, record s { world = w' })

    abbrev pub class_seen : GoError → ErrorClass
    class_seen e = if is_deadline e then transient else class_of (some e)

    pub after_fetch : ℕ → CallState W → Result (Values C) → Round C × CallState W
    unfolding retry_or_stop failure_option success_option
    after_fetch attempt s (ok res) =
        (returned (ok res), record s { breaker = success_option s.breaker })
    after_fetch attempt s (err e) =
        let class = class_seen e in
        let (last, sentinel) = prov_err a.name class e s.sentinel in
        let (br, w) = failure_option (counts_as_failure class) s.breaker s.world in
        retry_or_stop attempt class last (record s { breaker = br; sentinel = sentinel; world = w })

    pub after_allow : ℕ → CallState W → Bool → Round C × CallState W
    unfolding after_fetch
    after_allow attempt s false =
        let (last, sentinel) = prov_err a.name provider_down breaker_open s.sentinel in
        (returned (err last), record s { sentinel = sentinel })
    after_allow attempt s true =
        let (res, w) = a.fetch ctx pol.timeout req s.world in
        after_fetch attempt (record s { attempts = s.attempts + 1; world = w }) res

    -- One round of the loop.
    pub round : ℕ → CallState W → Round C × CallState W
    unfolding after_allow allow_option
    round attempt s =
        let (allowed, br, w) = allow_option s.breaker s.world in
        after_allow attempt (record s { breaker = br; world = w }) allowed

    pub finish : Option GoError → Result (Values C)
    finish none = ok []
    finish (some e) = err e

    -- The loop, with the rounds left and the number of the attempt.
    pub call_loop : ℕ → ℕ → Option GoError → CallState W → Result (Values C) × CallState W
    unfolding finish
    call_loop zero attempt last s = (finish last, s)
    call_loop (suc n) attempt last s =
        let (r, s') = round attempt s in
        elim r [ returned res ↦ (res, s') | again e ↦ call_loop n (attempt + 1) (some e) s' ]

    -- `Call`.
    unfoldable pub call : CallState W → Result (Values C) × CallState W
    unfolding call_loop round
    call s = call_loop (attempt_cap pol) 1 none s
