-- ===== src/Provider/Env.antt =====
-- internal/provider/provider.go: what the program sees of a provider and of the world. `W` is the
-- state of the world: clocks, vendors, and the cancellation of contexts.
use waterfall.Prelude.{
  ℤ, String, Bool, Option, none, some, List, [], ◌∷◌, ◌==◌, Dict, if◌then◌else◌,
}
use waterfall.Domain.Errors.{Result}
use waterfall.Domain.Fields.{Field, Credits}
use waterfall.Domain.Values.{Time, Values}
use waterfall.Tenant.{Context}

-- The clock, `ctx.Err() != nil`, and a timer that may be cut short by the end of the context.
pub record Env (W : Type 0) : Type 0 where
  pub now : W → Time × W
  pub context_done : W → Bool × W
  pub wait : ℤ → W → Bool × W

-- `CallPolicy` of internal/provider/call.go; durations are nanoseconds.
pub record CallPolicy : Type 0 where
  pub timeout : ℤ
  pub max_attempts : ℤ
  pub backoff : ℤ
  pub max_backoff : ℤ

pub record Capability (C : Type 0) : Type 0 where
  pub field : Field
  pub cost : Credits
  pub expected_confidence : C

pub record Request : Type 0 where
  pub known : Dict String
  pub fields : List Field
  pub idempotency_key : String

-- An adapter by its methods. `call_policy` is the method of `PolicyOverrider`, if it has one;
-- `fetch` is given the deadline of its attempt.
pub record Adapter (C W : Type 0) : Type 0 where
  pub name : String
  pub capabilities : List (Capability C)
  pub call_policy : Option CallPolicy
  pub fetch : Context → ℤ → Request → W → Result (Values C) × W

module _ {C : Type 0} where
  first_for : Field → List (Capability C) → Option (Capability C)
  first_for field [] = none
  first_for field (c ∷ cs) = if c.field == field then some c else first_for field cs

  -- `Can`.
  unfoldable pub can : {W : Type 0} → Adapter C W → Field → Option (Capability C)
  unfolding first_for
  can a field = first_for field a.capabilities
