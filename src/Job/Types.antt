-- ===== src/Job/Types.antt =====
-- internal/job/job.go: a job, and the interface of a job store (internal/job/store.go).
use waterfall.Prelude.{ℤ, String, Bool, true, false, Option}
use waterfall.Domain.Errors.{Result}
use waterfall.Domain.Requests.{EnrichmentRequest}
use waterfall.Domain.Values.{Time}
use waterfall.Tenant.{Principal, Context, with_principal}
use waterfall.Engine.Types.{Outcome}

pub data Status : Type 0 where
  queued running succeeded failed : Status

-- `isTerminal`, of internal/durable/store.go.
unfoldable pub is_terminal : Status → Bool
is_terminal succeeded = true
is_terminal failed = true
is_terminal _ = false

pub record Job (C : Type 0) : Type 0 where
  pub id : String
  pub tenant : String
  pub idempotency_key : String
  pub fingerprint : String
  pub principal : Principal
  pub req : EnrichmentRequest C
  pub priority : ℤ
  pub status : Status
  pub outcome : Option (Outcome C)
  pub err_text : String
  pub created_at : Time
  pub updated_at : Time

-- `contextFor`.
unfoldable pub context_for : {C : Type 0} → Job C → Context → Context
context_for j base = with_principal base j.principal

-- `Store`: what the submitter and the dispatcher use of it. `St` is the store's own state.
pub record JobStore (C St : Type 0) : Type 0 where
  pub put_job : Context → Job C → St → Result (Unit {0}) × St
  pub get_job : Context → String → St → Result (Option (Job C)) × St
