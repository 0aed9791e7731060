-- ===== src/Engine/Types.antt =====
-- The types of internal/engine/engine.go, and attribution.go.
use waterfall.Prelude.{
  ◌≡◌, refl, inl, inr, Bool-cases, ℕ, String, Bool, ◌&&◌, Option, none, some, List, ◌==◌, Dict,
  if◌then◌else◌,
}
use waterfall.Domain.Errors.{GoError}
use waterfall.Domain.Fields.{Field, Credits}
use waterfall.Domain.Values.{FieldValue}
use waterfall.Tenant.{tenant_id, Context, Attribution}
use waterfall.Store.Memory.{Memory}
use waterfall.Provider.Env.{CallPolicy, Adapter}
use waterfall.Provider.Breaker.{Breaker}

pub data StopReason : Type 0 where
  target_met exhausted ceiling no_target : StopReason

-- What `recordCall`, `integrate` and the bandit update report of a call, in order.
pub data Event : Type 0 where
  called : String → Field → Option GoError → Bool → Event
  learned : String → Field → Bool → Event
  filled : Field → String → Credits → Event

-- An `Engine`. `calibrator` is nil-safe; so are the metrics and the bandit, whose reports are
-- the events of a run and influence nothing else in it.
pub record Engine (C W : Type 0) : Type 0 where
  pub adapters : Dict (Adapter C W)
  pub policy : CallPolicy
  pub calibrator : Option (String → Field → C → C)

-- What a run reads and writes: the store, the breakers, the shared `ErrBreakerOpen`, the world,
-- the count of all fetches, and the reports.
pub record RunState (C W : Type 0) : Type 0 where
  pub store : Memory C
  pub breakers : Dict Breaker
  pub sentinel : String
  pub world : W
  pub fetches : ℕ
  pub events : List Event

pub record Outcome (C : Type 0) : Type 0 where
  pub filled_values : Dict (FieldValue C)
  pub committed : Credits
  pub stops : Dict StopReason

-- The variables of the loop of `fillField`.
pub record Fill (C W : Type 0) : Type 0 where
  pub values : Dict C
  pub hit_ceiling : Bool
  pub run : RunState C W

-- `WithAttribution` and `withLeaseAttribution`.
unfoldable pub with_attribution : Context → String → String → Context
with_attribution ctx workflow_key country = record ctx {
  attribution = some (record { workflow_key = workflow_key; country = country });
}

lease_of : Context → Option Attribution → Context
lease_of ctx none = ctx
lease_of ctx (some a) =
    if a.workflow_key == "" && a.country == ""
    then ctx
    else record ctx { lease_attribution = some a }

unfoldable pub with_lease_attribution : Context → Context
unfolding lease_of
with_lease_attribution ctx = lease_of ctx ctx.attribution

lease_of-tenant :
    (ctx : Context) (o : Option Attribution) → tenant_id (lease_of ctx o) ≡ tenant_id ctx
unfolding lease_of tenant_id
lease_of-tenant ctx none = refl
lease_of-tenant ctx (some a) = elim (Bool-cases (a.workflow_key == "" && a.country == "")) [
  | inl q ↦ rw q
  | inr q ↦ rw q
]

-- Attribution leaves the tenant of a context alone.
pub tenant_id-with_lease_attribution :
    (ctx : Context) → tenant_id (with_lease_attribution ctx) ≡ tenant_id ctx
unfolding with_lease_attribution
tenant_id-with_lease_attribution ctx = lease_of-tenant ctx ctx.attribution

pub tenant_id-with_attribution :
    (ctx : Context) (workflow_key country : String)
    → tenant_id (with_attribution ctx workflow_key country) ≡ tenant_id ctx
unfolding with_attribution tenant_id
tenant_id-with_attribution ctx workflow_key country = refl
