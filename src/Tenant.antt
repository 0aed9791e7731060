-- ===== src/Tenant.antt =====
-- internal/tenant/context.go: the principal that a request context carries.
use waterfall.Prelude.{String, Bool, Option, none, some, List, ◌==◌, if◌then◌else◌}
use waterfall.Domain.Errors.{Result, ok, err, no_principal}
use waterfall.Domain.Fields.{contains}

pub record Principal : Type 0 where
  pub tenant_id : String
  pub user_id : String
  pub scopes : List String

-- The usage attribution of a job: internal/engine/attribution.go and internal/provider/lease.go.
pub record Attribution : Type 0 where
  pub workflow_key : String
  pub country : String

-- The values that the program keeps in a `context.Context`, under its three private keys.
pub record Context : Type 0 where
  pub principal : Option Principal
  pub attribution : Option Attribution
  pub lease_attribution : Option Attribution

abbrev pub background : Context
background = record { principal = none; attribution = none; lease_attribution = none }

unfoldable pub has_scope : Principal → String → Bool
has_scope p s = contains p.scopes s

unfoldable pub with_principal : Context → Principal → Context
with_principal ctx p = record ctx { principal = some p }

checked : Option Principal → Result Principal
checked none = err no_principal
checked (some p) = if p.tenant_id == "" then err no_principal else ok p

unfoldable pub from_context : Context → Result Principal
unfolding checked
from_context ctx = checked ctx.principal

tenant_of : Result Principal → Result String
tenant_of (ok p) = ok p.tenant_id
tenant_of (err e) = err e

unfoldable pub tenant_id : Context → Result String
unfolding tenant_of from_context
tenant_id ctx = tenant_of (from_context ctx)
