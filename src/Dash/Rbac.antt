-- ===== src/Dash/Rbac.antt =====
-- internal/dash/rbac/rbac.go: the authorization matrix of the dashboard.
use waterfall.Prelude.{String, Bool, true, false, [], ◌∷◌, Dict, get, or_else}

pub data Decision : Type 0 where
  deny allow_all own_tenant approval_gated : Decision

-- `Allowed`.
unfoldable pub allowed : Decision → Bool
allowed deny = false
allowed _ = true

unfoldable pub decision_name : Decision → String
decision_name allow_all = "allow"
decision_name own_tenant = "own_tenant"
decision_name approval_gated = "approval_gated"
decision_name deny = "deny"

-- One row of the matrix.
abbrev pub row : Decision → Decision → Decision → Dict Decision
row operator tenant_admin tenant_user =
    ("operator", operator) ∷ ("tenant_admin", tenant_admin) ∷ ("tenant_user", tenant_user) ∷ []

-- `matrix`, in the order of the source.
abbrev pub matrix : Dict (Dict Decision)
matrix =
    ("overview.read", row allow_all own_tenant own_tenant)
    ∷ ("providers.read", row allow_all allow_all allow_all)
    ∷ ("providers.write", row allow_all deny deny)
    ∷ ("providers.delete", row approval_gated deny deny)
    ∷ ("keys.read", row allow_all own_tenant deny)
    ∷ ("keys.write", row allow_all own_tenant deny)
    ∷ ("keys.bulk", row allow_all own_tenant deny)
    ∷ ("keys.delete", row approval_gated approval_gated deny)
    ∷ ("pools.write", row allow_all own_tenant deny)
    ∷ ("rotation.write", row allow_all deny deny)
    ∷ ("routing.publish", row approval_gated approval_gated deny)
    ∷ ("workflows.publish", row approval_gated approval_gated deny)
    ∷ ("queues.read", row own_tenant own_tenant deny)
    ∷ ("queues.replay", row own_tenant own_tenant deny)
    ∷ ("workers.read", row allow_all deny deny)
    ∷ ("workers.actions", row allow_all deny deny)
    ∷ ("cost.read", row allow_all own_tenant own_tenant)
    ∷ ("budgets.write", row allow_all own_tenant deny)
    ∷ ("intent.read", row allow_all own_tenant own_tenant)
    ∷ ("research.read", row allow_all own_tenant own_tenant)
    ∷ ("ai.models.read", row allow_all deny deny)
    ∷ ("crm.read", row allow_all own_tenant deny)
    ∷ ("alerts.crud", row allow_all own_tenant deny)
    ∷ ("alerts.ack", row allow_all own_tenant deny)
    ∷ ("users.crud", row own_tenant own_tenant deny)
    ∷ ("sessions.revoke", row own_tenant own_tenant allow_all)
    ∷ ("audit.read", row allow_all own_tenant deny)
    ∷ ("audit.verify", row allow_all own_tenant deny)
    ∷ ("approvals.decide", row allow_all own_tenant deny)
    ∷ ("tenants.provision", row allow_all deny deny)
    ∷ ("settings.mfa_policy", row allow_all own_tenant deny)
    ∷ ("bulk_jobs.cancel", row allow_all own_tenant deny)
    ∷ []

-- `Can`: an action or a role that is not there is denied.
unfoldable pub decide : String → String → Decision
decide role action = or_else deny (get (or_else [] (get matrix action)) role)
