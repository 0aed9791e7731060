-- ===== src/Dash/Approvals/Policy.antt =====
-- internal/dash/approvals/policy.go and the catalog of types.go.
use waterfall.Prelude.{
  ℤ, pos, ltb_ℤ, String, Bool, true, false, Option, none, some, List, [], ◌∷◌, ◌==◌, Dict, get,
  if◌then◌else◌,
}
use waterfall.Domain.Fields.{contains}

-- `AllActionKinds`.
abbrev pub all_action_kinds : List String
all_action_kinds =
    "key_bulk_delete" ∷ "provider_delete" ∷ "provider_archive" ∷ "routing_publish"
    ∷ "workflow_publish" ∷ "secrets_backend_change" ∷ []

-- `platformActionKinds`.
abbrev pub platform_action_kinds : List String
platform_action_kinds = "provider_delete" ∷ "provider_archive" ∷ "secrets_backend_change" ∷ []

unfoldable pub is_known_action_kind : String → Bool
is_known_action_kind k = contains all_action_kinds k

pub record Policy : Type 0 where
  pub action_kind : String
  pub required_approvals : ℤ
  pub approver_role : String
  pub expires_after_s : ℤ
  pub is_default : Bool

-- A row of `approval_policies`; a null, or a text that is no number, is `none`.
pub record PolicyRow : Type 0 where
  pub required_approvals : Option ℤ
  pub approver_role : String
  pub expires_after_s : Option ℤ

unfoldable pub default_policy : String → Policy
default_policy k = record {
  action_kind = k;
  required_approvals = pos 1;
  approver_role = if contains platform_action_kinds k then "operator" else "tenant_admin";
  expires_after_s = pos 86_400;
  is_default = true;
}

-- `atoiOr`.
abbrev pub number_or : ℤ → Option ℤ → ℤ
number_or d none = d
number_or d (some n) = n

policy_of : String → Option PolicyRow → Policy
policy_of k none = default_policy k
policy_of k (some row) =
    let required = number_or (pos 1) row.required_approvals in
    let expires = number_or (pos 86_400) row.expires_after_s in
    record {
      action_kind = k;
      required_approvals = if ltb_ℤ required (pos 1) then pos 1 else required;
      approver_role =
          if row.approver_role == "" then (default_policy k).approver_role else row.approver_role;
      expires_after_s = if ltb_ℤ expires (pos 1) then pos 86_400 else expires;
      is_default = false;
    }

-- `resolvePolicy`, from the rows of the caller's tenant.
unfoldable pub resolve_policy : Dict PolicyRow → String → Policy
unfolding policy_of default_policy
resolve_policy rows k = policy_of k (get rows k)
