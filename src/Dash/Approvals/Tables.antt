-- ===== src/Dash/Approvals/Tables.antt =====
-- The tables and the SQL statements of internal/dash/approvals/store.go, as one tenant sees them.
use waterfall.Prelude.{
  ℕ, suc, ℤ, ltb, String, Bool, true, false, Option, none, some, List, [], ◌∷◌, ◌++◌, ◌==◌, ◌&&◌,
  ◌||◌, Dict, get, put, if◌then◌else◌,
}
use waterfall.Dash.Approvals.Policy.{PolicyRow}

pub data RequestStatus : Type 0 where
  pending approved rejected expired cancelled executed failed : RequestStatus

-- The verbs of a decision.
pub data Verb : Type 0 where
  approve reject : Verb

-- A row of `approval_requests`, under its id.
pub record Request : Type 0 where
  pub action_kind : String
  pub payload : List ℕ
  pub requested_by : String
  pub status : RequestStatus
  pub required_approvals : ℤ
  pub expires_at : ℕ
  pub executed_at : Option ℕ
  pub execution_result : Option (List ℕ)

-- A row of `approval_decisions`.
pub record Decision : Type 0 where
  pub request_id : String
  pub approver : String
  pub verb : Verb
  pub comment : String
  pub mfa_verified : Bool

pub record Tables : Type 0 where
  pub requests : Dict Request
  pub decisions : List Decision
  pub policies : Dict PolicyRow

unfoldable pub is_approve : Verb → Bool
is_approve approve = true
is_approve reject = false

-- The `select count(*)` of `countApprovals`.
unfoldable pub count_approvals : String → List Decision → ℕ
unfolding is_approve
count_approvals id [] = 0
count_approvals id (d ∷ ds) =
    let rest = count_approvals id ds in
    if d.request_id == id && is_approve d.verb then suc rest else rest

-- The key of `approval_decisions`: whether the approver has voted on the request.
unfoldable pub has_voted : String → String → List Decision → Bool
has_voted id user [] = false
has_voted id user (d ∷ ds) = (d.request_id == id && d.approver == user) || has_voted id user ds

-- `insertDecision`: nothing on a conflict of the key.
unfoldable pub insert_decision : Decision → Tables → Tables
insert_decision d t =
    if has_voted d.request_id d.approver t.decisions
    then t
    else record t { decisions = t.decisions ++ d ∷ [] }

with_request : Option Request → String → (Request → Request) → Tables → Tables
with_request none id f t = t
with_request (some r) id f t = record t { requests = put t.requests id (f r) }

-- An `update approval_requests ... where id = $1`.
unfoldable pub update_request : String → (Request → Request) → Tables → Tables
unfolding with_request
update_request id f t = with_request (get t.requests id) id f t

-- `setStatus`.
unfoldable pub set_status : String → RequestStatus → Tables → Tables
set_status id status t = update_request id (λ r. record r { status = status }) t

-- `setExecuted`.
unfoldable pub set_executed : String → RequestStatus → List ℕ → ℕ → Tables → Tables
set_executed id status result at t =
    update_request id
      (λ r. record r { status = status; execution_result = some result; executed_at = some at }) t

swept : ℕ → Dict Request → Dict Request
swept now [] = []
swept now ((id, r) ∷ rs) =
    (
      id,
      elim r.status [
        | pending ↦ if ltb r.expires_at now then record r { status = expired } else r
        | other_status ↦ r
      ],
    )
    ∷ swept now rs

-- The `update` of `sweepExpired` for one tenant.
unfoldable pub sweep_expired : ℕ → Tables → Tables
unfolding swept
sweep_expired now t = record t { requests = swept now t.requests }
