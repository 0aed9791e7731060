-- ===== src/Examples/Votes.antt =====
-- The theorem on internal/dash/approvals/service.go, applied.
use waterfall.Prelude.{ℕ, ◌+◌, pos, true, none, some, [], ◌∷◌}
use waterfall.Dash.Approvals.Tables.{Request, Decision, pending, approve}
use waterfall.Dash.Approvals.Decide.{Services, State, transaction, decide_tx, decide}
use waterfall.Dash.Approvals.Statements.{Ran, after_statements}
use waterfall.Dash.Approvals.Quorum.{IsPermitted, IsQuorum, EndsWith, decide-Ran}

abbrev services : Services ℕ
services = record {
  now = λ w. (w, w + 1);
  sql_ok = λ w. (true, w + 1);
  audit_ok = λ action w. (true, w + 1);
  executors = λ kind. some (λ id payload w. (true, w + 1));
  new_uuid = λ w. ("id", w + 1);
  roster = none;
  ok_result = λ t. t ∷ [];
  fail_result = [];
}

abbrev open_request : Request
open_request = record {
  action_kind = "key_export";
  payload = 1 ∷ [];
  requested_by = "ann";
  status = pending;
  required_approvals = pos 1;
  expires_at = 100;
  executed_at = none;
  execution_result = none;
}

abbrev tables : State ℕ
tables = record {
  tables = record { requests = ("r", open_request) ∷ []; decisions = []; policies = [] };
  world = 3;
  runs = [];
}

abbrev ballot : Decision
ballot = record {
  request_id = "r";
  approver = "bob";
  verb = approve;
  comment = "";
  mfa_verified = true;
}

decide-Ran_example :
    let out = decide services "r" ballot "tenant_admin" tables in
    Ran
      (λ run.
        IsPermitted services "r" ballot "tenant_admin" tables.tables
        × IsQuorum services "r" ballot tables.tables (after_statements services 8 3) run)
      tables
      out.1
    × EndsWith services "r" tables
        (transaction services
          (decide_tx services "r" ballot)
          (record tables { world = after_statements services 6 3 }))
        out
decide-Ran_example = decide-Ran services "r" ballot "tenant_admin" tables
