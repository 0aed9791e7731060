-- ===== src/Dash/Approvals/Decide.antt =====
-- `Service` of internal/dash/approvals/service.go: the decisions, with what can fail around them.
use waterfall.Prelude.{
  ℕ, ℤ, pos, ltb_ℤ, ltb, String, Bool, true, false, not, Option, none, some, List, [], ◌∷◌, ◌++◌,
  ◌==◌, get, if◌then◌else◌,
}
use waterfall.Domain.Errors.{GoError, other, Result, ok, err}
use waterfall.Dash.Approvals.Policy.{Policy, resolve_policy}
use waterfall.Dash.Approvals.Tables.{
  RequestStatus, pending, approved, rejected, expired, executed, failed, Verb, approve, reject,
  Request, Decision, Tables, count_approvals, insert_decision, set_status, set_executed,
}

-- The errors that are tested for.
abbrev pub not_found : GoError
not_found = other "approvals: request not found"

abbrev pub four_eyes : GoError
four_eyes = other "approvals: requester cannot approve own request"

abbrev pub approver_role_error : GoError
approver_role_error = other "approvals: approver does not hold the required approver_role"

abbrev pub mfa_required : GoError
mfa_required = other "approvals: step-up mfa required"

abbrev pub is_expired : GoError
is_expired = other "approvals: request is expired"

abbrev pub not_pending : GoError
not_pending = other "approvals: request is not pending"

abbrev pub no_eligible_approver : GoError
no_eligible_approver = other "approvals: no eligible approver other than the requester"

abbrev pub unknown_action_kind : GoError
unknown_action_kind = other "approvals: unknown action_kind"

abbrev pub sql_error : GoError
sql_error = other "sql"

-- What the service calls. A statement or a commit that fails, and an audit row that cannot be
-- chained, answer `false`; an executor answers `false` for an error, and is given the id of the
-- request and the pinned payload. `ok_result` and `fail_result` are the JSON of the outcome.
pub record Services (W : Type 0) : Type 0 where
  pub now : W → ℕ × W
  pub sql_ok : W → Bool × W
  pub audit_ok : String → W → Bool × W
  pub executors : String → Option (String → List ℕ → W → Bool × W)
  pub new_uuid : W → String × W
  pub roster : Option (String → String → W → Result ℤ × W)
  pub ok_result : ℕ → List ℕ
  pub fail_result : List ℕ

-- A run of an executor: for which kind of action, and with which request and payload.
pub record Run : Type 0 where
  pub kind : String
  pub request : String
  pub payload : List ℕ

-- The tables, the world, and the runs of executors, in order.
pub record State (W : Type 0) : Type 0 where
  pub tables : Tables
  pub world : W
  pub runs : List Run

-- What an action ends with.
abbrev pub Done : Type 0 → Type 0 → Type 0
Done W A = Result A × State W

module _ {W : Type 0} where
  -- `if err != nil { return err }`, and go on.
  unfoldable pub bind : {A B : Type 0} → Done W A → (A → State W → Done W B) → Done W B
  bind (err e, s) k = (err e, s)
  bind (ok a, s) k = k a s

  pub ended : {A : Type 0} → Tables → Done W A → Done W A
  ended old (err e, s) = (err e, record s { tables = old })
  ended old (ok a, s) = (ok a, s)

module _ {W : Type 0} (v : Services W) where
  pub answered : Bool → State W → Done W (Unit {0})
  answered true s = (ok tt, s)
  answered false s = (err sql_error, s)

  -- One SQL statement, which may fail.
  unfoldable pub sql : (Tables → Tables) → State W → Done W (Unit {0})
  unfolding answered
  sql change s =
      let (works, w) = v.sql_ok s.world in
      bind (answered works (record s { world = w }))
        (λ _ s'. (ok tt, record s' { tables = change s'.tables }))

  -- `AppendConn`.
  unfoldable pub audit : String → State W → Done W (Unit {0})
  unfolding answered
  audit action s =
      let (works, w) = v.audit_ok action s.world in answered works (record s { world = w })

  -- `store.Tx`: `begin` with the settings of the tenant, the body, and `commit`. An error of any of
  -- them rolls the tables back.
  unfoldable pub transaction : (State W → Done W (Unit {0})) → State W → Done W (Unit {0})
  unfolding ended
  transaction body s =
      bind (sql (λ t. t) s) (λ _ s'. ended s'.tables (bind (body s') (λ _ s''. sql (λ t. t) s'')))

  -- What is written of the outcome, with the looks at the clock in order.
  outcome : Bool → W → (RequestStatus × List ℕ × ℕ) × W
  outcome true w =
      let (t, w1) = v.now w in let (t', w2) = v.now w1 in ((executed, v.ok_result t, t'), w2)
  outcome false w = let (t, w1) = v.now w in ((failed, v.fail_result, t), w1)

  -- After the executor of a request answered.
  unfoldable pub recorded : String → Bool → State W → Done W (Unit {0})
  unfolding outcome
  recorded id works s = bind (audit "approval_execute" s) (λ _ s1.
      let (o, w) = outcome works s1.world in
      sql (set_executed id o.0 o.1 o.2) (record s1 { world = w }))

  run_with :
      Option (String → List ℕ → W → Bool × W) → String → Request → State W → Done W (Unit {0})
  unfolding recorded
  run_with none id r s = recorded id false s
  run_with (some exec) id r s =
      let (works, w) = exec id r.payload s.world in
      let run : Run = record { kind = r.action_kind; request = id; payload = r.payload } in
      recorded id works (record s { world = w; runs = s.runs ++ run ∷ [] })

  -- `executeLocked`.
  unfoldable pub execute_locked : String → Request → State W → Done W (Unit {0})
  unfolding run_with
  execute_locked id r s = run_with (v.executors r.action_kind) id r s

  unfoldable pub audited : Verb → State W → Done W (Unit {0})
  audited approve s = audit "approval_approve" s
  audited reject s = audit "approval_reject" s

  -- After the vote is stored.
  unfoldable pub tally : String → Request → Verb → State W → Done W (Unit {0})
  unfolding audited
  tally id r reject s = bind (audited reject s) (λ _ s'. sql (set_status id rejected) s')
  tally id r approve s = bind (sql (λ t. t) s) (λ _ s'.
      if ltb_ℤ (pos (count_approvals id s'.tables.decisions)) r.required_approvals
      then audited approve s'
      else bind (execute_locked id r s') (λ _ s''. audited approve s''))

  unfoldable pub vote : String → Decision → Request → State W → Done W (Unit {0})
  unfolding tally
  vote id d r s =
      let (t, w) = v.now s.world in
      let s' : State W = record s { world = w } in
      if ltb r.expires_at t
      then bind (sql (set_status id expired) s') (λ _ s''. (err is_expired, s''))
      else bind (sql (insert_decision d) s') (λ _ s''. tally id r d.verb s'')

  unfoldable pub by_status :
      RequestStatus → String → Decision → Request → State W → Done W (Unit {0})
  unfolding vote
  by_status pending id d r s = vote id d r s
  by_status executed id d r s = (ok tt, s)
  by_status approved id d r s = (ok tt, s)
  by_status failed id d r s = (ok tt, s)
  by_status _ id d r s = (err not_pending, s)

  unfoldable pub locked : Option Request → String → Decision → State W → Done W (Unit {0})
  unfolding by_status
  locked none id d s = (err not_found, s)
  locked (some r) id d s = by_status r.status id d r s

  -- The body of the transaction of `decide`.
  unfoldable pub decide_tx : String → Decision → State W → Done W (Unit {0})
  unfolding locked
  decide_tx id d s = bind (sql (λ t. t) s) (λ _ s'. locked (get s'.tables.requests id) id d s')

  -- The checks of `decide` against the request as it was read before.
  unfoldable pub permitted : Option Request → Decision → Result Request
  permitted none d = err not_found
  permitted (some pre) d =
      if not d.mfa_verified
      then err mfa_required
      else if d.approver == pre.requested_by
      then err four_eyes
      else ok pre

  unfoldable pub holds_role : Policy → String → Result (Unit {0})
  holds_role pol role = if role == pol.approver_role then ok tt else err approver_role_error

  read_request : Option Request → State W → Done W Request
  read_request none s = (err not_found, s)
  read_request (some r) s = (ok r, s)

  -- `GetRequest`.
  unfoldable pub get_request : String → State W → Done W Request
  unfolding read_request
  get_request id s =
      bind (transaction (λ s'. sql (λ t. t) s') s)
        (λ _ s'. read_request (get s'.tables.requests id) s')

  -- `decide`. The snapshot that it returns is read after the commit.
  unfoldable pub decide : String → Decision → String → State W → Done W Request
  unfolding permitted holds_role decide_tx get_request
  decide id d role s = bind (transaction (λ s'. sql (λ t. t) s') s) (λ _ s1.
      bind (permitted (get s1.tables.requests id) d, s1)
        (λ pre s2. bind (transaction (λ s'. sql (λ t. t) s') s2) (λ _ s3.
          bind (holds_role (resolve_policy s3.tables.policies pre.action_kind) role, s3)
            (λ _ s4. bind (transaction (decide_tx id d) s4) (λ _ s5. get_request id s5)))))
