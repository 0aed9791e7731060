-- ===== src/Dash/Approvals/Gate.antt =====
-- `Check` and `Cancel` of internal/dash/approvals/service.go.
use waterfall.Prelude.{
  ℕ, suc, ◌-◌, ◌*◌, ℤ, pos, negsuc, ◌+ℤ◌, wrap64, pos_part, ltb_ℤ, leb_ℤ, String, Bool, true, false,
  not, Option, none, some, List, get, put, if◌then◌else◌,
}
use waterfall.Domain.Errors.{Result, ok, err}
use waterfall.Tenant.{Context, Principal, from_context}
use waterfall.Dash.Approvals.Policy.{Policy, resolve_policy, is_known_action_kind}
use waterfall.Dash.Approvals.Tables.{pending, cancelled, Request, set_status}
use waterfall.Dash.Approvals.Decide.{
  Services, State, Done, bind, sql, audit, transaction, not_found, not_pending,
  no_eligible_approver, unknown_action_kind,
}

module _ {W : Type 0} (v : Services W) where
  cancel_found : Option Request → String → State W → Done W (Unit {0})
  cancel_found none id s = (err not_found, s)
  cancel_found (some r) id s = elim r.status [
    | pending ↦ bind (sql v (set_status id cancelled) s) (λ _ s'. audit v "approval_cancel" s')
    | other_status ↦ (err not_pending, s)
  ]

  -- `Cancel`, up to its snapshot.
  unfoldable pub cancel : String → State W → Done W (Unit {0})
  unfolding cancel_found
  cancel id s =
      transaction v
        (λ s'. bind (sql v (λ t. t) s') (λ _ s''. cancel_found (get s''.tables.requests id) id s''))
        s

  guarded :
      Option (String → String → W → Result ℤ × W) → Policy → String → State W → Done W (Unit {0})
  guarded none pol user s = (ok tt, s)
  guarded (some count) pol user s =
      let (n, w) = count pol.approver_role user s.world in
      bind (n, record s { world = w })
        (λ eligible s'.
          if ltb_ℤ eligible pol.required_approvals
          then (err no_eligible_approver, s')
          else (ok tt, s'))

  -- `time.Duration(n) * time.Second`.
  in_seconds : ℤ → ℤ
  in_seconds (pos n) = wrap64 (pos (n * 1_000_000_000))
  in_seconds (negsuc n) = wrap64 (negsuc (suc n * 1_000_000_000 - 1))

  requested : Policy → String → List ℕ → Principal → State W → Done W (Bool × String)
  unfolding in_seconds
  requested pol kind payload p s =
      let (id, w) = v.new_uuid s.world in
      let (t, w') = v.now w in
      let r : Request = record {
        action_kind = kind;
        payload = payload;
        requested_by = p.user_id;
        status = pending;
        required_approvals = pol.required_approvals;
        expires_at = pos_part (pos t +ℤ in_seconds pol.expires_after_s);
        executed_at = none;
        execution_result = none;
      } in
      bind
        (transaction v
          (λ s'.
            bind (sql v (λ tb. record tb { requests = put tb.requests id r }) s')
              (λ _ s''. audit v "approval_request_create" s''))
          (record s { world = w' }))
        (λ _ s'. (ok (false, id), s'))

  check_for : Result Principal → String → List ℕ → State W → Done W (Bool × String)
  unfolding requested guarded
  check_for (err e) kind payload s = (err e, s)
  check_for (ok p) kind payload s =
      if not (is_known_action_kind kind)
      then (err unknown_action_kind, s)
      else bind (transaction v (λ s'. sql v (λ t. t) s') s) (λ _ s1.
        let pol = resolve_policy s1.tables.policies kind in
        if leb_ℤ pol.required_approvals (pos 0)
        then (ok (true, ""), s1)
        else bind (guarded v.roster pol p.user_id s1) (λ _ s2. requested pol kind payload p s2))

  -- `Check`: whether to proceed inline, and the id of the request that was made.
  unfoldable pub check : Context → String → List ℕ → State W → Done W (Bool × String)
  unfolding check_for
  check ctx kind payload s = check_for (from_context ctx) kind payload s
