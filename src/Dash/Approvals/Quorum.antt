-- ===== src/Dash/Approvals/Quorum.antt =====
-- When internal/dash/approvals/service.go runs an executor, and what an error leaves behind.
use waterfall.Prelude.{
  ℕ, suc, ◌+◌, pos, ltb_ℤ, ◌≤ℤ◌, ◌≡◌, refl, ap, ◌∙◌, List, [], ◌∷◌, ◌++◌, All, Option-cases, eq_iff,
  arith, if◌then◌else◌, ◌⊎◌, inl, inr, String, true, false, Option, none, some, ◌==◌, get, ltb,
  Bool-cases,
}
use mathlib.Core.Path.{subst}
use waterfall.Domain.Errors.{GoError, ok, err}
use waterfall.Dash.Approvals.Policy.{resolve_policy}
use waterfall.Dash.Approvals.Tables.{
  RequestStatus, pending, approved, rejected, expired, cancelled, executed, failed, Verb, approve,
  reject, Request, Decision, Tables, count_approvals, insert_decision, set_status, is_approve,
  has_voted,
}
use waterfall.Dash.Approvals.Decide.{
  sql_error, Services, Run, State, Done, get_request, audited, vote, by_status, locked, permitted,
  holds_role, not_found, mfa_required, four_eyes, is_expired, approver_role_error, bind, sql,
  transaction, execute_locked, tally, decide_tx, decide,
}
use waterfall.Dash.Approvals.Statements.{
  Ran, pinned, after_statements, sql-cases, transaction-cases, sql-runs, audit-runs, bind-runs,
  execute_locked-runs,
}

-- What a vote counts for a request.
abbrev pub supports : String → Decision → ℕ
supports id d = if d.request_id == id then (elim d.verb [ approve ↦ 1 | reject ↦ 0 ]) else 0

abbrev pub supporters : String → List Decision → ℕ
supporters id [] = 0
supporters id (d ∷ ds) = supports id d + supporters id ds

-- The stored votes for the request are as many as it wants, or are with this one, the first of its
-- approver.
abbrev pub HasQuorum : String → Decision → Request → List Decision → Type 0
HasQuorum id d r ds =
    (r.required_approvals ≤ℤ pos (supporters id ds))
    ⊎ (All (λ e. ¬ ((e.request_id ≡ d.request_id) × (e.approver ≡ d.approver))) ds
        × (r.required_approvals ≤ℤ pos (supporters id ds + supports id d)))

count_approvals-supporters :
    (id : String) (ds : List Decision) → count_approvals id ds ≡ supporters id ds
unfolding count_approvals is_approve
count_approvals-supporters id [] = refl
count_approvals-supporters id (d ∷ ds) = elim (Bool-cases (d.request_id == id)) [
  | inr q ↦ rw q (omega (arith, count_approvals-supporters id ds))
  | inl q ↦ rw q (by_verb d.verb (count_approvals-supporters id ds))
]
  where
    by_verb :
        (verb : Verb)
        → count_approvals id ds ≡ supporters id ds
        → (if is_approve verb then suc (count_approvals id ds) else count_approvals id ds)
          ≡ elim verb [ approve ↦ 1 | reject ↦ 0 ] + supporters id ds
    by_verb approve e = omega (arith, e)
    by_verb reject e = omega (arith, e)

supporters-append :
    (id : String) (ds : List Decision) (d : Decision)
    → supporters id (ds ++ d ∷ []) ≡ supporters id ds + supports id d
supporters-append id [] d = ground arith
supporters-append id (e ∷ ds) d = omega (arith, supporters-append id ds d)

has_voted_first :
    (id user : String) (ds : List Decision)
    → has_voted id user ds ≡ false
    → All (λ e. ¬ ((e.request_id ≡ id) × (e.approver ≡ user))) ds
unfolding has_voted
has_voted_first id user [] h = tt
has_voted_first id user (e ∷ ds) h = (
  λ (p, q). ground (arith, h, (eq_iff e.request_id id).1 p, (eq_iff e.approver user).1 q),
  has_voted_first id user ds (ground (arith, h)),
)

-- The tally after the vote is stored.
tallied-HasQuorum :
    (id : String) (d : Decision) (r : Request) (t : Tables)
    → ltb_ℤ (pos (count_approvals id (insert_decision d t).decisions)) r.required_approvals ≡ false
    → HasQuorum id d r t.decisions
unfolding insert_decision
tallied-HasQuorum id d r t h = elim (Bool-cases (has_voted d.request_id d.approver t.decisions)) [
  | inl q ↦ inl (ground (arith, rw (q, count_approvals-supporters) at h))
  | inr q ↦
      let k : ltb_ℤ (pos (supporters id (t.decisions ++ d ∷ []))) r.required_approvals ≡ false =
        subst (λ n. ltb_ℤ (pos n) r.required_approvals ≡ false)
          (count_approvals-supporters id (t.decisions ++ d ∷ [])) (rw q at h) in
      inr (
        has_voted_first d.request_id d.approver t.decisions q,
        ground (arith, k, supporters-append id t.decisions d),
      )
]

module _ {W : Type 0} (v : Services W) where
  abbrev IsEnough : String → Request → Tables → Type 0
  IsEnough id r t = ltb_ℤ (pos (count_approvals id t.decisions)) r.required_approvals ≡ false

  audited-runs : (verb : Verb) (s : State W) → (audited v verb s).1.runs ≡ s.runs
  unfolding audited
  audited-runs approve s = audit-runs v "approval_approve" s
  audited-runs reject s = audit-runs v "approval_reject" s

  tally-Ran :
      (id : String) (r : Request) (verb : Verb) (s : State W)
      → Ran
          (λ run. (run ≡ pinned id r) × (verb ≡ approve) × IsEnough id r s.tables)
          s
          (tally v id r verb s).1
  unfolding tally bind
  tally-Ran id r reject s =
      inl (bind-runs v (audited v reject s) _ (λ a q. sql-runs v _ _) ∙ audited-runs reject s)
  tally-Ran id r approve s = elim (sql-cases v (λ t. t) s) [
    | inl (w, q) ↦ rw q (inl refl)
    | inr (w, n, q) ↦
        elim (Bool-cases
          (ltb_ℤ (pos (count_approvals id s.tables.decisions)) r.required_approvals)) [
            | inl few ↦ rw (q, few) (inl (audited-runs approve (record s { world = w })))
            | inr enough ↦
                let s' : State W = record s { world = w } in
                let tail =
                  bind-runs v (execute_locked v id r s') (λ _ s''. audited v approve s'')
                    (λ a e. audited-runs approve _) in
                rw (q, enough)
                  (elim (execute_locked-runs v id r s') [
                    | inl e ↦ inl (tail ∙ e)
                    | inr e ↦ inr (pinned id r, tail ∙ e, (refl, refl, refl))
                  ])
          ]
  ]

  vote-Ran :
      (id : String) (d : Decision) (r : Request) (s : State W)
      → Ran
          (λ run.
            (run ≡ pinned id r)
            × (d.verb ≡ approve)
            × HasQuorum id d r s.tables.decisions
            × (ltb r.expires_at (v.now s.world).0 ≡ false))
          s
          (vote v id d r s).1
  unfolding vote bind
  vote-Ran id d r s =
      let s' : State W = record s { world = (v.now s.world).1 } in
      elim (Bool-cases (ltb r.expires_at (v.now s.world).0)) [
        | inl late ↦ rw late (
            inl (
              bind-runs v (sql v (set_status id expired) s') (λ _ s''. (err is_expired, s''))
                (λ a q. refl)
              ∙ sql-runs v (set_status id expired) s'))
        | inr early ↦ elim (sql-cases v (insert_decision d) s') [
          | inl (w, q) ↦ rw (early, q) (inl refl)
          | inr (w, n, q) ↦
              rw (early, q)
                (elim (tally-Ran id r d.verb
                  (record s' { world = w; tables = insert_decision d s.tables })) [
                    | inl e ↦ inl e
                    | inr (run, e, (p, a, enough)) ↦
                        inr (run, e, (p, a, tallied-HasQuorum id d r s.tables enough, refl))
                  ])
        ]
      ]

  -- What holds when an executor runs for a vote, with the clock read in the world `w`: it is the one
  -- that the request has pinned, the request was pending and in time, the vote approves it, and with
  -- it the quorum is met.
  pub record IsQuorum (id : String) (d : Decision) (t : Tables) (w : W) (run : Run) : Type 0 where
    pub request : Request
    pub found : get t.requests id ≡ some request
    pub ran : run ≡ pinned id request
    pub was_pending : request.status ≡ pending
    pub approves : d.verb ≡ approve
    pub quorum : HasQuorum id d request t.decisions
    pub in_time : ltb request.expires_at (v.now w).0 ≡ false

  by_status-Ran :
      (id : String) (d : Decision) (r : Request) (s : State W) (x : RequestStatus)
      → r.status ≡ x
      → get s.tables.requests id ≡ some r
      → Ran (IsQuorum id d s.tables s.world) s (by_status v x id d r s).1
  unfolding by_status
  by_status-Ran id d r s pending e f = elim (vote-Ran id d r s) [
    | inl q ↦ inl q
    | inr (run, q, (p, a, enough, early)) ↦ inr (
      run,
      q,
      record {
        request = r;
        found = f;
        ran = p;
        was_pending = e;
        approves = a;
        quorum = enough;
        in_time = early;
      },
    )
  ]
  by_status-Ran id d r s approved e f = inl refl
  by_status-Ran id d r s rejected e f = inl refl
  by_status-Ran id d r s expired e f = inl refl
  by_status-Ran id d r s cancelled e f = inl refl
  by_status-Ran id d r s executed e f = inl refl
  by_status-Ran id d r s failed e f = inl refl

  locked-Ran :
      (id : String) (d : Decision) (s : State W) (o : Option Request)
      → get s.tables.requests id ≡ o
      → Ran (IsQuorum id d s.tables s.world) s (locked v o id d s).1
  unfolding locked
  locked-Ran id d s none f = inl refl
  locked-Ran id d s (some r) f = by_status-Ran id d r s r.status refl f

  decide_tx-Ran :
      (id : String) (d : Decision) (s : State W)
      → Ran (IsQuorum id d s.tables (after_statements v 1 s.world)) s (decide_tx v id d s).1
  unfolding decide_tx bind
  decide_tx-Ran id d s = elim (sql-cases v (λ t. t) s) [
    | inl (w, q) ↦ rw q (inl refl)
    | inr (w, n, q) ↦ rw q (
        subst
          (λ u.
            Ran (IsQuorum id d s.tables u) s
              (locked v (get s.tables.requests id) id d (record s { world = w })).1)
          n (locked-Ran id d (record s { world = w }) (get s.tables.requests id) refl))
  ]

  -- The checks that a vote has passed.
  pub record IsPermitted (id : String) (d : Decision) (role : String) (t : Tables) : Type 0 where
    pub pre : Request
    pub read : get t.requests id ≡ some pre
    pub verified : d.mfa_verified ≡ true
    pub four_eyes : d.approver == pre.requested_by ≡ false
    pub holds : role == (resolve_policy t.policies pre.action_kind).approver_role ≡ true

  permitted-cases :
      (o : Option Request) (d : Decision)
      → ((e : GoError) × (permitted v o d ≡ err e))
        ⊎ ((pre : Request) × (o ≡ some pre)
            × (d.mfa_verified ≡ true)
            × (d.approver == pre.requested_by ≡ false)
            × (permitted v o d ≡ ok pre))
  unfolding permitted
  permitted-cases none d = inl (not_found, refl)
  permitted-cases (some pre) d = elim (Bool-cases d.mfa_verified) [
    | inr m ↦ inl (mfa_required, rw m refl)
    | inl m ↦ elim (Bool-cases (d.approver == pre.requested_by)) [
      | inl f ↦ inl (four_eyes, rw (m, f) refl)
      | inr f ↦ inr (pre, refl, m, f, rw (m, f) refl)
    ]
  ]

  abbrev read : State W → Done W (Unit {0})
  read s = transaction v (λ s'. sql v (λ t. t) s') s

  -- The reads between the steps of `decide` leave the tables and the runs alone.
  read-cases :
      (s : State W)
      → ((e : GoError) × (w : W) × (read s ≡ (err e, record s { world = w })))
        ⊎ ((w : W) × (w ≡ after_statements v 3 s.world)
            × (read s ≡ (ok tt, record s { world = w })))
  read-cases s = elim (transaction-cases v (λ s'. sql v (λ t. t) s') s) [
    | inl (w, q) ↦ inl (sql_error, w, q)
    | inr (w0, n, inl (e, w, q)) ↦ elim (sql-cases v (λ t. t) (record s { world = w0 })) [
      | inl (w', r) ↦ inl (e, w, rw r at q)
      | inr (w', m, r) ↦ inl (e, w, rw r at q)
    ]
    | inr (w0, n, inr (w, m, u, q)) ↦ elim (sql-cases v (λ t. t) (record s { world = w0 })) [
      | inl (w', r) ↦ absurd (ground (arith, rw r at u))
      | inr (w', l, r) ↦ inr (
        w,
        (rw r at m) ∙ ap (λ x. (v.sql_ok x).1) l ∙ ap (λ x. (v.sql_ok (v.sql_ok x).1).1) n,
        rw r at q,
      )
    ]
  ]

  -- The transaction of a vote.
  vote_tx-Ran :
      (id : String) (d : Decision) (s : State W)
      → Ran
          (IsQuorum id d s.tables (after_statements v 2 s.world))
          s
          (transaction v (decide_tx v id d) s).1
        × (((e : GoError) × ((transaction v (decide_tx v id d) s).0 ≡ err e)
              × ((transaction v (decide_tx v id d) s).1.tables ≡ s.tables))
            ⊎ ((transaction v (decide_tx v id d) s).0 ≡ ok tt))
  vote_tx-Ran id d s = elim (transaction-cases v (decide_tx v id d) s) [
    | inl (w, q) ↦ rw q (inl refl, inl (sql_error, refl, refl))
    | inr (w0, n, inl (e, w, q)) ↦ rw q (at_start w0 n, inl (e, refl, refl))
    | inr (w0, n, inr (w, m, u, q)) ↦ rw q (at_start w0 n, inr refl)
  ]
    where
      at_start :
          (w0 : W)
          → w0 ≡ (v.sql_ok s.world).1
          → Ran
              (IsQuorum id d s.tables (after_statements v 2 s.world))
              s
              (decide_tx v id d (record s { world = w0 })).1
      at_start w0 n =
          subst
            (λ u.
              Ran (IsQuorum id d s.tables (after_statements v 1 u)) s
                (decide_tx v id d (record s { world = w0 })).1)
            n (decide_tx-Ran id d (record s { world = w0 }))

  get_request-cases :
      (id : String) (s : State W)
      → let out = get_request v id s in
        (out.1.runs ≡ s.runs)
        × (out.1.tables ≡ s.tables)
        × (((e : GoError) × (out.0 ≡ err e))
            ⊎ ((r : Request) × (out.0 ≡ ok r) × (get out.1.tables.requests id ≡ some r)))
  unfolding get_request bind
  get_request-cases id s = elim (read-cases s) [
    | inl (e, w, q) ↦ rw q (refl, refl, inl (e, refl))
    | inr (w, n, q) ↦ elim (Option-cases (get s.tables.requests id)) [
      | inl k ↦ rw (q, k) (refl, refl, inl (not_found, refl))
      | inr (r, k) ↦ rw (q, k) (refl, refl, inr (r, refl, k))
    ]
  ]

  -- An error with the tables from before; or the tables of the vote's transaction, which was
  -- committed, and the request as it is stored there or an error of reading it.
  abbrev pub EndsWith : String → State W → Done W (Unit {0}) → Done W Request → Type 0
  EndsWith id s voted out =
      ((e : GoError) × (out.0 ≡ err e) × (out.1.tables ≡ s.tables))
      ⊎ ((voted.0 ≡ ok tt)
          × (out.1.tables ≡ voted.1.tables)
          × (((e : GoError) × (out.0 ≡ err e))
              ⊎ ((r : Request) × (out.0 ≡ ok r) × (get out.1.tables.requests id ≡ some r))))

  voted-Ran :
      (id : String) (d : Decision) (s : State W)
      → let voted = transaction v (decide_tx v id d) s in
        let out = bind voted (λ _ s'. get_request v id s') in
        Ran (IsQuorum id d s.tables (after_statements v 2 s.world)) s out.1
        × EndsWith id s voted out
  unfolding bind
  voted-Ran id d s =
      let (ran, ends) = vote_tx-Ran id d s in
      elim ends [
        | inl (e, q, same) ↦ rw q (ran, inl (e, refl, same))
        | inr q ↦
            let (runs, tables, snapshot) =
              get_request-cases id (transaction v (decide_tx v id d) s).1 in
            rw q (
              elim ran [ inl k ↦ inl (runs ∙ k) | inr (run, k, why) ↦ inr (run, runs ∙ k, why) ],
              inr (refl, tables, snapshot),
            )
      ]

  with_reason :
      {P Q : Run → Type 0} {X : Type 0} (out s : State W)
      → ((run : Run) → P run → Q run)
      → Ran P s out × X
      → Ran Q s out × X
  with_reason out s f (inl k, x) = (inl k, x)
  with_reason out s f (inr (run, k, p), x) = (inr (run, k, f run p), x)

  -- A vote runs no executor unless it is permitted and completes a quorum, and then it runs that of
  -- its request, once, with the pinned payload. Permitted: verified by a second factor, by the role
  -- of the policy, and not the requester's own; a quorum: the request was pending, in time at the
  -- clock as the vote read it, and the votes for it, this one included, are as many as it wants. A
  -- vote that ends in an error leaves the tables as they were, unless it was committed and only the
  -- read of the request afterwards failed; else it returns the request as it is then stored.
  pub decide-Ran :
      (id : String) (d : Decision) (role : String) (s : State W)
      → let out = decide v id d role s in
        Ran
          (λ run.
            IsPermitted id d role s.tables
            × IsQuorum id d s.tables (after_statements v 8 s.world) run)
          s
          out.1
        × EndsWith id s
            (transaction v (decide_tx v id d) (record s { world = after_statements v 6 s.world }))
            out
  unfolding decide bind holds_role
  decide-Ran id d role s = elim (read-cases s) [
    | inl (e, w, q) ↦ rw q (inl refl, inl (e, refl, refl))
    | inr (w, n, q) ↦ elim (permitted-cases (get s.tables.requests id) d) [
      | inl (e, p) ↦ rw (q, p) (inl refl, inl (e, refl, refl))
      | inr (pre, found, m, f, p) ↦ elim (read-cases (record s { world = w })) [
        | inl (e, w', q') ↦ rw (q, p, q') (inl refl, inl (e, refl, refl))
        | inr (w', n', q') ↦
            elim (Bool-cases
              (role == (resolve_policy s.tables.policies pre.action_kind).approver_role)) [
                | inr other_role ↦
                    rw (q, p, q', other_role) (inl refl, inl (approver_role_error, refl, refl))
                | inl holds ↦
                    let there : w' ≡ after_statements v 6 s.world =
                      n' ∙ ap (after_statements v 3) n in
                    let why : IsPermitted id d role s.tables = record {
                      pre = pre;
                      read = found;
                      verified = m;
                      four_eyes = f;
                      holds = holds;
                    } in
                    let s' : State W = record s { world = after_statements v 6 s.world } in
                    let out =
                      bind (transaction v (decide_tx v id d) s') (λ _ k. get_request v id k) in
                    rw (q, p, q', holds, there)
                      (with_reason out.1 s (λ run quorum. (why, quorum)) (voted-Ran id d s'))
              ]
      ]
    ]
  ]
