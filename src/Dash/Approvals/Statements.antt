-- ===== src/Dash/Approvals/Statements.antt =====
-- How the steps of internal/dash/approvals/service.go end, and which executors they run.
use waterfall.Prelude.{
  ℕ, zero, suc, ◌≡◌, refl, ◌∙◌, ◌⊎◌, inl, inr, String, Bool, false, [], ◌∷◌, ◌++◌, Bool-cases,
  Option-cases,
}
use waterfall.Domain.Errors.{GoError, Result-cases, ok, err}
use waterfall.Dash.Approvals.Tables.{Request, Tables}
use waterfall.Dash.Approvals.Decide.{
  Services, Run, State, Done, recorded, bind, sql_error, sql, audit, transaction, execute_locked,
}

module _ {W : Type 0} where
  -- An action that ran no executor, or ran one once, for a reason.
  abbrev pub Ran : (Run → Type 0) → State W → State W → Type 0
  Ran P s out = (out.runs ≡ s.runs) ⊎ ((run : Run) × (out.runs ≡ s.runs ++ run ∷ []) × P run)

-- The run of the executor for a request, with what the request has pinned.
abbrev pub pinned : String → Request → Run
pinned id r = record { kind = r.action_kind; request = id; payload = r.payload }

module _ {W : Type 0} (v : Services W) where
  -- The world after so many statements.
  abbrev pub after_statements : ℕ → W → W
  after_statements zero w = w
  after_statements (suc n) w = after_statements n (v.sql_ok w).1

  -- How a statement ends.
  pub sql-cases :
      (change : Tables → Tables) (s : State W)
      → ((w : W) × (sql v change s ≡ (err sql_error, record s { world = w })))
        ⊎ ((w : W) × (w ≡ (v.sql_ok s.world).1)
            × (sql v change s ≡ (ok tt, record s { world = w; tables = change s.tables })))
  unfolding sql bind
  sql-cases change s = elim (Bool-cases (v.sql_ok s.world).0) [
    | inl e ↦ inr ((v.sql_ok s.world).1, refl, rw e refl)
    | inr e ↦ inl ((v.sql_ok s.world).1, rw e refl)
  ]

  pub audit-cases :
      (action : String) (s : State W)
      → ((w : W) × (audit v action s ≡ (err sql_error, record s { world = w })))
        ⊎ ((w : W) × (audit v action s ≡ (ok tt, record s { world = w })))
  unfolding audit
  audit-cases action s = elim (Bool-cases (v.audit_ok action s.world).0) [
    | inl e ↦ inr ((v.audit_ok action s.world).1, rw e refl)
    | inr e ↦ inl ((v.audit_ok action s.world).1, rw e refl)
  ]

  -- How a transaction ends: before its body, rolled back, or with the tables of its body.
  pub transaction-cases :
      (body : State W → Done W (Unit {0})) (s : State W)
      → ((w : W) × (transaction v body s ≡ (err sql_error, record s { world = w })))
        ⊎ ((w0 : W) × (w0 ≡ (v.sql_ok s.world).1)
            × (((e : GoError) × (w : W) × (transaction v body s ≡ (
              err e,
              record (body (record s { world = w0 })).1 { world = w; tables = s.tables },
            )))
                ⊎ ((w : W) × (w ≡ (v.sql_ok (body (record s { world = w0 })).1.world).1)
                    × ((body (record s { world = w0 })).0 ≡ ok tt)
                    × (transaction v body s
                        ≡ (ok tt, record (body (record s { world = w0 })).1 { world = w })))))
  unfolding transaction bind
  transaction-cases body s = elim (sql-cases (λ t. t) s) [
    | inl (w, b) ↦ inl (w, rw b refl)
    | inr (w0, n, b) ↦
        let s' : State W = record s { world = w0 } in
        inr (
          w0,
          n,
          elim (Result-cases (body s').0) [
            | inl (e, q) ↦ inl (e, (body s').1.world, rw (b, q) refl)
            | inr (u, q) ↦ elim (sql-cases (λ t. t) (body s').1) [
              | inl (w, r) ↦ inl (sql_error, w, rw (b, q, r) refl)
              | inr (w, m, r) ↦ inr (w, m, q, rw (b, q, r) refl)
            ]
          ],
        )
  ]

  pub sql-runs : (change : Tables → Tables) (s : State W) → (sql v change s).1.runs ≡ s.runs
  sql-runs change s = elim (sql-cases change s) [
    | inl (w, q) ↦ rw q refl
    | inr (w, n, q) ↦ rw q refl
  ]

  pub audit-runs : (action : String) (s : State W) → (audit v action s).1.runs ≡ s.runs
  audit-runs action s = elim (audit-cases action s) [
    | inl (w, q) ↦ rw q refl
    | inr (w, q) ↦ rw q refl
  ]

  pub bind-runs :
      {A B : Type 0} (d : Done W A) (k : A → State W → Done W B)
      → ((a : A) → d.0 ≡ ok a → (k a d.1).1.runs ≡ d.1.runs)
      → (bind d k).1.runs ≡ d.1.runs
  unfolding bind
  bind-runs (err e, s) k h = refl
  bind-runs (ok a, s) k h = h a refl

  recorded-runs :
      (id : String) (works : Bool) (s : State W) → (recorded v id works s).1.runs ≡ s.runs
  unfolding recorded
  recorded-runs id works s =
      bind-runs (audit v "approval_execute" s) _ (λ a q. sql-runs _ _)
      ∙ audit-runs "approval_execute" s

  pub execute_locked-runs :
      (id : String) (r : Request) (s : State W)
      → ((execute_locked v id r s).1.runs ≡ s.runs)
        ⊎ ((execute_locked v id r s).1.runs ≡ s.runs ++ pinned id r ∷ [])
  unfolding execute_locked
  execute_locked-runs id r s = elim (Option-cases (v.executors r.action_kind)) [
    | inl q ↦ inl (rw q (recorded-runs id false s))
    | inr (exec, q) ↦ inr (rw q (recorded-runs id (exec id r.payload s.world).0 _))
  ]
