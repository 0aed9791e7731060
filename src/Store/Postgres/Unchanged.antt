-- ===== src/Store/Postgres/Unchanged.antt =====
-- How a transaction of internal/pgstore/store.go ends, and how its connection goes back.
use waterfall.Prelude.{String, ◌≡◌, refl, ◌⊎◌, inl, inr, true, false, none, some}
use waterfall.Domain.Errors.{GoError, Result, Result-cases, ok, err}
use waterfall.Tenant.{Context, tenant_id}
use waterfall.Store.Postgres.Tables.{
  Tables, Connection, Session, idle, broken_off, end_tx, after_begin, on_connection, tx_on,
}

module _ {C A : Type 0} (c : Connection) (s : Tables C) (rolls : c.rollback ≡ ok tt) where
  -- An error with the tables as they were, and a connection that has no transaction open on it or is
  -- not used again.
  abbrev pub IsUndone : Result A × Session C → Type 0
  IsUndone (r, x) =
      ((e : GoError) × (r ≡ err e)) × (x.stored ≡ s) × ((x.open_tx ≡ none) ⊎ (x.broken ≡ true))

  -- The result of the body with its tables stored, and a connection that is fit for use.
  abbrev pub IsCommitted : Result A × Tables C → Result A × Session C → Type 0
  IsCommitted body out =
      ((a : A) × (body.0 ≡ ok a))
      × (out ≡ (body.0, record { stored = body.1; open_tx = none; broken = false }))

  end_tx-ends :
      (r : Result A) (s' : Tables C)
      → let x : Session C = record { stored = s; open_tx = some s'; broken = false } in
        IsUndone (end_tx c r x) ⊎ IsCommitted (r, s') (end_tx c r x)
  unfolding end_tx
  end_tx-ends (err e) s' = rw rolls (inl ((e, refl), refl, inl refl))
  end_tx-ends (ok a) s' = elim (Result-cases c.commit) [
    | inl (e, q) ↦ rw q (inl ((e, refl), refl, inr refl))
    | inr (u, q) ↦ rw q (inr ((a, refl), refl))
  ]

  after_begin-ends :
      (fn : Tables C → Result A × Tables C)
      → IsUndone (after_begin c c.begin fn (idle s))
        ⊎ IsCommitted (fn s) (after_begin c c.begin fn (idle s))
  unfolding after_begin broken_off
  after_begin-ends fn = elim (Result-cases c.begin) [
    | inl (e, q) ↦ rw q (inl ((e, refl), refl, inl refl))
    | inr (u, q) ↦ elim (Result-cases c.bind) [
      | inl (e, k) ↦ rw (q, k, rolls) (inl ((e, refl), refl, inl refl))
      | inr (u', k) ↦ elim (Result-cases c.statement) [
        | inl (e, l) ↦ rw (q, k, l, rolls) (inl ((e, refl), refl, inl refl))
        | inr (u'', l) ↦ rw (q, k, l) (end_tx-ends (fn s).0 (fn s).1)
      ]
    ]
  ]

  -- A transaction of the store, whatever its body does and wherever it breaks off: it commits what
  -- the body did and returns its result, for the caller's tenant; or it returns an error, the tables
  -- are as they were, and the connection goes back without an open transaction or as broken. A
  -- rollback is taken to work, and a commit that fails to have stored nothing.
  pub tx_on-ends :
      (ctx : Context) (fn : String → Tables C → Result A × Tables C)
      → IsUndone (tx_on c ctx fn s)
        ⊎ ((t : String) × (tenant_id ctx ≡ ok t) × IsCommitted (fn t s) (tx_on c ctx fn s))
  unfolding tx_on on_connection
  tx_on-ends ctx fn = elim (Result-cases (tenant_id ctx)) [
    | inl (e, q) ↦ rw q (inl ((e, refl), refl, inl refl))
    | inr (t, q) ↦ elim (Result-cases c.pool) [
      | inl (e, k) ↦ rw (q, k) (inl ((e, refl), refl, inl refl))
      | inr (u, k) ↦ elim (after_begin-ends (fn t)) [
        | inl h ↦ rw (q, k) (inl h)
        | inr h ↦ rw (q, k) (inr (t, refl, h))
      ]
    ]
  ]
