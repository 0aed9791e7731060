-- ===== src/Store/Postgres/Calls.antt =====
-- The methods of internal/pgstore/store.go as calls.
use waterfall.Tenant.{Context}
use waterfall.Store.Isolation.{
  Operation, op_lookup, op_record, op_reserve, op_release, op_committed, op_append, op_current,
  op_history, Reply, found, done, credits, best, observations,
}
use waterfall.Store.Postgres.Tables.{Columns, Tables, Connection}
use waterfall.Store.Postgres.Ledgers.{
  lookup_sql, record_sql, reserve_sql, release_sql, committed_sql,
}
use waterfall.Store.Postgres.Versions.{append_sql, current_sql, history_sql}

module _ {C : Type 0} (lib : Columns C) where
  abbrev replied : {A : Type 0} → (A → Reply C) → A × Tables C → Reply C × Tables C
  replied f r = (f r.0, r.1)

  -- One method call.
  unfoldable pub perform_sql : Connection → Context → Operation C → Tables C → Reply C × Tables C
  perform_sql c ctx (op_lookup key) s = replied found (lookup_sql lib c ctx key s)
  perform_sql c ctx (op_record key res) s = replied done (record_sql lib c ctx key res s)
  perform_sql c ctx (op_reserve job amount ceiling) s =
      replied credits (reserve_sql c ctx job amount ceiling s)
  perform_sql c ctx (op_release job amount) s = replied done (release_sql c ctx job amount s)
  perform_sql c ctx (op_committed job) s = replied credits (committed_sql c ctx job s)
  perform_sql c ctx (op_append subject v) s = replied done (append_sql lib c ctx subject v s)
  perform_sql c ctx (op_current subject) s = replied best (current_sql lib c ctx subject s)
  perform_sql c ctx (op_history subject f) s =
      replied observations (history_sql lib c ctx subject f s)
