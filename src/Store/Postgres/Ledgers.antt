-- ===== src/Store/Postgres/Ledgers.antt =====
-- The idempotency ledger and the cost ledger of internal/pgstore/store.go.
use waterfall.Prelude.{
  ◌+ℤ◌, ◌-ℤ◌, pos, ltb_ℤ, String, not, Option, none, some, get2, put2, or_else, if◌then◌else◌,
}
use waterfall.Domain.Errors.{Result, ok, err, ceiling_exceeded, and_then}
use waterfall.Domain.Fields.{Credits}
use waterfall.Domain.Values.{Values}
use waterfall.Tenant.{Context}
use waterfall.Store.Postgres.Tables.{
  Columns, Tables, Connection, out_of_range, check_violation, fits_bigint, tx,
}

module _ {C : Type 0} where
  unfoldable pub spend_of : Tables C → String → String → Credits
  spend_of s t job = or_else (pos 0) (get2 s.spends t job)

  -- `Committed`.
  unfoldable pub committed_sql :
      Connection → Context → String → Tables C → Result Credits × Tables C
  unfolding tx spend_of
  committed_sql c ctx job s = tx c ctx (λ t s'. (ok (spend_of s' t job), s')) s

  -- The row of the job is there, with a spend of 0 if it is new.
  unfoldable pub ensure_row : Option Credits → String → String → Tables C → Tables C
  ensure_row (some n) t job s = s
  ensure_row none t job s = record s { spends = put2 s.spends t job (pos 0) }

  -- `update … where committed + $2 <= $3`, under the checks of the column.
  unfoldable pub guarded_add :
      String → String → Credits → Credits → Tables C → Result Credits × Tables C
  unfolding spend_of
  guarded_add t job amount ceiling s =
      let total = spend_of s t job +ℤ amount in
      if not (fits_bigint total)
      then (err out_of_range, s)
      else if ltb_ℤ ceiling total
      then (err ceiling_exceeded, s)
      else if ltb_ℤ total (pos 0)
      then (err check_violation, s)
      else (ok total, record s { spends = put2 s.spends t job total })

  -- `Reserve`.
  unfoldable pub reserve_sql :
      Connection → Context → String → Credits → Credits → Tables C → Result Credits × Tables C
  unfolding tx ensure_row guarded_add
  reserve_sql c ctx job amount ceiling s =
      tx c ctx
        (λ t s'. guarded_add t job amount ceiling (ensure_row (get2 s'.spends t job) t job s')) s

  -- `update … set committed = greatest(0, committed - $2)`.
  unfoldable pub refunded :
      Option Credits → String → String → Credits → Tables C → Result (Unit {0}) × Tables C
  refunded none t job amount s = (ok tt, s)
  refunded (some n) t job amount s =
      let rest = n -ℤ amount in
      if fits_bigint rest
      then (
        ok tt,
        record s { spends = put2 s.spends t job (if ltb_ℤ rest (pos 0) then pos 0 else rest) },
      )
      else (err out_of_range, s)

  -- `Release`.
  unfoldable pub release_sql :
      Connection → Context → String → Credits → Tables C → Result (Unit {0}) × Tables C
  unfolding tx refunded
  release_sql c ctx job amount s =
      tx c ctx (λ t s'. refunded (get2 s'.spends t job) t job amount s') s

module _ {C : Type 0} (lib : Columns C) where
  -- What a row of the ledger says.
  unfoldable pub read_result : Option String → Result (Option (Values C))
  read_result none = ok none
  read_result (some text) = and_then (lib.unmarshal text) (λ res. ok (some res))

  -- `Lookup`.
  unfoldable pub lookup_sql :
      Connection → Context → String → Tables C → Result (Option (Values C)) × Tables C
  unfolding tx read_result
  lookup_sql c ctx key s = tx c ctx (λ t s'. (read_result (get2 s'.results t key), s')) s

  -- `on conflict do nothing`.
  unfoldable pub insert_result : Option String → String → String → String → Tables C → Tables C
  insert_result (some old) t key text s = s
  insert_result none t key text s = record s { results = put2 s.results t key (lib.jsonb text) }

  unfoldable pub with_payload :
      Result String → Connection → Context → String → Tables C → Result (Unit {0}) × Tables C
  unfolding tx insert_result
  with_payload (err e) c ctx key s = (err e, s)
  with_payload (ok text) c ctx key s =
      tx c ctx (λ t s'. (ok tt, insert_result (get2 s'.results t key) t key text s')) s

  -- `Record`.
  unfoldable pub record_sql :
      Connection → Context → String → Values C → Tables C → Result (Unit {0}) × Tables C
  unfolding with_payload
  record_sql c ctx key res s = with_payload (lib.marshal res) c ctx key s
