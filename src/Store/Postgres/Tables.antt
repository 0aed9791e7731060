-- ===== src/Store/Postgres/Tables.antt =====
-- The tables of migrations/0001_init.sql and `tx` of internal/pgstore/store.go.
use waterfall.Prelude.{
  ◌^◌, ℤ, pos_part, neg_part, ltb, leb, String, Bool, true, false, ◌&&◌, Option, none, some, List,
  Dict,
}
use waterfall.Domain.Errors.{GoError, other, Result, ok, err}
use waterfall.Domain.Fields.{Credits}
use waterfall.Domain.Values.{Time, FieldValue, Values}
use waterfall.Tenant.{Context, tenant_id}

-- What is used of encoding/json, of strconv and time, and of the database: what a column gives
-- back as text, its check of a confidence, and its order of rows.
pub record Columns (C : Type 0) : Type 0 where
  pub marshal : Values C → Result String
  pub unmarshal : String → Result (Values C)
  pub jsonb : String → String
  pub float_text : C → String
  pub parse_float : String → C
  pub int_text : Credits → String
  pub parse_int : String → Credits
  pub timestamptz : Time → Time
  pub time_text : Time → String
  pub parse_layouts : List (String → Option Time)
  pub in_unit : C → Bool
  pub by_confidence : List (FieldValue C) → List (FieldValue C)

-- A row of `field_versions`.
pub record VersionRow (C : Type 0) : Type 0 where
  pub tenant : String
  pub subject : String
  pub version : FieldValue C

-- The tables of migrations/0001_init.sql; those with a primary key are maps.
pub record Tables (C : Type 0) : Type 0 where
  pub results : Dict (Dict String)
  pub spends : Dict (Dict Credits)
  pub versions : List (VersionRow C)

-- How far the connection of a transaction carries: each step passes or ends in an error;
-- `statement` is about those of the body.
pub record Connection : Type 0 where
  pub pool : Result (Unit {0})
  pub begin : Result (Unit {0})
  pub bind : Result (Unit {0})
  pub statement : Result (Unit {0})
  pub rollback : Result (Unit {0})
  pub commit : Result (Unit {0})

abbrev pub out_of_range : GoError
out_of_range = other "bigint out of range"

abbrev pub check_violation : GoError
check_violation = other "new row violates check constraint"

abbrev pub pg_invalid_field_value : GoError
pg_invalid_field_value =
    other "pgstore: field value fails G5 validity (missing value or provenance)"

-- A `bigint` that is the result of an addition or a subtraction.
abbrev pub fits_bigint : ℤ → Bool
fits_bigint a = ltb (pos_part a) (2 ^ 63) && leb (neg_part a) (2 ^ 63)

-- The stored tables, those of the transaction that is open on the connection, and what `Put` is told
-- of the connection.
pub record Session (C : Type 0) : Type 0 where
  pub stored : Tables C
  pub open_tx : Option (Tables C)
  pub broken : Bool

-- A body that a failing statement broke off; what it did before stays in the transaction.
unfoldable pub broken_off : {A : Type 0} → Result (Unit {0}) → Result A → Result A
broken_off (err e) r = err e
broken_off (ok u) r = r

module _ {C : Type 0} where
  abbrev pub idle : Tables C → Session C
  idle s = record { stored = s; open_tx = none; broken = false }

  -- `rollback`, whose error is dropped.
  unfoldable pub roll_back : Result (Unit {0}) → Session C → Session C
  roll_back (err e) x = x
  roll_back (ok u) x = record x { open_tx = none }

  commit_open : Option (Tables C) → Session C → Session C
  commit_open none x = x
  commit_open (some s) x = record x { stored = s; open_tx = none }

  module _ {A : Type 0} where
    unfoldable pub commit_with : Result (Unit {0}) → A → Session C → Result A × Session C
    unfolding commit_open
    commit_with (err e) a x = (err e, record x { broken = true })
    commit_with (ok u) a x = (ok a, commit_open x.open_tx x)

    -- After the body, which has left its tables in the open transaction.
    unfoldable pub end_tx : Connection → Result A → Session C → Result A × Session C
    unfolding roll_back commit_with
    end_tx c (err e) x = (err e, roll_back c.rollback x)
    end_tx c (ok a) x = commit_with c.commit a x

    unfoldable pub bound :
        Connection
        → Result (Unit {0})
        → (Tables C → Result A × Tables C)
        → Session C
        → Result A × Session C
    unfolding roll_back end_tx broken_off
    bound c (err e) fn x = (err e, roll_back c.rollback x)
    bound c (ok u) fn x =
        let (r, s) = fn x.stored in
        end_tx c (broken_off c.statement r) (record x { open_tx = some s })

    unfoldable pub after_begin :
        Connection
        → Result (Unit {0})
        → (Tables C → Result A × Tables C)
        → Session C
        → Result A × Session C
    unfolding bound
    after_begin c (err e) fn x = (err e, record x { broken = true })
    after_begin c (ok u) fn x = bound c c.bind fn (record x { open_tx = some x.stored })

    unfoldable pub on_connection :
        Connection
        → Result (Unit {0})
        → (Tables C → Result A × Tables C)
        → Session C
        → Result A × Session C
    unfolding after_begin
    on_connection c (err e) fn x = (err e, x)
    on_connection c (ok u) fn x = after_begin c c.begin fn x

    unfoldable pub for_tenant :
        Connection
        → Result String
        → (String → Tables C → Result A × Tables C)
        → Session C
        → Result A × Session C
    unfolding on_connection
    for_tenant c (err e) fn x = (err e, x)
    for_tenant c (ok t) fn x = on_connection c c.pool (fn t) x

    -- `tx`, with the connection that goes back to the pool.
    unfoldable pub tx_on :
        Connection
        → Context
        → (String → Tables C → Result A × Tables C)
        → Tables C
        → Result A × Session C
    unfolding for_tenant
    tx_on c ctx fn s = for_tenant c (tenant_id ctx) fn (idle s)

    -- `tx`, with the tables that are stored afterwards.
    unfoldable pub tx :
        Connection
        → Context
        → (String → Tables C → Result A × Tables C)
        → Tables C
        → Result A × Tables C
    unfolding tx_on
    tx c ctx fn s = let (r, x) = tx_on c ctx fn s in (r, x.stored)
