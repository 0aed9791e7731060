-- ===== src/Store/Postgres/Versions.antt =====
-- The field versions of internal/pgstore/store.go.
use waterfall.Prelude.{
  zero, ℕ, suc, String, ◌==◌, Bool, false, not, ◌&&◌, ◌||◌, Option, some, List, [], ◌∷◌, ◌++◌, Dict,
  put, or_else, if◌then◌else◌,
}
use waterfall.Domain.Errors.{Result, ok, err}
use waterfall.Domain.Fields.{Field}
use waterfall.Domain.Values.{Time, FieldValue, field_value_valid}
use waterfall.Tenant.{Context}
use waterfall.Store.Postgres.Tables.{
  Columns, VersionRow, Tables, Connection, check_violation, pg_invalid_field_value, tx,
}

-- The column at a place, or "" for a null or no column.
unfoldable pub column : ℕ → List (Option String) → String
column i [] = ""
column zero (x ∷ row) = or_else "" x
column (suc i) (x ∷ row) = column i row

-- `parseTS`: the first layout that fits, or the zero time.
unfoldable pub parse_ts : List (String → Option Time) → String → Time
parse_ts [] text = 0
parse_ts (layout ∷ layouts) text = or_else (parse_ts layouts text) (layout text)

unfoldable pub has_field : Field → List Field → Bool
has_field f [] = false
has_field f (g ∷ gs) = g == f || has_field f gs

module _ {C : Type 0} where
  -- The rows of a subject that a transaction of the tenant sees.
  unfoldable pub versions_of : List (VersionRow C) → String → String → List (FieldValue C)
  versions_of [] t subject = []
  versions_of (r ∷ rows) t subject =
      let rest = versions_of rows t subject in
      if r.tenant == t && r.subject == subject then r.version ∷ rest else rest

  -- Those of one field.
  unfoldable pub of_field : Field → List (FieldValue C) → List (FieldValue C)
  of_field f [] = []
  of_field f (v ∷ vs) = let rest = of_field f vs in if v.field == f then v ∷ rest else rest

  -- The first of the rows with a value of field `f`, which `distinct on (field)` keeps.
  unfoldable pub top : List (FieldValue C) → List (FieldValue C)
  top [] = []
  top (v ∷ vs) = v ∷ []

  unfoldable pub fields_of : List (FieldValue C) → List Field
  unfolding has_field
  fields_of [] = []
  fields_of (v ∷ vs) =
      let rest = fields_of vs in if has_field v.field rest then rest else v.field ∷ rest

  -- The loop over the rows of `Current`.
  unfoldable pub by_field : List (FieldValue C) → Dict (FieldValue C) → Dict (FieldValue C)
  by_field [] out = out
  by_field (v ∷ vs) out = by_field vs (put out v.field v)

module _ {C : Type 0} (lib : Columns C) where
  -- The checks of `field_versions`.
  unfoldable pub row_allowed : FieldValue C → Bool
  row_allowed v =
      lib.in_unit v.confidence
      && not (v.value == "")
      && not (v.prov.provider == "")
      && not (v.prov.idempotency_key == "")

  -- What the columns of a value hold.
  unfoldable pub stored : FieldValue C → FieldValue C
  stored v = record v { prov = record v.prov { observed_at = lib.timestamptz v.prov.observed_at } }

  unfoldable pub inserted : String → String → FieldValue C → Tables C → Tables C
  unfolding stored
  inserted t subject v s = record s {
    versions = s.versions ++ record { tenant = t; subject = subject; version = stored v } ∷ [];
  }

  -- `Append`.
  unfoldable pub append_sql :
      Connection → Context → String → FieldValue C → Tables C → Result (Unit {0}) × Tables C
  unfolding tx inserted row_allowed
  append_sql c ctx subject v s =
      if field_value_valid v
      then tx c ctx
          (λ t s'.
            if row_allowed v then (ok tt, inserted t subject v s') else (err check_violation, s'))
          s
      else (err pg_invalid_field_value, s)

  -- The columns of a row as text, in the order of the select.
  unfoldable pub columns_of : FieldValue C → List (Option String)
  columns_of v =
      some v.field
      ∷ some v.value
      ∷ some (lib.float_text v.confidence)
      ∷ some v.prov.provider
      ∷ some (lib.int_text v.prov.cost_credits)
      ∷ some (lib.float_text v.prov.confidence)
      ∷ some v.prov.idempotency_key
      ∷ some (lib.time_text v.prov.observed_at)
      ∷ []

  -- `scanFieldValue`.
  unfoldable pub scan_field_value : List (Option String) → FieldValue C
  unfolding column parse_ts
  scan_field_value row = record {
    field = column 0 row;
    value = column 1 row;
    confidence = lib.parse_float (column 2 row);
    prov = record {
      provider = column 3 row;
      cost_credits = lib.parse_int (column 4 row);
      confidence = lib.parse_float (column 5 row);
      idempotency_key = column 6 row;
      observed_at = parse_ts lib.parse_layouts (column 7 row);
    };
  }

  unfoldable pub scan_all : List (FieldValue C) → List (FieldValue C)
  unfolding scan_field_value columns_of
  scan_all [] = []
  scan_all (v ∷ vs) = scan_field_value (columns_of v) ∷ scan_all vs

  -- `History`.
  unfoldable pub history_sql :
      Connection → Context → String → Field → Tables C → Result (List (FieldValue C)) × Tables C
  unfolding tx scan_all of_field versions_of
  history_sql c ctx subject f s =
      tx c ctx
        (λ t s'.
          (ok (scan_all (lib.by_confidence (of_field f (versions_of s'.versions t subject)))), s'))
        s

  unfoldable pub distinct_on_field : List Field → List (FieldValue C) → List (FieldValue C)
  unfolding top of_field
  distinct_on_field [] rows = []
  distinct_on_field (f ∷ fs) rows =
      top (lib.by_confidence (of_field f rows)) ++ distinct_on_field fs rows

  unfoldable pub current_rows : List (FieldValue C) → Dict (FieldValue C)
  unfolding by_field scan_all distinct_on_field fields_of
  current_rows rows = by_field (scan_all (distinct_on_field (fields_of rows) rows)) []

  -- `Current`.
  unfoldable pub current_sql :
      Connection → Context → String → Tables C → Result (Dict (FieldValue C)) × Tables C
  unfolding tx current_rows versions_of
  current_sql c ctx subject s =
      tx c ctx (λ t s'. (ok (current_rows (versions_of s'.versions t subject)), s')) s
