-- ===== src/Examples/Tables.antt =====
-- The theorems on internal/pgstore/store.go, applied.
use Prim.Native.String.{len}
use Prim.Native.String.len
use waterfall.Prelude.{
  ℕ, zero, suc, ◌+◌, ◌*◌, ◌/◌, ◌%◌, eqb, ltb, leb, ℤ, pos, negsuc, String, ◌≡◌, refl, ap, ◌∙◌, true,
  Option, none, some, List, [], ◌∷◌, arith, sort_by, sort_by-Permᴰ, sort_by-IsSorted, Bool, ◌⊎◌,
  IsWeakOrder, if◌then◌else◌,
}
use waterfall.Domain.Errors.{other, Result, ok, err}
use waterfall.Domain.Values.{FieldValue, Values}
use waterfall.Store.Memory.{Memory, new_memory}
use waterfall.Store.Memory.Best.{IsOrder}
use waterfall.Store.Isolation.{perform, op_append}
use waterfall.Store.Postgres.Tables.{Columns, Tables, Connection, tx_on}
use waterfall.Store.Postgres.Calls.{perform_sql}
use waterfall.Store.Postgres.Rows.{IsColumnar}
use waterfall.Store.Postgres.Refined.{IsRefined}
use waterfall.Store.Postgres.Agreed.{sound}
use waterfall.Store.Postgres.Refines.{Agrees, perform_sql-Refines}
use waterfall.Store.Postgres.Unchanged.{IsUndone, IsCommitted, tx_on-ends}
use waterfall.Tenant.{tenant_id}
use waterfall.Examples.Data.{as_tenant, email_value}

-- A number as so many strokes.
strokes : ℕ → String
strokes zero = ""
strokes (suc n) = String.◌∷◌ "x" (strokes n)

len-strokes : (n : ℕ) → len (strokes n) ≡ n
unfolding strokes
len-strokes zero = refl
len-strokes (suc n) = len.cons "x" (strokes n) ∙ omega (arith, len-strokes n)

-- Even numbers for those from 0 on, odd ones for the others.
coded : ℤ → ℕ
coded (pos n) = 2 * n
coded (negsuc n) = 2 * n + 1

decoded : ℕ → ℤ
decoded n = if eqb (n % 2) 0 then pos (n / 2) else negsuc (n / 2)

decoded-coded : (a : ℤ) → decoded (coded a) ≡ a
unfolding decoded coded
decoded-coded (pos n) = ground arith
decoded-coded (negsuc n) = ground arith

marshal_empty : Values ℕ → Result String
marshal_empty [] = ok "{}"
marshal_empty (v ∷ vs) = err (other "json: too long")

abbrev falls_before : FieldValue ℕ → FieldValue ℕ → Bool
falls_before v w = ltb w.confidence v.confidence

abbrev columns : Columns ℕ
columns = record {
  marshal = marshal_empty;
  unmarshal = λ text. ok [];
  jsonb = λ text. text;
  float_text = strokes;
  parse_float = len;
  int_text = λ a. strokes (coded a);
  parse_int = λ text. decoded (len text);
  timestamptz = λ t. t / 1000 * 1000;
  time_text = strokes;
  parse_layouts = (λ text. some (len text)) ∷ [];
  in_unit = λ c. leb c 100;
  by_confidence = sort_by falls_before;
}

falls_before-IsWeakOrder : IsWeakOrder falls_before
falls_before-IsWeakOrder = record {
  asymmetric = λ a b h. ground (arith, h);
  transitive = λ a b c h k. ground (arith, h, k);
}

marshal_empty-json : (res : Values ℕ) (text : String) → marshal_empty res ≡ ok text → ok [] ≡ ok res
unfolding marshal_empty
marshal_empty-json [] text h = refl
marshal_empty-json (v ∷ vs) text h = absurd (ground (arith, h))

columns-IsColumnar : IsColumnar ltb columns
unfolding waterfall.Store.Postgres.Versions.parse_ts
columns-IsColumnar = record {
  json = marshal_empty-json;
  floats = len-strokes;
  ints = λ a. ap decoded (len-strokes (coded a)) ∙ decoded-coded a;
  times = λ t. len-strokes (t / 1000 * 1000);
  rearranged = sort_by-Permᴰ falls_before;
  falling = sort_by-IsSorted falls_before falls_before-IsWeakOrder;
}

ltb-IsOrder : IsOrder ltb
ltb-IsOrder = record {
  irreflexive = λ a. ground arith;
  transitive = λ a b c h k. ground (arith, h, k);
  cotransitive = λ a b c h k. ground (arith, h, k);
}

abbrev no_rows : Tables ℕ
no_rows = record { results = []; spends = []; versions = [] }

no_rows-IsRefined : IsRefined columns new_memory no_rows
unfolding waterfall.Store.Postgres.Ledgers.read_result waterfall.Prelude.get
    waterfall.Store.Memory.committed_of waterfall.Store.Postgres.Ledgers.spend_of
    waterfall.Store.Memory.history_of waterfall.Store.Postgres.Versions.of_field
    waterfall.Store.Postgres.Versions.versions_of
no_rows-IsRefined = record {
  results = λ t key. refl;
  spends = λ t job. refl;
  bounded = λ t job. ground arith;
  versions = λ t subject f. refl;
}

perform_sql-Refines_example :
    Agrees ltb columns new_memory "t1"
      (op_append "person" email_value)
      (perform ltb (as_tenant "t1") (op_append "person" email_value) new_memory).0
      (perform_sql columns sound (as_tenant "t1") (op_append "person" email_value) no_rows).0
    × IsRefined columns
        (perform ltb (as_tenant "t1") (op_append "person" email_value) new_memory).1
        (perform_sql columns sound (as_tenant "t1") (op_append "person" email_value) no_rows).1
unfolding waterfall.Tenant.tenant_id
perform_sql-Refines_example =
    perform_sql-Refines ltb columns ltb-IsOrder columns-IsColumnar (as_tenant "t1") "t1" refl
      (op_append "person" email_value) new_memory no_rows refl no_rows-IsRefined

-- The connection breaks in the body.
abbrev cut_short : Connection
cut_short = record {
  pool = ok tt;
  begin = ok tt;
  bind = ok tt;
  statement = err (other "conn closed");
  rollback = ok tt;
  commit = ok tt;
}

abbrev add_spend : String → Tables ℕ → Result (Unit {0}) × Tables ℕ
add_spend t s = (ok tt, record s { spends = (t, ("job", pos 5) ∷ []) ∷ [] })

tx_on-ends_example :
    IsUndone {A = Unit {0}} cut_short no_rows refl
      (tx_on cut_short (as_tenant "t1") add_spend no_rows)
    ⊎ ((t : String) × (tenant_id (as_tenant "t1") ≡ ok t)
        × IsCommitted cut_short no_rows refl
            (add_spend t no_rows)
            (tx_on cut_short (as_tenant "t1") add_spend no_rows))
tx_on-ends_example = tx_on-ends cut_short no_rows refl (as_tenant "t1") add_spend
