-- ===== src/Store/Postgres/Agreed.antt =====
-- The ledgers of internal/pgstore/store.go against those of internal/store/memory.go.
use waterfall.Prelude.{
  ◌+ℤ◌, ◌≤ℤ◌, pos, IsInt64, String, ◌==◌, ◌≡◌, refl, sym, Bool, true, Bool-cases, Option, none,
  some, Option-cases, put2, get2, get2-put2, inl, inr, arith,
}
use mathlib.Core.Path.{subst}
use waterfall.Domain.Errors.{Result, Result-cases, ok, err, and_then, and_then-ok, ok-injective}
use waterfall.Domain.Fields.{Credits}
use waterfall.Domain.Values.{Values}
use waterfall.Tenant.{Context, tenant_id}
use waterfall.Store.Memory.{
  Memory, lookup, record_result, reserve, release, committed, committed_of, history_of,
}
use waterfall.Store.Isolation.{Operation, op_record, op_reserve, op_release, op_append}
use waterfall.Store.Postgres.Tables.{Columns, Tables, Connection, tx}
use waterfall.Store.Postgres.Ledgers.{
  spend_of, ensure_row, guarded_add, refunded, insert_result, with_payload, read_result, lookup_sql,
  record_sql, reserve_sql, release_sql, committed_sql,
}
use waterfall.Store.Postgres.Rows.{IsColumnar}
use waterfall.Store.Postgres.Refined.{IsRefined, Commits, ensure_row-IsRefined, guarded_add-Refines}
use waterfall.Store.Postgres.Released.{refunded-Refines}

-- A connection on which every step passes.
abbrev pub sound : Connection
sound = record {
  pool = ok tt;
  begin = ok tt;
  bind = ok tt;
  statement = ok tt;
  rollback = ok tt;
  commit = ok tt;
}

module _ {C : Type 0} where
  -- What a transaction comes to on it: the tables of the body, or those from before.
  unfoldable pub committing : {A : Type 0} → Tables C → Result A × Tables C → Result A × Tables C
  committing s (err e, s') = (err e, s)
  committing s (ok a, s') = (ok a, s')

  pub tx-sound :
      {A : Type 0} (ctx : Context) (t : String) (fn : String → Tables C → Result A × Tables C)
      (s : Tables C)
      → tenant_id ctx ≡ ok t
      → tx sound ctx fn s ≡ committing s (fn t s)
  unfolding tx committing
  tx-sound ctx t fn s p = elim (Result-cases (fn t s).0) [
    | inl (e, q) ↦ rw (p, q) refl
    | inr (a, q) ↦ rw (p, q) refl
  ]

module _ {C : Type 0} (lib : Columns C) where
  -- What a call needs for the two to agree: a result that JSON can write, amounts that are not
  -- negative and a sum that `int64` represents, a confidence from 0 to 1.
  abbrev pub Fits : Memory C → String → Operation C → Type 0
  Fits m t (op_record key res) = (text : String) × (lib.marshal res ≡ ok text)
  Fits m t (op_reserve job amount ceiling) =
      (pos 0 ≤ℤ amount) × IsInt64 (committed_of m t job +ℤ amount)
  Fits m t (op_release job amount) = (pos 0 ≤ℤ amount) × IsInt64 amount
  Fits m t (op_append subject v) = lib.in_unit v.confidence ≡ true
  Fits m t _ = Unit

module _ {C : Type 0} (lt : C → C → Bool) (lib : Columns C) where
  module _ (laws : IsColumnar lt lib) (ctx : Context) (t : String) (p : tenant_id ctx ≡ ok t)
      (m : Memory C) (s : Tables C) (h : IsRefined lib m s) where
    -- The commit of a transaction that agrees with the store.
    pub committing-Refines :
        {A : Type 0} (out : Result A × Tables C) (r : Result A) (m' : Memory C)
        → out.0 ≡ r
        → Commits lib m m' out
        → ((committing s out).0 ≡ r) × IsRefined lib m' (committing s out).1
    unfolding committing
    committing-Refines (err e, s') r m' q (inl (e', q', same)) =
        (q, subst (λ n. IsRefined lib n s) (sym same) h)
    committing-Refines (err e, s') r m' q (inr (a, q', k)) = absurd (ground (arith, q'))
    committing-Refines (ok a, s') r m' q (inl (e', q', same)) = absurd (ground (arith, q'))
    committing-Refines (ok a, s') r m' q (inr (a', q', k)) = (q, k)

    pub lookup-Agrees :
        (key : String)
        → (lookup_sql lib sound ctx key s ≡ (ok (get2 m.idempotency t key), s))
          × (lookup ctx key m ≡ (ok (get2 m.idempotency t key), m))
    unfolding lookup_sql lookup committing
    lookup-Agrees key = (rw (tx-sound ctx t _ s p, h.results t key) refl, rw p refl)

    pub committed-Agrees :
        (job : String)
        → (committed_sql sound ctx job s ≡ (ok (committed_of m t job), s))
          × (committed ctx job m ≡ (ok (committed_of m t job), m))
    unfolding committed_sql committed committing
    committed-Agrees job = (rw (tx-sound ctx t _ s p, h.spends t job) refl, rw p refl)

    pub reserve-Agrees :
        (job : String) (amount ceiling : Credits)
        → pos 0 ≤ℤ amount
        → IsInt64 (committed_of m t job +ℤ amount)
        → ((reserve_sql sound ctx job amount ceiling s).0 ≡ (reserve ctx job amount ceiling m).0)
          × IsRefined lib
              (reserve ctx job amount ceiling m).1
              (reserve_sql sound ctx job amount ceiling s).1
    reserve-Agrees job amount ceiling low int =
        let s' = ensure_row (get2 s.spends t job) t job s in
        let (e, out) =
          guarded_add-Refines lib m s' (ensure_row-IsRefined lib m s h t job) t job amount ctx
            ceiling p low int in
        let made = guarded_add t job amount ceiling s' in
        let run : reserve_sql sound ctx job amount ceiling s ≡ committing s made =
          unfold reserve_sql in tx-sound ctx t _ s p in
        rw run (committing-Refines made _ _ e out)

    pub release-Agrees :
        (job : String) (amount : Credits)
        → pos 0 ≤ℤ amount
        → IsInt64 amount
        → ((release_sql sound ctx job amount s).0 ≡ (release ctx job amount m).0)
          × IsRefined lib (release ctx job amount m).1 (release_sql sound ctx job amount s).1
    release-Agrees job amount low int =
        let (e, out) = refunded-Refines lib m s h t job amount ctx p low int in
        let made = refunded (get2 s.spends t job) t job amount s in
        let run : release_sql sound ctx job amount s ≡ committing s made =
          unfold release_sql in tx-sound ctx t _ s p in
        rw run (committing-Refines made _ _ e out)

    read_result-none : (o : Option (Values C)) → read_result lib none ≡ ok o → o ≡ none
    unfolding read_result
    read_result-none o e = sym (ok-injective none o e)

    read_result-some :
        (text : String) (o : Option (Values C))
        → read_result lib (some text) ≡ ok o
        → (v : Values C) × (o ≡ some v)
    unfolding read_result
    read_result-some text o e =
        let (v, q, e') = and_then-ok _ _ o e in (v, sym (ok-injective (some v) o e'))

    first_write :
        (key text : String) (res : Values C)
        → lib.marshal res ≡ ok text
        → IsRefined lib
            (record m { idempotency = put2 m.idempotency t key res })
            (record s { results = put2 s.results t key (lib.jsonb text) })
    unfolding committed_of spend_of history_of
    first_write key text res q = record {
      results = λ t' key'.
          rw
            (
              get2-put2 s.results t key (lib.jsonb text) t' key',
              get2-put2 m.idempotency t key res t' key',
            )
            (elim (Bool-cases (t == t')) [
              | inl u ↦ elim (Bool-cases (key == key')) [
                | inl k ↦ rw (u, k) (unfold read_result and_then in rw (laws.json res text q) refl)
                | inr k ↦ rw (u, k) (h.results t' key')
              ]
              | inr u ↦ rw u (h.results t' key')
            ]);
      spends = h.spends;
      bounded = h.bounded;
      versions = h.versions;
    }

    -- The rows of the ledger after a write, on either side.
    insert_result-IsRefined :
        (key text : String) (res : Values C)
        → lib.marshal res ≡ ok text
        → IsRefined lib
            (record_result ctx key res m).1
            (insert_result lib (get2 s.results t key) t key text s)
    unfolding record_result insert_result
    insert_result-IsRefined key text res q = elim (Option-cases (get2 s.results t key)) [
      | inl k ↦
          let new =
            read_result-none _ (
              subst (λ o. read_result lib o ≡ ok (get2 m.idempotency t key)) k (h.results t key)) in
          rw (p, k, new) (first_write key text res q)
      | inr (old, k) ↦
          let (v, there) =
            read_result-some old _ (
              subst (λ o. read_result lib o ≡ ok (get2 m.idempotency t key)) k (h.results t key)) in
          rw (p, k, there) h
    ]

    pub record-Agrees :
        (key text : String) (res : Values C)
        → lib.marshal res ≡ ok text
        → ((record_sql lib sound ctx key res s).0 ≡ (record_result ctx key res m).0)
          × IsRefined lib (record_result ctx key res m).1 (record_sql lib sound ctx key res s).1
    record-Agrees key text res q =
        let passes : (record_result ctx key res m).0 ≡ ok tt = unfold record_result in rw p refl in
        let made = insert_result lib (get2 s.results t key) t key text s in
        let written : with_payload lib (ok text) sound ctx key s ≡ committing s (ok tt, made) =
          unfold with_payload in tx-sound ctx t _ s p in
        let run : record_sql lib sound ctx key res s ≡ committing s (ok tt, made) =
          unfold record_sql in rw q written in
        rw run (
          committing-Refines (ok tt, made) _ _ (sym passes)
            (inr (tt, refl, insert_result-IsRefined key text res q)))
