-- ===== src/Store/Postgres/Refines.antt =====
-- The methods of internal/pgstore/store.go against those of internal/store/memory.go.
use waterfall.Prelude.{
  String, ◌==◌, ◌&&◌, ◌≡◌, refl, sym, ap, ◌∙◌, Bool, true, false, Bool-cases, List, [], ◌∷◌, ◌++◌,
  Dict, get, inl, inr, arith, if◌then◌else◌,
}
use mathlib.Core.List.{append-nil, map, Perm}
use waterfall.Domain.Errors.{Result, ok, err}
use waterfall.Domain.Fields.{Field}
use waterfall.Domain.Values.{FieldValue, field_value_valid}
use waterfall.Tenant.{Context, tenant_id}
use waterfall.Store.Memory.{Memory, committed_of, append, current, history, history_of}
use waterfall.Store.Memory.Best.{IsOrder, IsBest}
use waterfall.Store.Provenance.{added, history_of-append}
use waterfall.Store.Isolation.{
  Operation, op_lookup, op_record, op_reserve, op_release, op_committed, op_append, op_current,
  op_history, Reply, found, done, credits, best, observations, perform,
}
use waterfall.Store.Postgres.Tables.{Columns, VersionRow, Tables}
use waterfall.Store.Postgres.Ledgers.{spend_of}
use waterfall.Store.Postgres.Versions.{
  stored, versions_of, of_field, inserted, row_allowed, append_sql, current_sql, history_sql,
}
use waterfall.Store.Postgres.Calls.{perform_sql}
use waterfall.Store.Postgres.Rows.{IsColumnar, current_rows-IsBest, scan_ordered}
use waterfall.Store.Postgres.Refined.{IsRefined}
use waterfall.Store.Postgres.Agreed.{
  sound, Fits, tx-sound, committing, lookup-Agrees, committed-Agrees, reserve-Agrees,
  release-Agrees, record-Agrees,
}

map-append : {A B : Type 0} (f : A → B) (xs ys : List A) → map f (xs ++ ys) ≡ map f xs ++ map f ys
map-append f [] ys = refl
map-append f (x ∷ xs) ys = ap (λ zs. f x ∷ zs) (map-append f xs ys)

abbrev pub is_err : {A : Type 0} → Result A → Bool
is_err (err e) = true
is_err (ok a) = false

-- A reply that is an error.
abbrev pub failed : {C : Type 0} → Reply C → Bool
failed (found r) = is_err r
failed (done r) = is_err r
failed (credits r) = is_err r
failed (best r) = is_err r
failed (observations r) = is_err r

module _ {C : Type 0} where
  of_field-append :
      (f : Field) (xs : List (FieldValue C)) (v : FieldValue C)
      → of_field f (xs ++ v ∷ []) ≡ of_field f xs ++ (if v.field == f then v ∷ [] else [])
  unfolding of_field
  of_field-append f [] v = refl
  of_field-append f (x ∷ xs) v = elim (Bool-cases (x.field == f)) [
    | inl q ↦ rw (q, of_field-append f xs v) refl
    | inr q ↦ rw (q, of_field-append f xs v) refl
  ]

  versions_of-append :
      (rows : List (VersionRow C)) (r : VersionRow C) (t subject : String)
      → versions_of (rows ++ r ∷ []) t subject
        ≡ versions_of rows t subject
          ++ (if r.tenant == t && r.subject == subject then r.version ∷ [] else [])
  unfolding versions_of
  versions_of-append [] r t subject = refl
  versions_of-append (x ∷ xs) r t subject =
      elim (Bool-cases (x.tenant == t && x.subject == subject)) [
        | inl q ↦ rw (q, versions_of-append xs r t subject) refl
        | inr q ↦ rw (q, versions_of-append xs r t subject) refl
      ]

module _ {C : Type 0} (lt : C → C → Bool) (lib : Columns C) where
  -- How a reply of the tables compares with one of the store `m`: both refuse a value or neither
  -- does; for each field some best observation of the history; the history in any order; and
  -- otherwise the same.
  abbrev pub Agrees : Memory C → String → Operation C → Reply C → Reply C → Type 0
  Agrees m t (op_append subject v) r r' = failed r' ≡ failed r
  Agrees m t (op_current subject) r r' =
      (out : Dict (FieldValue C)) × (r' ≡ best (ok out))
      × ((f : Field) → IsBest lt (get out f) (map (stored lib) (history_of m t subject f)))
  Agrees m t (op_history subject f) r r' =
      (vs : List (FieldValue C)) × (r' ≡ observations (ok vs))
      × Perm vs (map (stored lib) (history_of m t subject f))
  Agrees m t _ r r' = r' ≡ r

  module _ (laws : IsColumnar lt lib) (ctx : Context) (t : String) (p : tenant_id ctx ≡ ok t)
      (m : Memory C) (s : Tables C) (h : IsRefined lib m s) where
    added-eq :
        (subject : String) (v : FieldValue C) (t' subject' : String) (f : Field)
        → field_value_valid v ≡ true
        → added lt ctx (op_append subject v) t' subject' f
          ≡ (if t == t' && (subject == subject' && v.field == f) then v ∷ [] else [])
    added-eq subject v t' subject' f valid = rw (p, valid) refl

    -- The rows after an insert are those of the history after an append.
    inserted-versions :
        (subject : String) (v : FieldValue C)
        → field_value_valid v ≡ true
        → (t' subject' : String) (f : Field)
        → of_field f (versions_of (inserted lib t subject v s).versions t' subject')
          ≡ map (stored lib) (history_of (append ctx subject v m).1 t' subject' f)
    unfolding inserted stored
    inserted-versions subject v valid t' subject' f =
        let row : VersionRow C = record { tenant = t; subject = subject; version = stored lib v } in
        ap (of_field f) (versions_of-append s.versions row t' subject')
        ∙ cases (t == t') (subject == subject') refl refl
        ∙ ap (λ vs. vs ++ map (stored lib) (added lt ctx (op_append subject v) t' subject' f))
            (h.versions t' subject' f)
        ∙ sym (
            map-append (stored lib) (history_of m t' subject' f)
              (added lt ctx (op_append subject v) t' subject' f))
        ∙ ap (map (stored lib)) (sym (history_of-append lt ctx subject v m t' subject' f))
      where
        cases :
            (b c : Bool)
            → t == t' ≡ b
            → subject == subject' ≡ c
            → of_field f
                (versions_of s.versions t' subject' ++ (if b && c then stored lib v ∷ [] else []))
              ≡ of_field f (versions_of s.versions t' subject')
                ++ map (stored lib) (added lt ctx (op_append subject v) t' subject' f)
        cases true true e k =
            of_field-append f (versions_of s.versions t' subject') (stored lib v)
            ∙ rw (added-eq subject v t' subject' f valid, e, k)
                (elim (Bool-cases (v.field == f)) [ inl q ↦ rw q refl | inr q ↦ rw q refl ])
        cases true false e k =
            rw
              (
                added-eq subject v t' subject' f valid,
                e,
                k,
                append-nil (versions_of s.versions t' subject'),
                append-nil (of_field f (versions_of s.versions t' subject')),
              )
              refl
        cases false c e k =
            rw
              (
                added-eq subject v t' subject' f valid,
                e,
                append-nil (versions_of s.versions t' subject'),
                append-nil (of_field f (versions_of s.versions t' subject')),
              )
              refl

    append-IsRefined :
        (subject : String) (v : FieldValue C)
        → field_value_valid v ≡ true
        → IsRefined lib (append ctx subject v m).1 (inserted lib t subject v s)
    append-IsRefined subject v valid = record {
      results = unfold append inserted in rw (p, valid) h.results;
      spends = unfold append inserted spend_of committed_of in rw (p, valid) h.spends;
      bounded = unfold append committed_of in rw (p, valid) h.bounded;
      versions = inserted-versions subject v valid;
    }

    valid_row :
        (v : FieldValue C)
        → field_value_valid v ≡ true
        → lib.in_unit v.confidence ≡ true
        → row_allowed lib v ≡ true
    unfolding row_allowed field_value_valid
    valid_row v valid unit = ground (arith, valid, unit)

    append-Agrees :
        (subject : String) (v : FieldValue C)
        → lib.in_unit v.confidence ≡ true
        → (is_err (append_sql lib sound ctx subject v s).0 ≡ is_err (append ctx subject v m).0)
          × IsRefined lib (append ctx subject v m).1 (append_sql lib sound ctx subject v s).1
    append-Agrees subject v unit = elim (Bool-cases (field_value_valid v)) [
      | inl q ↦
          let written : append_sql lib sound ctx subject v s ≡ (ok tt, inserted lib t subject v s) =
            unfold append_sql committing in rw (q, tx-sound ctx t _ s p, valid_row v q unit) refl in
          let kept : (append ctx subject v m).0 ≡ ok tt = unfold append in rw (p, q) refl in
          rw (written, kept) (refl, append-IsRefined subject v q)
      | inr q ↦ unfold append append_sql in rw (p, q) (refl, h)
    ]

    history-Agrees :
        (subject : String) (f : Field)
        → (vs : List (FieldValue C)) × ((history_sql lib sound ctx subject f s) ≡ (ok vs, s))
          × Perm vs (map (stored lib) (history_of m t subject f))
    unfolding history_sql committing
    history-Agrees subject f =
        let obs = map (stored lib) (history_of m t subject f) in
        (
          lib.by_confidence obs,
          rw
              (
                tx-sound ctx t _ s p,
                h.versions t subject f,
                scan_ordered lt lib laws (history_of m t subject f),
              )
              refl,
          ∣ laws.rearranged obs ∣₁,
        )

    current-Agrees :
        IsOrder lt
        → (subject : String)
        → (out : Dict (FieldValue C)) × ((current_sql lib sound ctx subject s) ≡ (ok out, s))
          × ((f : Field) → IsBest lt (get out f) (map (stored lib) (history_of m t subject f)))
    unfolding current_sql committing
    current-Agrees order subject = (
      _,
      rw (tx-sound ctx t _ s p) refl,
      current_rows-IsBest lt lib laws order (versions_of s.versions t subject)
          (history_of m t subject) (h.versions t subject),
    )

  -- On a connection that carries every step, the methods over the tables do what the in-memory
  -- store does: the replies agree, and the tables go on holding what the store holds.
  pub perform_sql-Refines :
      IsOrder lt
      → IsColumnar lt lib
      → (ctx : Context) (t : String) → tenant_id ctx ≡ ok t
      → (op : Operation C) (m : Memory C) (s : Tables C) → Fits lib m t op
      → IsRefined lib m s
      → Agrees m t op (perform lt ctx op m).0 (perform_sql lib sound ctx op s).0
        × IsRefined lib (perform lt ctx op m).1 (perform_sql lib sound ctx op s).1
  unfolding perform perform_sql
  perform_sql-Refines order laws ctx t p (op_lookup key) m s fits h =
      let (e, e') = lookup-Agrees lt lib laws ctx t p m s h key in rw (e, e') (refl, h)
  perform_sql-Refines order laws ctx t p (op_record key res) m s (text, q) h =
      let (e, k) = record-Agrees lt lib laws ctx t p m s h key text res q in (ap done e, k)
  perform_sql-Refines order laws ctx t p (op_reserve job amount ceiling) m s (low, int) h =
      let (e, k) = reserve-Agrees lt lib laws ctx t p m s h job amount ceiling low int in
      (ap credits e, k)
  perform_sql-Refines order laws ctx t p (op_release job amount) m s (low, int) h =
      let (e, k) = release-Agrees lt lib laws ctx t p m s h job amount low int in (ap done e, k)
  perform_sql-Refines order laws ctx t p (op_committed job) m s fits h =
      let (e, e') = committed-Agrees lt lib laws ctx t p m s h job in rw (e, e') (refl, h)
  perform_sql-Refines order laws ctx t p (op_append subject v) m s unit h =
      append-Agrees laws ctx t p m s h subject v unit
  perform_sql-Refines order laws ctx t p (op_current subject) m s fits h =
      let (out, e, k) = current-Agrees laws ctx t p m s h order subject in
      let still : (current lt ctx subject m).1 ≡ m = unfold current in rw p refl in
      rw (e, still) ((out, refl, k), h)
  perform_sql-Refines order laws ctx t p (op_history subject f) m s fits h =
      let (vs, e, k) = history-Agrees laws ctx t p m s h subject f in
      let still : (history ctx subject f m).1 ≡ m = unfold history in rw p refl in
      rw (e, still) ((vs, refl, k), h)
