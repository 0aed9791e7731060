-- ===== src/Store/Recorded.antt =====
-- The idempotency ledger of internal/store/memory.go (gate G2): the first result stays.
use waterfall.Prelude.{
  ◌≡◌, refl, String, true, false, none, some, List, [], ◌∷◌, inl, inr, arith, eq_iff, get2, put2,
  get, get2-put2, Option-cases, get2-put2_self, if◌then◌else◌, Bool,
}
use waterfall.Domain.Errors.{GoError, Result-cases, ok, err}
use waterfall.Domain.Values.{Values, field_value_valid}
use waterfall.Tenant.{Context, tenant_id}
use waterfall.Store.Memory.{
  Memory, lookup, record_result, reserve, release, committed, append, history, current,
}
use waterfall.Store.Isolation.{
  Operation, perform, after, op_lookup, op_record, op_reserve, op_release, op_append,
}

module _ {C : Type 0} where
  -- The result that the ledger holds for a key of tenant `t`.
  abbrev pub Recorded : String → String → Values C → Memory C → Type 0
  Recorded t key res m = get2 m.idempotency t key ≡ some res

  put2-keeps :
      (m : Memory C) (s k t key : String) (new res : Values C)
      → get2 m.idempotency s k ≡ none
      → Recorded t key res m
      → get2 (put2 m.idempotency s k new) t key ≡ some res
  put2-keeps m s k t key new res h r =
      ground (arith, get2-put2 m.idempotency s k new t key, eq_iff s t, eq_iff k key)

  if-Recorded :
      {A : Type 0} (b : Bool) (p q : A × Memory C) (t key : String) (res : Values C)
      → Recorded t key res p.1
      → Recorded t key res q.1
      → Recorded t key res (if b then p else q).1
  if-Recorded true p q t key res h k = h
  if-Recorded false p q t key res h k = k

module _ {C : Type 0} (lt : C → C → Bool) (ctx : Context) (t key : String) (res : Values C) where
  perform_as-Recorded :
      (op : Operation C) (m : Memory C) (s : String)
      → tenant_id ctx ≡ ok s
      → Recorded t key res m
      → Recorded t key res (perform lt ctx op m).1
  unfolding perform lookup record_result reserve release committed append history current
  perform_as-Recorded (op_record k new) m s q r = elim (Option-cases (get2 m.idempotency s k)) [
    | inl e ↦ rw (q, e) (put2-keeps m s k t key new res e r)
    | inr (old, e) ↦ rw (q, e) r
  ]
  perform_as-Recorded (op_reserve job amount ceiling) m s q r =
      rw q (if-Recorded _ _ _ t key res r r)
  perform_as-Recorded (op_release job amount) m s q r = elim (Option-cases (get m.committed s)) [
    | inl e ↦ rw (q, e) r
    | inr (jobs, e) ↦ rw (q, e) r
  ]
  perform_as-Recorded (op_append subject v) m s q r =
      rw q (if-Recorded (field_value_valid v) _ _ t key res r r)
  perform_as-Recorded _ m s q r = rw q r

  perform_refused-Recorded :
      (op : Operation C) (m : Memory C) (e : GoError)
      → tenant_id ctx ≡ err e
      → Recorded t key res m
      → Recorded t key res (perform lt ctx op m).1
  unfolding perform lookup record_result reserve release committed append history current
  perform_refused-Recorded (op_lookup k) m e q r = rw q r
  perform_refused-Recorded _ m e q r = rw q r

  pub perform-Recorded :
      (op : Operation C) (m : Memory C)
      → Recorded t key res m
      → Recorded t key res (perform lt ctx op m).1
  perform-Recorded op m r = elim (Result-cases (tenant_id ctx)) [
    | inl (e, q) ↦ perform_refused-Recorded op m e q r
    | inr (s, q) ↦ perform_as-Recorded op m s q r
  ]

module _ {C : Type 0} (lt : C → C → Bool) where
  after-Recorded :
      (t key : String) (res : Values C) (calls : List (Context × Operation C)) (m : Memory C)
      → Recorded t key res m
      → Recorded t key res (after lt calls m)
  unfolding after
  after-Recorded t key res [] m r = r
  after-Recorded t key res ((ctx, op) ∷ rest) m r =
      after-Recorded t key res rest (perform lt ctx op m).1
        (perform-Recorded lt ctx t key res op m r)

  -- The result of a key that has none yet, once recorded, is what every later lookup of its tenant
  -- returns, whatever is called in between, also under the same key.
  pub lookup-record :
      (ctx : Context) (t key : String) (res : Values C) (m : Memory C)
      (calls : List (Context × Operation C))
      → tenant_id ctx ≡ ok t
      → get2 m.idempotency t key ≡ none
      → (lookup ctx key (after lt calls (record_result ctx key res m).1)).0 ≡ ok (some res)
  unfolding lookup
  lookup-record ctx t key res m calls p h =
      rw p (rw (after-Recorded t key res calls (record_result ctx key res m).1 first) refl)
    where
      first : Recorded t key res (record_result ctx key res m).1
      first = unfold record_result in rw (p, h) (get2-put2_self m.idempotency t key res)
