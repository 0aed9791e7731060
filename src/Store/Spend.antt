-- ===== src/Store/Spend.antt =====
-- The methods of internal/store/memory.go that leave the cost ledger alone.
use waterfall.Prelude.{◌≡◌, String, Bool, inl, inr, Option-cases, Bool-cases, get2, ap}
use waterfall.Domain.Errors.{Result-cases, ok}
use waterfall.Domain.Values.{FieldValue, Values, field_value_valid}
use waterfall.Tenant.{Context, tenant_id}
use waterfall.Store.Memory.{Memory, lookup, record_result, append, committed_of, current, committed}

module _ {C : Type 0} (ctx : Context) (m : Memory C) where
  pub lookup-same : (key : String) → (lookup ctx key m).1 ≡ m
  unfolding lookup
  lookup-same key = elim (Result-cases (tenant_id ctx)) [ inl (e, q) ↦ rw q | inr (t, q) ↦ rw q ]

  pub current-same : (lt : C → C → Bool) (subject : String) → (current lt ctx subject m).1 ≡ m
  unfolding current
  current-same lt subject = elim (Result-cases (tenant_id ctx)) [
    | inl (e, q) ↦ rw q
    | inr (t, q) ↦ rw q
  ]

  pub committed-same : (job : String) → (committed ctx job m).1 ≡ m
  unfolding committed
  committed-same job = elim (Result-cases (tenant_id ctx)) [ inl (e, q) ↦ rw q | inr (t, q) ↦ rw q ]

  pub record_result-ok :
      (t key : String) (res : Values C)
      → tenant_id ctx ≡ ok t
      → (record_result ctx key res m).0 ≡ ok tt
  unfolding record_result
  record_result-ok t key res q = rw q

  committed-record :
      (key : String) (res : Values C) → (record_result ctx key res m).1.committed ≡ m.committed
  unfolding record_result
  committed-record key res = elim (Result-cases (tenant_id ctx)) [
    | inl (e, q) ↦ rw q
    | inr (t, q) ↦ elim (Option-cases (get2 m.idempotency t key)) [
      | inl h ↦ rw (q, h)
      | inr (old, h) ↦ rw (q, h)
    ]
  ]

  pub idempotency-append :
      (subject : String) (v : FieldValue C) → (append ctx subject v m).1.idempotency ≡ m.idempotency
  unfolding append
  idempotency-append subject v = elim (Result-cases (tenant_id ctx)) [
    | inl (e, q) ↦ rw q
    | inr (t, q) ↦ elim (Bool-cases (field_value_valid v)) [ inl h ↦ rw (q, h) | inr h ↦ rw (q, h) ]
  ]

  pub lookup-found :
      (t key : String) → tenant_id ctx ≡ ok t → (lookup ctx key m).0 ≡ ok (get2 m.idempotency t key)
  unfolding lookup
  lookup-found t key q = rw q

  pub committed-append :
      (subject : String) (v : FieldValue C) → (append ctx subject v m).1.committed ≡ m.committed
  unfolding append
  committed-append subject v = elim (Result-cases (tenant_id ctx)) [
    | inl (e, q) ↦ rw q
    | inr (t, q) ↦ elim (Bool-cases (field_value_valid v)) [ inl h ↦ rw (q, h) | inr h ↦ rw (q, h) ]
  ]

  pub spend-eq :
      (n : Memory C) (t job : String)
      → n.committed ≡ m.committed
      → committed_of n t job ≡ committed_of m t job
  unfolding committed_of
  spend-eq n t job h = rw h

  pub committed_of-lookup :
      (key t job : String) → committed_of (lookup ctx key m).1 t job ≡ committed_of m t job
  committed_of-lookup key t job = ap (λ n. committed_of n t job) (lookup-same key)

  pub committed_of-record :
      (key : String) (res : Values C) (t job : String)
      → committed_of (record_result ctx key res m).1 t job ≡ committed_of m t job
  committed_of-record key res t job = spend-eq _ t job (committed-record key res)

  pub committed_of-append :
      (subject : String) (v : FieldValue C) (t job : String)
      → committed_of (append ctx subject v m).1 t job ≡ committed_of m t job
  committed_of-append subject v t job = spend-eq _ t job (committed-append subject v)
