-- ===== src/Store/Isolation.antt =====
-- Tenant isolation of internal/store/memory.go (gate G1), over any sequence of method calls.
use waterfall.Prelude.{
  String, ◌≡◌, ◌≢◌, refl, sym, ap, ◌∙◌, Bool, true, false, Option, List, [], ◌∷◌, eq_iff, arith,
  Dict, get, put, get-put, get2, put2, or_else, add64, ltb_ℤ, Option-cases, inl, inr, if◌then◌else◌,
}
use waterfall.Domain.Errors.{Result-cases, GoError, Result, ok, err, ceiling_exceeded}
use waterfall.Domain.Fields.{Field, Credits}
use waterfall.Domain.Values.{FieldValue, Values, field_value_valid}
use waterfall.Tenant.{Context, tenant_id}
use waterfall.Store.Memory.{
  Memory, lookup, record_result, reserve, release, committed, committed_of, append, history,
  history_of, current,
}

module _ (C : Type 0) where
  -- One call of a method of the store, with its arguments.
  pub data Operation : Type 0 where
    op_lookup : String → Operation
    op_record : String → Values C → Operation
    op_reserve : String → Credits → Credits → Operation
    op_release : String → Credits → Operation
    op_committed : String → Operation
    op_append : String → FieldValue C → Operation
    op_current : String → Operation
    op_history : String → Field → Operation

  -- What a caller gets back.
  pub data Reply : Type 0 where
    found : Result (Option (Values C)) → Reply
    done : Result (Unit {0}) → Reply
    credits : Result Credits → Reply
    best : Result (Dict (FieldValue C)) → Reply
    observations : Result (List (FieldValue C)) → Reply

module _ {C : Type 0} (lt : C → C → Bool) where
  abbrev first : {A : Type 0} → (A → Reply C) → A × Memory C → Reply C × Memory C
  first f r = (f r.0, r.1)

  -- One method call under a context.
  unfoldable pub perform : Context → Operation C → Memory C → Reply C × Memory C
  perform ctx (op_lookup key) m = first found (lookup ctx key m)
  perform ctx (op_record key res) m = first done (record_result ctx key res m)
  perform ctx (op_reserve job amount ceiling) m = first credits (reserve ctx job amount ceiling m)
  perform ctx (op_release job amount) m = first done (release ctx job amount m)
  perform ctx (op_committed job) m = first credits (committed ctx job m)
  perform ctx (op_append subject v) m = first done (append ctx subject v m)
  perform ctx (op_current subject) m = first best (current lt ctx subject m)
  perform ctx (op_history subject f) m = first observations (history ctx subject f m)

  -- The store after a sequence of calls.
  unfoldable pub after : List (Context × Operation C) → Memory C → Memory C
  after [] m = m
  after ((ctx, op) ∷ rest) m = after rest (perform ctx op m).1

  -- Two stores with the same partition of tenant `t`.
  pub record IsSame (t : String) (m n : Memory C) : Type 0 where
    pub idempotency : get m.idempotency t ≡ get n.idempotency t
    pub committed : get m.committed t ≡ get n.committed t
    pub versions : get m.versions t ≡ get n.versions t

  -- No call of the sequence is made under tenant `t`.
  abbrev pub IsForeign : String → List (Context × Operation C) → Type 0
  IsForeign t [] = Unit
  IsForeign t ((ctx, op) ∷ rest) = (tenant_id ctx ≢ ok t) × IsForeign t rest

  get-put_ne :
      {A : Type 0} (d : Dict A) (s t : String) (v : A) → s ≢ t → get d t ≡ get (put d s v) t
  get-put_ne d s t v h = ground (arith, get-put d s v t, eq_iff s t)

  module _ (s t : String) (h : s ≢ t) (m : Memory C) where
    IsSame-idempotency :
        (d : Dict (Values C)) → IsSame t m (record m { idempotency = put m.idempotency s d })
    IsSame-idempotency d = record {
      idempotency = get-put_ne m.idempotency s t d h;
      committed = refl;
      versions = refl;
    }

    IsSame-committed :
        (d : Dict Credits) → IsSame t m (record m { committed = put m.committed s d })
    IsSame-committed d = record {
      idempotency = refl;
      committed = get-put_ne m.committed s t d h;
      versions = refl;
    }

    IsSame-versions :
        (d : Dict (Dict (List (FieldValue C))))
        → IsSame t m (record m { versions = put m.versions s d })
    IsSame-versions d = record {
      idempotency = refl;
      committed = refl;
      versions = get-put_ne m.versions s t d h;
    }

  pub IsSame-refl : (t : String) (m : Memory C) → IsSame t m m
  IsSame-refl t m = record { idempotency = refl; committed = refl; versions = refl }

  IsSame-if :
      {A : Type 0} (t : String) (m : Memory C) (b : Bool) (p q : A × Memory C)
      → IsSame t m p.1
      → IsSame t m q.1
      → IsSame t m (if b then p else q).1
  IsSame-if t m true p q h k = h
  IsSame-if t m false p q h k = k

  ruleset same_rules =
      (IsSame-refl, IsSame-idempotency, IsSame-committed, IsSame-versions, IsSame-if)

  perform_as-IsSame :
      (s t : String) (ctx : Context) (op : Operation C) (m : Memory C)
      → tenant_id ctx ≡ ok s
      → s ≢ t
      → IsSame t m (perform ctx op m).1
  unfolding perform lookup record_result reserve release committed append history current
  perform_as-IsSame s t ctx (op_lookup key) m p h = rw p (IsSame-refl t m)
  perform_as-IsSame s t ctx (op_record key res) m p h =
      elim (Option-cases (get2 m.idempotency s key)) [
        | inl e ↦ rw (p, e) (search same_rules)
        | inr (old, e) ↦ rw (p, e) (IsSame-refl t m)
      ]
  perform_as-IsSame s t ctx (op_reserve job amount ceiling) m p h = rw p (search same_rules)
  perform_as-IsSame s t ctx (op_release job amount) m p h =
      elim (Option-cases (get m.committed s)) [
        | inl e ↦ rw (p, e) (IsSame-refl t m)
        | inr (jobs, e) ↦ rw (p, e) (search same_rules)
      ]
  perform_as-IsSame s t ctx (op_committed job) m p h = rw p (IsSame-refl t m)
  perform_as-IsSame s t ctx (op_append subject v) m p h = rw p (search same_rules)
  perform_as-IsSame s t ctx (op_current subject) m p h = rw p (IsSame-refl t m)
  perform_as-IsSame s t ctx (op_history subject f) m p h = rw p (IsSame-refl t m)

  perform_refused-IsSame :
      (t : String) (ctx : Context) (op : Operation C) (m : Memory C) (e : GoError)
      → tenant_id ctx ≡ err e
      → IsSame t m (perform ctx op m).1
  unfolding perform lookup record_result reserve release committed append history current
  perform_refused-IsSame t ctx (op_lookup key) m e p = rw p (IsSame-refl t m)
  perform_refused-IsSame t ctx _ m e p = rw p (IsSame-refl t m)

  pub perform-IsSame :
      (t : String) (ctx : Context) (op : Operation C) (m : Memory C)
      → tenant_id ctx ≢ ok t
      → IsSame t m (perform ctx op m).1
  perform-IsSame t ctx op m h = elim (Result-cases (tenant_id ctx)) [
    | inl (e, p) ↦ perform_refused-IsSame t ctx op m e p
    | inr (s, p) ↦ perform_as-IsSame s t ctx op m p (λ q. h (p ∙ ap ok q))
  ]

  pub IsSame-trans : (t : String) (a b c : Memory C) → IsSame t a b → IsSame t b c → IsSame t a c
  IsSame-trans t a b c h k = record {
    idempotency = h.idempotency ∙ k.idempotency;
    committed = h.committed ∙ k.committed;
    versions = h.versions ∙ k.versions;
  }

  after-IsSame :
      (t : String) (calls : List (Context × Operation C)) (m : Memory C)
      → IsForeign t calls
      → IsSame t m (after calls m)
  unfolding after
  after-IsSame t [] m h = IsSame-refl t m
  after-IsSame t ((ctx, op) ∷ rest) m h =
      IsSame-trans t m (perform ctx op m).1 _ (perform-IsSame t ctx op m h.0)
        (after-IsSame t rest (perform ctx op m).1 h.1)

  if-reply :
      {A : Type 0} (b : Bool) (r q : Result A) (x x' y y' : Memory C)
      → (if◌then◌else◌ {A = Result A × Memory C} b (r, x) (q, x')).0
        ≡ (if◌then◌else◌ {A = Result A × Memory C} b (r, y) (q, y')).0
  if-reply true r q x x' y y' = refl
  if-reply false r q x x' y y' = refl

  -- The reply of a method depends on the partition of its own tenant alone.
  pub reply-IsSame :
      (t : String) (ctx : Context) (op : Operation C) (m n : Memory C)
      → tenant_id ctx ≡ ok t
      → IsSame t m n
      → (perform ctx op m).0 ≡ (perform ctx op n).0
  unfolding perform lookup record_result reserve release committed append history current
      committed_of history_of
  reply-IsSame t ctx (op_lookup key) m n p h = rw (p, h.idempotency)
  reply-IsSame t ctx (op_reserve job amount ceiling) m n p h =
      rw (p, h.committed)
        (let total : Credits = add64 (committed_of n t job) amount in
          ap credits (
            if-reply (ltb_ℤ ceiling total) (err ceiling_exceeded) (ok total) m
              (record m {
                committed = put m.committed t (put (or_else [] (get n.committed t)) job total);
              })
              n (record n { committed = put2 n.committed t job total })))
  reply-IsSame t ctx (op_committed job) m n p h = rw (p, h.committed)
  reply-IsSame t ctx (op_append subject v) m n p h =
      rw p (ap done (if-reply (field_value_valid v) _ _ _ m _ n))
  reply-IsSame t ctx (op_current subject) m n p h = rw (p, h.versions)
  reply-IsSame t ctx (op_history subject f) m n p h = rw (p, h.versions)
  reply-IsSame t ctx _ m n p h = rw p

  -- Whatever calls are made under other tenants, or under no tenant, the next reply to a tenant is
  -- the one that it would have had without them.
  pub reply_isolated :
      (t : String) (ctx : Context) (op : Operation C) (calls : List (Context × Operation C))
      (m : Memory C)
      → tenant_id ctx ≡ ok t
      → IsForeign t calls
      → (perform ctx op (after calls m)).0 ≡ (perform ctx op m).0
  reply_isolated t ctx op calls m p h =
      sym (reply-IsSame t ctx op m (after calls m) p (after-IsSame t calls m h))
