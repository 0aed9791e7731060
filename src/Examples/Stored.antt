-- ===== src/Examples/Stored.antt =====
-- The theorems on keys and on internal/store/memory.go, applied.
use waterfall.Prelude.{
  ℕ, ◌-◌, length, pos, IsInt64, refl, ap, arith, ◌≡◌, ◌^◌, ◌==◌, String, Bool, true, false, ltb,
  some, [], ◌∷◌, ◌≢◌, Dict, get, ◌+ℤ◌, ◌-ℤ◌, List,
}
use waterfall.Domain.Errors.{Result, ok, err}
use waterfall.Domain.Fields.{Field}
use waterfall.Domain.Values.{FieldValue}
use waterfall.Domain.Requests.{key_parts, write_parts, idempotency_key}
use waterfall.Domain.Requests.Keys.{idempotency_key_injective, IsShort}
use waterfall.Tenant.{Context, tenant_id}
use waterfall.Store.Memory.{
  Memory, new_memory, lookup, record_result, reserve, committed_of, current, history_of,
}
use waterfall.Store.Memory.Best.{IsOrder, IsBest}
use waterfall.Store.Isolation.{
  Operation, op_record, op_append, op_release, op_history, IsForeign, perform, after,
  reply_isolated,
}
use waterfall.Store.Ceiling.{reserve_overflow}
use waterfall.Store.Provenance.{IsProven}
use waterfall.Store.Filled.{current-IsBest}
use waterfall.Store.Recorded.{lookup-record}
use waterfall.Examples.Data.{texts, as_tenant, emails, email_value, request, spaced_request}

abbrev used_store : Memory ℕ
used_store = record {
  idempotency = [];
  committed = ("t1", ("job", pos 8) ∷ []) ∷ [];
  versions = ("t1", ("ada", ("work_email", email_value ∷ []) ∷ []) ∷ []) ∷ [];
}

abbrev spent_store : Memory ℕ
spent_store = record used_store { committed = ("t1", ("job", pos (2 ^ 63 - 1)) ∷ []) ∷ [] }

abbrev other_calls : List (Context × Operation ℕ)
other_calls =
    (as_tenant "t2", op_record "digest" [])
    ∷ (as_tenant "t2", op_append "ada" email_value)
    ∷ (as_tenant "t2", op_release "job" (pos 1))
    ∷ []

is_t1 : tenant_id (as_tenant "t1") ≡ ok "t1"
unfolding tenant_id
is_t1 = refl

same_bytes :
    write_parts (key_parts texts request "acme" "work_email" "hunter")
    ≡ write_parts (key_parts texts spaced_request "acme" "work_email" "hunter")
unfolding key_parts write_parts get
same_bytes = refl

same_key :
    idempotency_key texts request "acme" "work_email" "hunter"
    ≡ idempotency_key texts spaced_request "acme" "work_email" "hunter"
unfolding idempotency_key get
same_key = refl

short : IsShort (key_parts texts request "acme" "work_email" "hunter")
unfolding key_parts get length
short = (omega arith, (omega arith, (omega arith, (omega arith, (omega arith, (omega arith, tt))))))

spaced-IsShort : IsShort (key_parts texts spaced_request "acme" "work_email" "hunter")
unfolding key_parts get length
spaced-IsShort =
    (omega arith, (omega arith, (omega arith, (omega arith, (omega arith, (omega arith, tt))))))

idempotency_key_injective_example :
    key_parts texts request "acme" "work_email" "hunter"
    ≡ key_parts texts spaced_request "acme" "work_email" "hunter"
idempotency_key_injective_example =
    idempotency_key_injective texts request spaced_request "acme" "acme" "work_email" "work_email"
      "hunter" "hunter" short spaced-IsShort (λ e. same_bytes) same_key

is_t2 : tenant_id (as_tenant "t2") ≡ ok "t2"
unfolding tenant_id
is_t2 = refl

names_t1 : Result String → Bool
names_t1 (ok t) = t == "t1"
names_t1 (err e) = false

not_t1 : tenant_id (as_tenant "t2") ≢ ok "t1"
unfolding tenant_id names_t1
not_t1 e = let clash : false ≡ true = ap names_t1 e in ground arith

foreign : IsForeign ltb "t1" other_calls
foreign = (not_t1, (not_t1, (not_t1, tt)))

reply_isolated_example :
    (perform ltb
      (as_tenant "t1")
      (op_history "ada" "work_email")
      (after ltb other_calls used_store)).0
    ≡ (perform ltb (as_tenant "t1") (op_history "ada" "work_email") used_store).0
reply_isolated_example =
    reply_isolated ltb "t1" (as_tenant "t1") (op_history "ada" "work_email") other_calls used_store
      is_t1 foreign

in_range : IsInt64 (committed_of used_store "t1" "job" +ℤ pos 5)
unfolding committed_of get ◌+ℤ◌
in_range = (omega arith, omega arith)

spent : committed_of spent_store "t1" "job" ≡ pos (2 ^ 63 - 1)
unfolding committed_of get
spent = refl

reserve_overflow_example :
    committed_of (reserve (as_tenant "t1") "job" (pos 1) (pos 20) spent_store).1 "t1" "job"
      +ℤ pos (2 ^ 64)
    ≡ committed_of spent_store "t1" "job" +ℤ pos 1
unfolding ◌+ℤ◌
reserve_overflow_example =
    reserve_overflow spent_store "t1" "job" (pos 1) (pos 20) (as_tenant "t1") is_t1
      (rw spent (omega arith, omega arith)) (omega arith, omega arith) (omega arith)
      (rw spent (omega arith))

less : IsInt64 (committed_of used_store "t1" "job" -ℤ pos 5)
unfolding committed_of get ◌-ℤ◌
less = (omega arith, omega arith)

new_memory-IsProven : IsProven (new_memory {C = ℕ})
unfolding history_of get
new_memory-IsProven = record { at = λ t j f. tt }

ltb-IsOrder : IsOrder ltb
ltb-IsOrder = record {
  irreflexive = λ a. ground arith;
  transitive = λ a b c h k. ground arith;
  cotransitive = λ a b c h k. ground arith;
}

current-IsBest_example :
    (out : Dict (FieldValue ℕ)) × ((current ltb
        (as_tenant "t2")
        "ada"
        (after ltb other_calls new_memory)).0
      ≡ ok out)
    × ((f : Field)
        → IsBest ltb (get out f) (history_of (after ltb other_calls new_memory) "t2" "ada" f))
current-IsBest_example =
    current-IsBest ltb ltb-IsOrder other_calls (as_tenant "t2") "t2" "ada" is_t2

lookup-record_example :
    (lookup
      (as_tenant "t1")
      "digest"
      (after ltb other_calls (record_result (as_tenant "t1") "digest" emails used_store).1)).0
    ≡ ok (some emails)
lookup-record_example =
    lookup-record ltb (as_tenant "t1") "t1" "digest" emails used_store other_calls is_t1
      (unfold get in refl)
