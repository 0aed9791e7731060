-- ===== src/Store/Memory.antt =====
-- internal/store/memory.go: the in-memory store. Every method is a function that returns its
-- result with the store it leaves; the mutex makes each method one step.
pub mod Best
use waterfall.Prelude.{
  pos, String, Bool, Option, none, some, List, [], ◌∷◌, ◌++◌, Dict, get, put, or_else, get2, put2,
  add64, sub64, ltb_ℤ, if◌then◌else◌,
}
use waterfall.Domain.Errors.{
  Result, ok, err, panicked, provider_error, bad_request, ceiling_exceeded, invalid_field_value,
}
use waterfall.Domain.Fields.{Field, Credits}
use waterfall.Domain.Values.{FieldValue, Values, field_value_valid}
use waterfall.Tenant.{Context, tenant_id}

module _ (C : Type 0) where
  pub record Memory : Type 0 where
    pub idempotency : Dict (Dict (Values C))
    pub committed : Dict (Dict Credits)
    pub versions : Dict (Dict (Dict (List (FieldValue C))))

abbrev pub new_memory : {C : Type 0} → Memory C
new_memory = record { idempotency = []; committed = []; versions = [] }

module _ {C : Type 0} where
  -- `Lookup`, behind the tenant that `TenantID` found.
  lookup_in : Result String → String → Memory C → Result (Option (Values C)) × Memory C
  lookup_in (err e) key m = (err e, m)
  lookup_in (ok t) key m = (ok (get2 m.idempotency t key), m)

  unfoldable pub lookup : Context → String → Memory C → Result (Option (Values C)) × Memory C
  unfolding lookup_in
  lookup ctx key m = lookup_in (tenant_id ctx) key m

  -- `Record`: the first writer wins.
  store_first : Option (Values C) → String → String → Values C → Memory C → Memory C
  store_first (some old) t key res m = m
  store_first none t key res m = record m { idempotency = put2 m.idempotency t key res }

  record_in : Result String → String → Values C → Memory C → Result (Unit {0}) × Memory C
  unfolding store_first
  record_in (err e) key res m = (err e, m)
  record_in (ok t) key res m = (ok tt, store_first (get2 m.idempotency t key) t key res m)

  unfoldable pub record_result :
      Context → String → Values C → Memory C → Result (Unit {0}) × Memory C
  unfolding record_in
  record_result ctx key res m = record_in (tenant_id ctx) key res m

  -- `m.committed[t][jobID]`, which is 0 where there is no entry.
  unfoldable pub committed_of : Memory C → String → String → Credits
  committed_of m t job = or_else (pos 0) (get2 m.committed t job)

  -- `Reserve`: the sum wraps as `int64` does.
  reserve_in : Result String → String → Credits → Credits → Memory C → Result Credits × Memory C
  reserve_in (err e) job amount ceiling m = (err e, m)
  reserve_in (ok t) job amount ceiling m =
      let total = add64 (committed_of m t job) amount in
      if ltb_ℤ ceiling total
      then (err ceiling_exceeded, m)
      else (ok total, record m { committed = put2 m.committed t job total })

  unfoldable pub reserve :
      Context → String → Credits → Credits → Memory C → Result Credits × Memory C
  unfolding reserve_in
  reserve ctx job amount ceiling m = reserve_in (tenant_id ctx) job amount ceiling m

  -- `Release`: nothing is written for a tenant without a cost map, and no total falls below 0.
  release_found : Option (Dict Credits) → String → String → Credits → Memory C → Memory C
  release_found none t job amount m = m
  release_found (some jobs) t job amount m =
      let rest = sub64 (committed_of m t job) amount in
      record m { committed = put2 m.committed t job (if ltb_ℤ rest (pos 0) then pos 0 else rest) }

  release_in : Result String → String → Credits → Memory C → Result (Unit {0}) × Memory C
  unfolding release_found
  release_in (err e) job amount m = (err e, m)
  release_in (ok t) job amount m = (ok tt, release_found (get m.committed t) t job amount m)

  unfoldable pub release : Context → String → Credits → Memory C → Result (Unit {0}) × Memory C
  unfolding release_in
  release ctx job amount m = release_in (tenant_id ctx) job amount m

  committed_in : Result String → String → Memory C → Result Credits × Memory C
  committed_in (err e) job m = (err e, m)
  committed_in (ok t) job m = (ok (committed_of m t job), m)

  unfoldable pub committed : Context → String → Memory C → Result Credits × Memory C
  unfolding committed_in
  committed ctx job m = committed_in (tenant_id ctx) job m

  -- `m.versions[t][subjectID][f]`, which is the empty slice where there is no entry.
  unfoldable pub history_of : Memory C → String → String → Field → List (FieldValue C)
  history_of m t subject f = or_else [] (get (or_else [] (get2 m.versions t subject)) f)

  -- `Append`: a value that is not valid is refused with BAD_REQUEST (G5).
  appended : String → String → FieldValue C → Memory C → Memory C
  appended t subject v m =
      let fields = or_else [] (get2 m.versions t subject) in
      let old = or_else [] (get fields v.field) in
      record m { versions = put2 m.versions t subject (put fields v.field (old ++ v ∷ [])) }

  append_in : Result String → String → FieldValue C → Memory C → Result (Unit {0}) × Memory C
  unfolding appended
  append_in (err e) subject v m = (err e, m)
  append_in (ok t) subject v m =
      if field_value_valid v
      then (ok tt, appended t subject v m)
      else (err (provider_error v.prov.provider bad_request invalid_field_value), m)

  unfoldable pub append : Context → String → FieldValue C → Memory C → Result (Unit {0}) × Memory C
  unfolding append_in
  append ctx subject v m = append_in (tenant_id ctx) subject v m

  history_in : Result String → String → Field → Memory C → Result (List (FieldValue C)) × Memory C
  history_in (err e) subject f m = (err e, m)
  history_in (ok t) subject f m = (ok (history_of m t subject f), m)

  unfoldable pub history :
      Context → String → Field → Memory C → Result (List (FieldValue C)) × Memory C
  unfolding history_in
  history ctx subject f m = history_in (tenant_id ctx) subject f m

-- `Current` compares confidences with `>`.
module _ {C : Type 0} (lt : C → C → Bool) where
  -- The loop over `obs[1:]` with the best value so far.
  unfoldable pub best_from : FieldValue C → List (FieldValue C) → FieldValue C
  best_from best [] = best
  best_from best (o ∷ os) = best_from (if lt best.confidence o.confidence then o else best) os

  -- `obs[0]` panics on an empty slice.
  unfoldable pub best_of : List (FieldValue C) → Option (FieldValue C)
  unfolding best_from
  best_of [] = none
  best_of (o ∷ os) = some (best_from o os)

  with_best :
      String → Option (FieldValue C) → Result (Dict (FieldValue C)) → Result (Dict (FieldValue C))
  with_best f none out = err panicked
  with_best f (some v) (err e) = err e
  with_best f (some v) (ok out) = ok (put out f v)

  -- The loop over the fields of a subject.
  current_fields : Dict (List (FieldValue C)) → Result (Dict (FieldValue C))
  unfolding best_of with_best
  current_fields [] = ok []
  current_fields ((f, obs) ∷ rest) = with_best f (best_of obs) (current_fields rest)

  current_in : Result String → String → Memory C → Result (Dict (FieldValue C)) × Memory C
  unfolding current_fields
  current_in (err e) subject m = (err e, m)
  current_in (ok t) subject m = (current_fields (or_else [] (get2 m.versions t subject)), m)

  unfoldable pub current : Context → String → Memory C → Result (Dict (FieldValue C)) × Memory C
  unfolding current_in
  current ctx subject m = current_in (tenant_id ctx) subject m
