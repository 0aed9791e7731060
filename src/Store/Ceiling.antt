-- ===== src/Store/Ceiling.antt =====
-- The cost ledger of internal/store/memory.go (gate G4).
use waterfall.Prelude.{
  pos, ◌+ℤ◌, ◌-ℤ◌, ◌≤ℤ◌, IsInt64, add64_exact, sub64_exact, add64, wrap64, wrap64_over, int_laws,
  one_part, ltb_ℤ, String, ◌≡◌, refl, sym, ◌⊎◌, inl, inr, false, none, some, Option-cases, arith,
  Dict, get, put2, get2-put2_self, if◌then◌else◌, Bool-cases, ◌^◌,
}
use waterfall.Domain.Errors.{Result, ok, err, ceiling_exceeded}
use waterfall.Domain.Fields.{Credits}
use waterfall.Tenant.{Context, tenant_id}
use waterfall.Store.Memory.{Memory, reserve, release, committed_of}

committed-put2 :
    {C : Type 0} (m : Memory C) (t job : String) (total : Credits)
    → committed_of (record m { committed = put2 m.committed t job total }) t job ≡ total
unfolding committed_of
committed-put2 m t job total = rw get2-put2_self

-- The spend after a release: the amount is taken off, and what falls below 0 becomes 0.
abbrev pub released : Credits → Credits → Credits
released amount c = if ltb_ℤ (c -ℤ amount) (pos 0) then pos 0 else c -ℤ amount

pub released_zero : (amount : Credits) → pos 0 ≤ℤ amount → released amount (pos 0) ≡ pos 0
unfolding ◌-ℤ◌
released_zero amount h = ground arith

module _ {C : Type 0} (m : Memory C) (t job : String) (amount ceiling : Credits) where
  -- What `Reserve` makes of a sum that `int64` represents.
  abbrev pub Reserved : Result Credits × Memory C → Type 0
  Reserved out =
      let total = committed_of m t job +ℤ amount in
      ((total ≤ℤ ceiling) × (out.0 ≡ ok total) × (committed_of out.1 t job ≡ total))
      ⊎ ((¬ (total ≤ℤ ceiling)) × (out.0 ≡ err ceiling_exceeded) × (out.1 ≡ m))

  -- Where the sum is in range, `Reserve` adds the amount and returns the new total if that is
  -- within the ceiling, and else reports the ceiling and leaves the store as it was.
  pub reserve_exact :
      (ctx : Context)
      → tenant_id ctx ≡ ok t
      → IsInt64 (committed_of m t job +ℤ amount)
      → Reserved (reserve ctx job amount ceiling m)
  unfolding reserve
  reserve_exact ctx p r =
      rw (p, add64_exact (committed_of m t job) amount r)
        (elim (Bool-cases (ltb_ℤ ceiling (committed_of m t job +ℤ amount))) [
          | inl e ↦ rw e (inr (ground arith, refl, refl))
          | inr e ↦ rw e (inl (ground arith, refl, committed-put2 m t job _))
        ])

  -- A sum past the top of `int64` wraps to a negative total, which passes the test of any
  -- ceiling that is not negative: the ledger then records a spend that is 2^64 too low.
  pub reserve_overflow :
      (ctx : Context)
      → tenant_id ctx ≡ ok t
      → IsInt64 (committed_of m t job)
      → IsInt64 amount
      → pos 0 ≤ℤ ceiling
      → pos (2 ^ 63) ≤ℤ (committed_of m t job +ℤ amount)
      → committed_of (reserve ctx job amount ceiling m).1 t job +ℤ pos (2 ^ 64)
        ≡ committed_of m t job +ℤ amount
  unfolding reserve add64
  reserve_overflow ctx p ic ia nonneg big =
      let c = committed_of m t job in
      let over = wrap64_over (c +ℤ amount) big (omega (int_laws, one_part)) in
      let small : ltb_ℤ ceiling (wrap64 (c +ℤ amount)) ≡ false = ground (arith, over) in
      rw (p, small, committed-put2) (omega (int_laws, one_part, over))

module _ {C : Type 0} (m : Memory C) (t job : String) (amount : Credits) where
  release_exact :
      (ctx : Context)
      → tenant_id ctx ≡ ok t
      → IsInt64 (committed_of m t job -ℤ amount)
      → (jobs : Dict Credits) → get m.committed t ≡ some jobs
      → committed_of (release ctx job amount m).1 t job ≡ released amount (committed_of m t job)
  unfolding release
  release_exact ctx p r jobs e =
      rw (p, e, sub64_exact (committed_of m t job) amount r, committed-put2)

  -- `Release` of an amount that is not negative takes it off the spend, down to 0 and no further,
  -- whether or not the tenant has a cost map yet.
  pub release_spend :
      (ctx : Context)
      → tenant_id ctx ≡ ok t
      → pos 0 ≤ℤ amount
      → IsInt64 (committed_of m t job -ℤ amount)
      → committed_of (release ctx job amount m).1 t job ≡ released amount (committed_of m t job)
  release_spend ctx p nonneg r = elim (Option-cases (get m.committed t)) [
    | inr (jobs, e) ↦ release_exact ctx p r jobs e
    | inl e ↦ no_costs e
  ]
    where
      no_costs :
          get m.committed t ≡ none
          → committed_of (release ctx job amount m).1 t job ≡ released amount (committed_of m t job)
      no_costs e =
          let zero_spend : committed_of m t job ≡ pos 0 = unfold committed_of get in rw e in
          let same : (release ctx job amount m).1 ≡ m = unfold release in rw (p, e) in
          rw (same, zero_spend) (sym (released_zero amount nonneg))
