-- ===== src/Store/Postgres/Released.antt =====
-- `Release` of internal/pgstore/store.go against that of internal/store/memory.go.
use waterfall.Prelude.{
  ◌-ℤ◌, ◌≤ℤ◌, pos, IsInt64, -ℤ_parts, sub64_exact, one_part, String, ◌≡◌, refl, sym, ap, ◌∙◌,
  Option-cases, [], Dict, get, put, get2, put2, or_else, inl, inr, arith,
}
use waterfall.Domain.Errors.{ok}
use waterfall.Domain.Fields.{Credits}
use waterfall.Tenant.{Context, tenant_id}
use waterfall.Store.Memory.{Memory, release, committed_of}
use waterfall.Store.Ceiling.{released, released_zero}
use waterfall.Store.Postgres.Tables.{Columns, Tables}
use waterfall.Store.Postgres.Ledgers.{spend_of, refunded}
use waterfall.Store.Postgres.Refined.{
  at, or_else-put2, at_same, IsRefined, IsRefined-at, Commits, no_spend, fits_bigint-IsInt64,
}

module _ {C : Type 0} (lib : Columns C) (m : Memory C) (s : Tables C) (h : IsRefined lib m s)
    (t job : String) (amount : Credits) where
  -- The spend that a release leaves.
  released_bounds :
      pos 0 ≤ℤ amount
      → (n : Credits) → pos 0 ≤ℤ n
      → IsInt64 n
      → (pos 0 ≤ℤ released amount n) × IsInt64 (released amount n)
  released_bounds low n nl ni =
      ground (arith, -ℤ_parts n amount, one_part (n -ℤ amount), low, nl, ni)

  difference_fits :
      pos 0 ≤ℤ amount
      → IsInt64 amount
      → (n : Credits) → pos 0 ≤ℤ n
      → IsInt64 n
      → IsInt64 (n -ℤ amount)
  difference_fits low int n nl ni =
      ground (arith, -ℤ_parts n amount, one_part (n -ℤ amount), low, int, nl, ni)

  module _ (ctx : Context) (p : tenant_id ctx ≡ ok t) (low : pos 0 ≤ℤ amount)
      (int : IsInt64 amount) where
    abbrev rest : Credits
    rest = released amount (committed_of m t job)

    -- What a release writes on either side: the new spend, or nothing where it was 0.
    release-writes :
        (costs : Dict (Dict Credits)) × ((release ctx job amount m).1
          ≡ record m { committed = costs })
        × ((t' job' : String)
            → or_else (pos 0) (get2 costs t' job') ≡ at t job rest (committed_of m) t' job')
    release-writes = elim (Option-cases (get m.committed t)) [
      | inl q ↦
          let zero : committed_of m t job ≡ pos 0 = unfold committed_of get in rw q refl in
          (
            m.committed,
            (unfold release in rw (p, q) refl),
            (unfold committed_of in
                at_same (committed_of m) t job rest
                  (zero ∙ sym (ap (released amount) zero ∙ released_zero amount low))),
          )
      | inr (jobs, q) ↦
          let (cl, ci) = h.bounded t job in
          (
            put m.committed t (put jobs job rest),
            (unfold release in
                rw
                  (
                    p,
                    q,
                    sub64_exact (committed_of m t job) amount
                        (difference_fits low int (committed_of m t job) cl ci),
                  )
                  (ap
                    (λ o. record m { committed = put m.committed t (put (or_else [] o) job rest) })
                    q)),
            (λ t' job'.
                ap
                  (λ o.
                    or_else (pos 0)
                      (get2 (put m.committed t (put (or_else [] o) job rest)) t' job'))
                  (sym q)
                ∙ (unfold committed_of in or_else-put2 m.committed t job rest t' job')),
          )
    ]

    refunded-writes :
        (spends : Dict (Dict Credits)) × (refunded (get2 s.spends t job) t job amount s
          ≡ (ok tt, record s { spends = spends }))
        × ((t' job' : String)
            → or_else (pos 0) (get2 spends t' job') ≡ at t job rest (spend_of s) t' job')
    refunded-writes =
        let (cl, ci) = h.bounded t job in
        elim (Option-cases (get2 s.spends t job)) [
          | inl q ↦
              let zero = no_spend lib m s h t job q in
              (
                s.spends,
                (unfold refunded in rw q refl),
                (unfold spend_of in
                    at_same (spend_of s) t job rest (
                      h.spends t job
                      ∙ zero
                      ∙ sym (ap (released amount) zero ∙ released_zero amount low))),
              )
          | inr (n, q) ↦
              let there : spend_of s t job ≡ n = unfold spend_of in rw q refl in
              let same : n ≡ committed_of m t job = sym there ∙ h.spends t job in
              (
                put2 s.spends t job rest,
                (unfold refunded in
                    rw
                      (
                        q,
                        same,
                        fits_bigint-IsInt64 (committed_of m t job -ℤ amount)
                            (difference_fits low int (committed_of m t job) cl ci),
                      )
                      refl),
                (unfold spend_of in or_else-put2 s.spends t job rest),
              )
        ]

    -- Both release alike.
    pub refunded-Refines :
        ((refunded (get2 s.spends t job) t job amount s).0 ≡ (release ctx job amount m).0)
        × Commits lib m (release ctx job amount m).1 (refunded (get2 s.spends t job) t job amount s)
    refunded-Refines =
        let (costs, em, hc) = release-writes in
        let (spends, es, hs) = refunded-writes in
        let (cl, ci) = h.bounded t job in
        let (rl, ri) = released_bounds low (committed_of m t job) cl ci in
        let done : (release ctx job amount m).0 ≡ ok tt = unfold release in rw p refl in
        rw (em, es, done)
          (refl, inr (tt, refl, IsRefined-at lib m s h t job costs spends rest rl ri hc hs))
