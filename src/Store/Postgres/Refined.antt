-- ===== src/Store/Postgres/Refined.antt =====
-- The tables of internal/pgstore/store.go as a store of internal/store/memory.go, and the spends
-- of the two.
use waterfall.Prelude.{
  ◌+ℤ◌, ◌≤ℤ◌, ℤ, ◌⊎◌, pos, ltb_ℤ, IsInt64, add64_exact, int_laws, one_part, String, ◌==◌, eq_iff,
  ◌≡◌, refl, sym, ap, ◌∙◌, true, false, Bool-cases, none, Option-cases, Dict, get2, put2, get2-put2,
  or_else, inl, inr, arith, if◌then◌else◌,
}
use mathlib.Core.List.{map}
use waterfall.Domain.Errors.{GoError, Result, ok, err, ceiling_exceeded}
use waterfall.Domain.Fields.{Field, Credits}
use waterfall.Tenant.{Context, tenant_id}
use waterfall.Store.Memory.{Memory, reserve, committed_of, history_of}
use waterfall.Store.Postgres.Tables.{Columns, Tables, fits_bigint}
use waterfall.Store.Postgres.Ledgers.{spend_of, ensure_row, guarded_add, read_result}
use waterfall.Store.Postgres.Versions.{stored, versions_of, of_field}

-- The map of spends after a write of `n` for the job.
abbrev pub at : String → String → Credits → (String → String → Credits) → String → String → Credits
at t job n spend t' job' =
    if t == t' then (if job == job' then n else spend t' job') else spend t' job'

pub or_else-put2 :
    (d : Dict (Dict Credits)) (t job : String) (n : Credits) (t' job' : String)
    → or_else (pos 0) (get2 (put2 d t job n) t' job')
      ≡ at t job n (λ t'' job''. or_else (pos 0) (get2 d t'' job'')) t' job'
or_else-put2 d t job n t' job' = rw get2-put2 (elim (Bool-cases (t == t')) [
  | inl q ↦ elim (Bool-cases (job == job')) [ inl k ↦ rw (q, k) refl | inr k ↦ rw (q, k) refl ]
  | inr q ↦ rw q refl
])

-- A write of what is there.
pub at_same :
    (spend : String → String → Credits) (t job : String) (n : Credits)
    → spend t job ≡ n
    → (t' job' : String) → spend t' job' ≡ at t job n spend t' job'
at_same spend t job n h t' job' = elim (Bool-cases (t == t')) [
  | inl q ↦ elim (Bool-cases (job == job')) [
    | inl k ↦
        rw (q, k)
          (ap (λ s. spend s job') (sym ((eq_iff t t').0 q))
            ∙ ap (spend t) (sym ((eq_iff job job').0 k))
            ∙ h)
    | inr k ↦ rw (q, k) refl
  ]
  | inr q ↦ rw q refl
]

pub fits_bigint-IsInt64 : (n : ℤ) → IsInt64 n → fits_bigint n ≡ true
fits_bigint-IsInt64 n k = ground (arith, k)

module _ {C : Type 0} (lib : Columns C) where
  -- The tables hold what the store holds: under each key a text that reads as the recorded result,
  -- for each job its spend, which is from 0 to the top of `int64`, and for each field the
  -- observations as the columns keep them, in the order of their insertion.
  pub record IsRefined (m : Memory C) (s : Tables C) : Type 0 where
    pub results :
        (t key : String) → read_result lib (get2 s.results t key) ≡ ok (get2 m.idempotency t key)
    pub spends : (t job : String) → spend_of s t job ≡ committed_of m t job
    pub bounded :
        (t job : String) → (pos 0 ≤ℤ committed_of m t job) × IsInt64 (committed_of m t job)
    pub versions :
        (t subject : String) (f : Field)
        → of_field f (versions_of s.versions t subject)
          ≡ map (stored lib) (history_of m t subject f)

  -- What a transaction makes: an error, which rolls back and has a store that stays as it is, or
  -- tables that hold what the store then holds.
  abbrev pub Commits : {A : Type 0} → Memory C → Memory C → Result A × Tables C → Type 0
  Commits {A} m m' out =
      ((e : GoError) × (out.0 ≡ err e) × (m' ≡ m)) ⊎ ((a : A) × (out.0 ≡ ok a) × IsRefined m' out.1)

  module _ (m : Memory C) (s : Tables C) (h : IsRefined m s) (t job : String) where
    -- Both sides write the same spend.
    pub IsRefined-at :
        (costs spends : Dict (Dict Credits)) (n : Credits)
        → pos 0 ≤ℤ n
        → IsInt64 n
        → ((t' job' : String)
            → or_else (pos 0) (get2 costs t' job') ≡ at t job n (committed_of m) t' job')
        → ((t' job' : String)
            → or_else (pos 0) (get2 spends t' job') ≡ at t job n (spend_of s) t' job')
        → IsRefined (record m { committed = costs }) (record s { spends = spends })
    unfolding committed_of spend_of history_of
    IsRefined-at costs spends n low int hc hs = record {
      results = h.results;
      spends = λ t' job'.
          hs t' job'
          ∙ ap (λ c. if t == t' then (if job == job' then n else c) else c) (h.spends t' job')
          ∙ sym (hc t' job');
      bounded = λ t' job'. rw (hc t' job') (elim (Bool-cases (t == t')) [
        | inl q ↦ elim (Bool-cases (job == job')) [
          | inl k ↦ rw (q, k) (low, int)
          | inr k ↦ rw (q, k) (h.bounded t' job')
        ]
        | inr q ↦ rw q (h.bounded t' job')
      ]);
      versions = h.versions;
    }

    pub no_spend : get2 s.spends t job ≡ none → committed_of m t job ≡ pos 0
    no_spend q = sym (h.spends t job) ∙ (unfold spend_of in rw q refl)

    pub ensure_row-IsRefined : IsRefined m (ensure_row (get2 s.spends t job) t job s)
    unfolding ensure_row
    ensure_row-IsRefined = elim (Option-cases (get2 s.spends t job)) [
      | inr (n, q) ↦ rw q h
      | inl q ↦ rw q (
          IsRefined-at m.committed (put2 s.spends t job (pos 0)) (pos 0) (ground arith)
            (ground arith)
            (unfold committed_of in at_same (committed_of m) t job (pos 0) (no_spend q))
            (unfold spend_of in or_else-put2 s.spends t job (pos 0)))
    ]

    module _ (amount : Credits) where
      -- Where the sum is representable, both reserve alike.
      pub guarded_add-Refines :
          (ctx : Context) (ceiling : Credits)
          → tenant_id ctx ≡ ok t
          → pos 0 ≤ℤ amount
          → IsInt64 (committed_of m t job +ℤ amount)
          → ((guarded_add t job amount ceiling s).0 ≡ (reserve ctx job amount ceiling m).0)
            × Commits m (reserve ctx job amount ceiling m).1 (guarded_add t job amount ceiling s)
      unfolding reserve guarded_add
      guarded_add-Refines ctx ceiling p low int =
          let c = committed_of m t job in
          let (cl, ci) = h.bounded t job in
          let up : pos 0 ≤ℤ (c +ℤ amount) = omega (int_laws, one_part, cl, low) in
          elim (Bool-cases (ltb_ℤ ceiling (c +ℤ amount))) [
            | inl q ↦
                rw
                  (
                    p,
                    add64_exact c amount int,
                    h.spends t job,
                    fits_bigint-IsInt64 (c +ℤ amount) int,
                    q,
                  )
                  (refl, inl (ceiling_exceeded, refl, refl))
            | inr q ↦
                let positive : ltb_ℤ (c +ℤ amount) (pos 0) ≡ false = ground (arith, up) in
                rw
                  (
                    p,
                    add64_exact c amount int,
                    h.spends t job,
                    fits_bigint-IsInt64 (c +ℤ amount) int,
                    q,
                    positive,
                  )
                  (
                    refl,
                    inr (
                      c +ℤ amount,
                      refl,
                      IsRefined-at (put2 m.committed t job (c +ℤ amount))
                          (put2 s.spends t job (c +ℤ amount)) (c +ℤ amount) up int
                          (unfold committed_of in or_else-put2 m.committed t job (c +ℤ amount))
                          (unfold spend_of in or_else-put2 s.spends t job (c +ℤ amount)),
                    ),
                  )
          ]
