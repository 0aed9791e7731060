-- ===== src/Dash/Audit/Intact.antt =====
-- Appends to the chain of internal/dash/audit/audit.go keep it intact.
use waterfall.Prelude.{
  equal_bytes, equal_bytes_refl, ℕ, suc, arith, ◌≡◌, refl, sym, ◌∙◌, ◌⊎◌, inl, inr, String, ◌==◌,
  eq_iff, true, Bool-cases, Option, none, List, [], ◌∷◌, ◌++◌, length, length-append, or_else,
}
use mathlib.Core.Path.{ap₂}
use waterfall.Domain.Errors.{GoError, Result, Result-cases, ok, err}
use waterfall.Dash.Audit.Canonical.{Formats, Entry, canonicalize, compute_hash, decode_raw}
use waterfall.Dash.Audit.Chain.{
  Row, Chain, genesis, null_if, str, raw_from_ptr, entry_of, jsonb_or_null, row_of, append_on,
  chained, verify_from, compared, verify,
}

str-null_if : (s : String) → str (null_if s) ≡ s
unfolding str null_if
str-null_if s = elim (Bool-cases (s == "")) [
  | inl e ↦ rw e (sym ((eq_iff s "").0 e))
  | inr e ↦ rw e refl
]

-- The hash after the rows.
abbrev pub last_hash : List ℕ → List Row → List ℕ
last_hash prev [] = prev
last_hash prev (r ∷ rs) = last_hash r.hash rs

module _ (f : Formats) where
  -- A snapshot that reads back from its column as the value that was stored.
  abbrev pub IsStable : List ℕ → Type 0
  IsStable raw = decode_raw f (raw_from_ptr (jsonb_or_null f raw)) ≡ decode_raw f raw

  module _ (tenant : String) where
    canonicalize-entry_of :
        (seq created : ℕ) (e : Entry) (prev hash : List ℕ)
        → IsStable e.before
        → IsStable e.after
        → canonicalize f tenant seq created (entry_of (row_of f seq created e prev hash))
          ≡ canonicalize f tenant seq created e
    unfolding canonicalize entry_of row_of
    canonicalize-entry_of seq created e prev hash b a =
        rw
          (
            b,
            a,
            str-null_if e.actor_user_id,
            str-null_if e.actor_role,
            str-null_if e.object_kind,
            str-null_if e.object_id,
            str-null_if e.ip,
          )
          refl

    -- A row that verifies fits the hash before it.
    pub record Fits (prev : List ℕ) (r : Row) : Type 0 where
      pub canon : List ℕ
      pub writes : canonicalize f tenant r.seq r.created_at (entry_of r) ≡ ok canon
      pub follows : equal_bytes r.prev_hash prev ≡ true
      pub hashes : equal_bytes r.hash (compute_hash f prev canon) ≡ true

    pub compared-Fits :
        (prev : List ℕ) (r : Row) (rest : Result (Option ℕ))
        → compared f tenant prev r (canonicalize f tenant r.seq r.created_at (entry_of r)) rest
          ≡ ok none
        → Fits prev r × (rest ≡ ok none)
    unfolding compared
    compared-Fits prev r rest h =
        elim (Result-cases (canonicalize f tenant r.seq r.created_at (entry_of r))) [
          | inl (e, q) ↦ absurd (ground (arith, rw q at h))
          | inr (canon, q) ↦ elim (Bool-cases (equal_bytes r.prev_hash prev)) [
            | inr p ↦ absurd (ground (arith, rw (q, p) at h))
            | inl p ↦ elim (Bool-cases (equal_bytes r.hash (compute_hash f prev canon))) [
              | inr p' ↦ absurd (ground (arith, rw (q, p, p') at h))
              | inl p' ↦ (
                record { canon = canon; writes = q; follows = p; hashes = p' },
                rw (q, p, p') at h,
              )
            ]
          ]
        ]

    Fits-compared :
        (prev : List ℕ) (r : Row) (rest : Result (Option ℕ))
        → Fits prev r
        → compared f tenant prev r (canonicalize f tenant r.seq r.created_at (entry_of r)) rest
          ≡ rest
    unfolding compared
    Fits-compared prev r rest fit = rw (fit.writes, fit.follows, fit.hashes) refl

    verify_from-append :
        (prev : List ℕ) (rs : List Row) (r : Row)
        → verify_from f tenant prev rs ≡ ok none
        → Fits (last_hash prev rs) r
        → verify_from f tenant prev (rs ++ r ∷ []) ≡ ok none
    unfolding verify_from
    verify_from-append prev [] r h fit = Fits-compared prev r (ok none) fit
    verify_from-append prev (x ∷ rs) r h fit =
        let (first, rest) = compared-Fits prev x (verify_from f tenant x.hash rs) h in
        Fits-compared prev x (verify_from f tenant x.hash (rs ++ r ∷ [])) first
        ∙ verify_from-append x.hash rs r rest fit

    -- A chain that verifies, and whose head is its last row.
    pub record IsIntact (c : Chain) : Type 0 where
      pub verifies : verify f tenant c ≡ ok none
      pub head : or_else (0, genesis) c.head ≡ (length c.rows, last_hash genesis c.rows)

    last_hash-append :
        (prev : List ℕ) (rs : List Row) (r : Row) → last_hash prev (rs ++ r ∷ []) ≡ r.hash
    last_hash-append prev [] r = refl
    last_hash-append prev (x ∷ rs) r = last_hash-append x.hash rs r

    module _ (created : ℕ) (e : Entry) (c : Chain) (b : IsStable e.before) (a : IsStable e.after)
        (h : IsIntact c) where
      abbrev next_canon : Result (List ℕ)
      next_canon = canonicalize f tenant (suc (length c.rows)) created e

      abbrev next_row : List ℕ → Row
      next_row canon =
          row_of f (suc (length c.rows)) created e (last_hash genesis c.rows)
            (compute_hash f (last_hash genesis c.rows) canon)

      next_row-Fits :
          (canon : List ℕ)
          → next_canon ≡ ok canon
          → Fits (last_hash genesis c.rows) (next_row canon)
      unfolding row_of
      next_row-Fits canon q = record {
        canon = canon;
        writes = canonicalize-entry_of _ created e _ _ b a ∙ q;
        follows = equal_bytes_refl (last_hash genesis c.rows);
        hashes = equal_bytes_refl (compute_hash f (last_hash genesis c.rows) canon);
      }

      append_on-chained :
          append_on f tenant created e c
          ≡ chained f tenant (suc (length c.rows)) created e (last_hash genesis c.rows) c next_canon
      unfolding append_on
      append_on-chained = rw h.head refl

      -- Appends keep a chain intact: it verifies, and its head is its last row. An append adds one
      -- row, under the next number, or where an entry has no canonical JSON fails and adds none. The
      -- snapshots of the entry read back from their columns as they were stored.
      pub append_on-IsIntact :
          let out = append_on f tenant created e c in
          IsIntact out.1
          × (((x : Unit {0}) × (out.0 ≡ ok x)
                × ((r : Row) × (out.1.rows ≡ c.rows ++ r ∷ []) × (r.seq ≡ suc (length c.rows))))
              ⊎ ((x : GoError) × (out.0 ≡ err x) × (out.1 ≡ c)))
      unfolding chained verify row_of
      append_on-IsIntact = elim (Result-cases next_canon) [
        | inl (x, q) ↦ rw (append_on-chained, q) (h, inr (x, refl, refl))
        | inr (canon, q) ↦
            rw (append_on-chained, q)
              (
                record {
                  verifies =
                      verify_from-append genesis c.rows (next_row canon) h.verifies
                        (next_row-Fits canon q);
                  head =
                      ap₂ (λ n hash. (n, hash))
                        (omega (arith, length-append c.rows (next_row canon ∷ [])))
                        (sym (last_hash-append genesis c.rows (next_row canon)));
                },
                inl (tt, refl, (next_row canon, refl, refl)),
              )
      ]
