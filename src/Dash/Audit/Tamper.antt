-- ===== src/Dash/Audit/Tamper.antt =====
-- What a chain of internal/dash/audit that verifies is evidence of.
use waterfall.Prelude.{
  equal_bytes→eq, ℕ, arith, ◌≡◌, refl, ap, sym, ◌∙◌, none, List, [], ◌∷◌, ◌++◌, length, String,
}
use mathlib.Core.Path.{ap₂}
use mathlib.Core.List.{head-eq_of_cons-eq, tail-eq_of_cons-eq}
use waterfall.Domain.Errors.{Result, ok}
use waterfall.Dash.Audit.Canonical.{Formats, canonicalize, compute_hash}
use waterfall.Dash.Audit.Chain.{Row, genesis, entry_of, verify_from}
use waterfall.Dash.Audit.Intact.{last_hash, compared-Fits}

-- Texts that agree, with first parts of one length, agree in both parts.
append_parts :
    (xs ys us vs : List ℕ) → length xs ≡ length ys → xs ++ us ≡ ys ++ vs → (xs ≡ ys) × (us ≡ vs)
append_parts [] [] us vs l h = (refl, h)
append_parts [] (y ∷ ys) us vs l h = absurd (omega (arith, l))
append_parts (x ∷ xs) [] us vs l h = absurd (omega (arith, l))
append_parts (x ∷ xs) (y ∷ ys) us vs l h =
    let (p, q) = append_parts xs ys us vs (omega (arith, l)) (tail-eq_of_cons-eq h) in
    (ap₂ (λ z zs. z ∷ zs) (head-eq_of_cons-eq h) p, q)

module _ (f : Formats) (tenant : String) where
  abbrev pub canon_of : Row → Result (List ℕ)
  canon_of r = canonicalize f tenant r.seq r.created_at (entry_of r)

  -- The two rows, after these hashes, say the same or their hashes differ.
  abbrev pub NoCollision : List ℕ → List ℕ → Row → Row → Type 0
  NoCollision p q r s =
      (a b : List ℕ)
      → canon_of r ≡ ok a
      → canon_of s ≡ ok b
      → compute_hash f p a ≡ compute_hash f q b
      → p ++ a ≡ q ++ b

  -- No two rows at one place of two chains collide.
  pub data Apart : List ℕ → List ℕ → List Row → List Row → Type 0 where
    ends : {p q : List ℕ} → Apart p q [] []
    goes :
        {p q : List ℕ} {r s : Row} {rs ss : List Row}
        → length p ≡ length q
        → NoCollision p q r s
        → Apart r.hash s.hash rs ss
        → Apart p q (r ∷ rs) (s ∷ ss)

  -- The documents of the rows, which are what the chain protects.
  abbrev pub documents : List Row → List (Result (List ℕ))
  documents [] = []
  documents (r ∷ rs) = canon_of r ∷ documents rs

  verify_from-agree :
      {p q : List ℕ} {rs ss : List Row}
      → Apart p q rs ss
      → verify_from f tenant p rs ≡ ok none
      → verify_from f tenant q ss ≡ ok none
      → last_hash p rs ≡ last_hash q ss
      → (p ≡ q) × (documents rs ≡ documents ss)
  unfolding verify_from compute_hash
  verify_from-agree ends h k same = (same, refl)
  verify_from-agree {p} {q} (goes {r = r} {s = s} {rs = rs} {ss = ss} l free more) h k same =
      let (fit, rest) = compared-Fits f tenant p r (verify_from f tenant r.hash rs) h in
      let (fit', rest') = compared-Fits f tenant q s (verify_from f tenant s.hash ss) k in
      let (hash, docs) = verify_from-agree more rest rest' same in
      let joined =
        free fit.canon fit'.canon fit.writes fit'.writes
          (sym (equal_bytes→eq r.hash _ fit.hashes) ∙ hash ∙ equal_bytes→eq s.hash _ fit'.hashes) in
      let (prev, canon) = append_parts p q fit.canon fit'.canon l joined in
      (prev, ap₂ (λ d ds. d ∷ ds) (fit.writes ∙ ap ok canon ∙ sym fit'.writes) docs)

  -- Two chains of as many rows that verify and end in the same hash have the same documents at
  -- every place, where SHA-256 does not collide on what is hashed at one place of the two.
  pub verify_from-documents :
      {rs ss : List Row}
      → Apart genesis genesis rs ss
      → verify_from f tenant genesis rs ≡ ok none
      → verify_from f tenant genesis ss ≡ ok none
      → last_hash genesis rs ≡ last_hash genesis ss
      → documents rs ≡ documents ss
  verify_from-documents apart h k same = (verify_from-agree apart h k same).1
