-- ===== src/Auth/Token.antt =====
-- `split` of internal/auth/jwt.go: the three segments of a token, which is a list of bytes.
use waterfall.Prelude.{
  ℕ, ◌≡◌, refl, sym, ◌≢◌, inl, inr, arith, true, false, Bool-cases, Option, none, some, List, [],
  ◌∷◌, ◌++◌, eqb, All, if◌then◌else◌,
}
use mathlib.Core.Path.{subst}
use mathlib.Core.Option.{some-injective}

-- The byte '.'.
abbrev pub dot : ℕ
dot = 46

prepend : ℕ → Option (List ℕ × List ℕ) → Option (List ℕ × List ℕ)
prepend b none = none
prepend b (some (xs, ys)) = some (b ∷ xs, ys)

-- What stands before the first dot, and what after it.
unfoldable pub cut_dot : List ℕ → Option (List ℕ × List ℕ)
unfolding prepend
cut_dot [] = none
cut_dot (b ∷ bs) = let rest = cut_dot bs in if eqb b dot then some ([], bs) else prepend b rest

-- A token of exactly two dots; the last segment alone may be empty.
three : List ℕ → List ℕ → List ℕ → Option (List ℕ × List ℕ) → Option (List ℕ × List ℕ × List ℕ)
three [] pb sb rest = none
three (h ∷ hb) [] sb rest = none
three (h ∷ hb) (p ∷ pb) sb none = some (h ∷ hb, p ∷ pb, sb)
three (h ∷ hb) (p ∷ pb) sb (some rest) = none

after_first : List ℕ → Option (List ℕ × List ℕ) → Option (List ℕ × List ℕ × List ℕ)
unfolding three
after_first hb none = none
after_first hb (some (pb, sb)) = three hb pb sb (cut_dot sb)

from_first : Option (List ℕ × List ℕ) → Option (List ℕ × List ℕ × List ℕ)
unfolding after_first
from_first none = none
from_first (some (hb, rest)) = after_first hb (cut_dot rest)

unfoldable pub segments : List ℕ → Option (List ℕ × List ℕ × List ℕ)
unfolding from_first
segments token = from_first (cut_dot token)

abbrev pub IsDotless : List ℕ → Type 0
IsDotless bs = All (λ b. eqb b dot ≡ false) bs

-- The token of three segments.
abbrev pub joined_by_dots : List ℕ → List ℕ → List ℕ → List ℕ
joined_by_dots hb pb sb = hb ++ dot ∷ (pb ++ dot ∷ sb)

cut_dot_joined : (xs ys : List ℕ) → IsDotless xs → cut_dot (xs ++ dot ∷ ys) ≡ some (xs, ys)
unfolding cut_dot
cut_dot_joined [] ys h = refl
cut_dot_joined (x ∷ xs) ys (d, h) = rw (d, cut_dot_joined xs ys h) refl

cut_dot_dotless : (xs : List ℕ) → IsDotless xs → cut_dot xs ≡ none
unfolding cut_dot
cut_dot_dotless [] h = refl
cut_dot_dotless (x ∷ xs) (d, h) = rw (d, cut_dot_dotless xs h) refl

eqb→eq : (m n : ℕ) → eqb m n ≡ true → m ≡ n
eqb→eq m n h = ground arith

-- How a cut ends.
data Cut : List ℕ → Option (List ℕ × List ℕ) → Type 0 where
  whole : {xs : List ℕ} → IsDotless xs → Cut xs none
  parted : {xs ys : List ℕ} → IsDotless xs → Cut (xs ++ dot ∷ ys) (some (xs, ys))

cut_dot-Cut : (bs : List ℕ) → Cut bs (cut_dot bs)
unfolding cut_dot
cut_dot-Cut [] = whole tt
cut_dot-Cut (b ∷ bs) = elim (Bool-cases (eqb b dot)) [
  | inl e ↦ rw e (
      subst (λ x. Cut (x ∷ bs) (some ([], bs))) (sym (eqb→eq b dot e))
        (parted {xs = []} {ys = bs} tt))
  | inr e ↦ rw e (extend b (cut_dot-Cut bs) e)
]
  where
    extend :
        {bs : List ℕ} {o : Option (List ℕ × List ℕ)} (b : ℕ)
        → Cut bs o
        → eqb b dot ≡ false
        → Cut (b ∷ bs) (prepend b o)
    extend b (whole h) e = whole (e, h)
    extend b (parted h) e = parted (e, h)

-- What `segments` finds.
pub record IsSegmented (token hb pb sb : List ℕ) : Type 0 where
  pub joined : token ≡ joined_by_dots hb pb sb
  pub header_dotless : IsDotless hb
  pub payload_dotless : IsDotless pb
  pub signature_dotless : IsDotless sb
  pub header_some : hb ≢ []
  pub payload_some : pb ≢ []

three-IsSegmented :
    (h p s hb pb sb : List ℕ) {o : Option (List ℕ × List ℕ)}
    → IsDotless h
    → IsDotless p
    → Cut s o
    → three h p s o ≡ some (hb, pb, sb)
    → IsSegmented (joined_by_dots h p s) hb pb sb
unfolding three
three-IsSegmented [] p s hb pb sb dh dp c e = absurd (ground (arith, e))
three-IsSegmented (x ∷ h) [] s hb pb sb dh dp c e = absurd (ground (arith, e))
three-IsSegmented (x ∷ h) (y ∷ p) s hb pb sb dh dp (parted d) e = absurd (ground (arith, e))
three-IsSegmented (x ∷ h) (y ∷ p) s hb pb sb dh dp (whole d) e =
    subst
      (λ (t : List ℕ × List ℕ × List ℕ). IsSegmented (joined_by_dots (x ∷ h) (y ∷ p) s) t.0 t.1 t.2)
      (some-injective _ _ e)
      (record {
        joined = refl;
        header_dotless = dh;
        payload_dotless = dp;
        signature_dotless = d;
        header_some = λ q. ground (arith, q);
        payload_some = λ q. ground (arith, q);
      })

-- What `segments` finds is there.
pub segments-IsSegmented :
    (token hb pb sb : List ℕ) → segments token ≡ some (hb, pb, sb) → IsSegmented token hb pb sb
unfolding segments
segments-IsSegmented token hb pb sb e = first (cut_dot-Cut token) e
  where
    second :
        (h : List ℕ) {rest : List ℕ} {o : Option (List ℕ × List ℕ)}
        → IsDotless h
        → Cut rest o
        → after_first h o ≡ some (hb, pb, sb)
        → IsSegmented (h ++ dot ∷ rest) hb pb sb
    second h dh (whole d) q = absurd (ground (arith, q))
    second h dh (parted {xs = p} {ys = s} dp) q =
        three-IsSegmented h p s hb pb sb dh dp (cut_dot-Cut s) q

    first :
        {bs : List ℕ} {o : Option (List ℕ × List ℕ)}
        → Cut bs o
        → from_first o ≡ some (hb, pb, sb)
        → IsSegmented bs hb pb sb
    first (whole d) q = absurd (ground (arith, q))
    first (parted {xs = h} {ys = rest} dh) q = second h dh (cut_dot-Cut rest) q

-- What is there, `segments` finds.
pub segments_complete :
    (token hb pb sb : List ℕ) → IsSegmented token hb pb sb → segments token ≡ some (hb, pb, sb)
unfolding segments
segments_complete token [] pb sb s = absurd (s.header_some refl)
segments_complete token (h ∷ hb) [] sb s = absurd (s.payload_some refl)
segments_complete token (h ∷ hb) (p ∷ pb) sb s =
    rw
      (
        s.joined,
        cut_dot_joined (h ∷ hb) ((p ∷ pb) ++ dot ∷ sb) s.header_dotless,
        cut_dot_joined (p ∷ pb) sb s.payload_dotless,
        cut_dot_dotless sb s.signature_dotless,
      )
      refl
