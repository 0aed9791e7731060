-- ===== src/Auth/Authentic.antt =====
-- Which tokens internal/auth/jwt.go accepts.
use waterfall.Prelude.{
  ℕ, ℤ, ◌≤ℤ◌, arith, ◌≡◌, ◌≢◌, ◌↔◌, refl, ap, ◌∙◌, String, ◌==◌, eq_iff, ◌||◌, true, not,
  Bool-cases, Option, none, some, List, ◌∷◌, ◌++◌, get, inl, inr,
}
use mathlib.Core.Path.{subst}
use mathlib.Core.Option.{some-injective}
use waterfall.Domain.Errors.{GoError, ok, and_then, require, and_then-ok, require-ok, ok-injective}
use waterfall.Auth.Token.{dot, IsSegmented, segments-IsSegmented, segments_complete}
use waterfall.Auth.Claims.{
  RawClaims, Claims, AudJson, Expected, validate_claims, audience_matches, claims_of, unix,
  add_duration, in_time, has_begun,
}
use waterfall.Auth.Verify.{
  Key, hmac_key, rsa_key, alg_of, JwtLib, Verifier, Split, present, signed, split, payload_bytes,
  verify_token,
}

present-ok : {A : Type 0} (e : GoError) (o : Option A) (a : A) → present e o ≡ ok a → o ≡ some a
present-ok e none a h = absurd (ground (arith, h))
present-ok e (some b) a h = ap some (ok-injective b a h)

not_equal : (s u : String) → s ≢ u → not (s == u) ≡ true
not_equal s u h = elim (Bool-cases (s == u)) [
  | inl e ↦ absurd (h ((eq_iff s u).0 e))
  | inr e ↦ rw e refl
]

-- Claims that a verifier takes at a time: the expiry is there and not past, the token has begun,
-- both within the leeway, and the issuer, the audience and the tenant are as they must be.
pub record IsCurrent (json : AudJson) (v : Expected) (now : ℤ) (rc : RawClaims) : Type 0 where
  pub exp : ℤ
  pub expires : rc.exp ≡ some exp
  pub timely : now ≤ℤ add_duration (unix exp) v.leeway
  pub begun : (nbf : ℤ) → rc.nbf ≡ some nbf → unix nbf ≤ℤ add_duration now v.leeway
  pub issuer : (v.iss == "" || rc.iss == v.iss) ≡ true
  pub audience : (v.aud == "" || audience_matches json rc.aud v.aud) ≡ true
  pub tenant : rc.tenant_id ≢ ""

module _ (now leeway : ℤ) where
  in_time-ok :
      (o : Option ℤ)
      → in_time now leeway o ≡ true
      → (exp : ℤ) × (o ≡ some exp) × (now ≤ℤ add_duration (unix exp) leeway)
  unfolding in_time
  in_time-ok none h = absurd (ground (arith, h))
  in_time-ok (some exp) h = (exp, refl, ground (arith, h))

  in_time_complete :
      (exp : ℤ) → now ≤ℤ add_duration (unix exp) leeway → in_time now leeway (some exp) ≡ true
  unfolding in_time
  in_time_complete exp h = ground (arith, h)

  has_begun-ok :
      (o : Option ℤ)
      → has_begun now leeway o ≡ true
      → (nbf : ℤ) → o ≡ some nbf
      → unix nbf ≤ℤ add_duration now leeway
  unfolding has_begun
  has_begun-ok none h nbf e = absurd (ground (arith, e))
  has_begun-ok (some n) h nbf e =
      subst (λ m. unix m ≤ℤ add_duration now leeway) (some-injective _ _ e) (ground (arith, h))

  has_begun_complete :
      (o : Option ℤ)
      → ((nbf : ℤ) → o ≡ some nbf → unix nbf ≤ℤ add_duration now leeway)
      → has_begun now leeway o ≡ true
  unfolding has_begun
  has_begun_complete none h = refl
  has_begun_complete (some n) h = ground (arith, h n refl)

module _ (json : AudJson) (v : Expected) (now : ℤ) (rc : RawClaims) where
  validate_claims-IsCurrent :
      (c : Claims)
      → validate_claims json v now rc ≡ ok c
      → IsCurrent json v now rc × (claims_of rc ≡ c)
  unfolding validate_claims
  validate_claims-IsCurrent c h =
      let (u1, q1, h1) = and_then-ok _ _ c h in
      let (u2, q2, h2) = and_then-ok _ _ c h1 in
      let (u3, q3, h3) = and_then-ok _ _ c h2 in
      let (u4, q4, h4) = and_then-ok _ _ c h3 in
      let (u5, q5, h5) = and_then-ok _ _ c h4 in
      let (exp, expires, timely) = in_time-ok now v.leeway rc.exp (require-ok _ _ u1 q1) in
      (
        record {
          exp = exp;
          expires = expires;
          timely = timely;
          begun = has_begun-ok now v.leeway rc.nbf (require-ok _ _ u2 q2);
          issuer = require-ok _ _ u3 q3;
          audience = require-ok _ _ u4 q4;
          tenant = λ e. ground (arith, require-ok _ _ u5 q5, (eq_iff rc.tenant_id "").1 e);
        },
        ok-injective (claims_of rc) c h5,
      )

  validate_claims_complete :
      IsCurrent json v now rc → validate_claims json v now rc ≡ ok (claims_of rc)
  unfolding validate_claims and_then require
  validate_claims_complete h =
      rw
        (
          ap (in_time now v.leeway) h.expires ∙ in_time_complete now v.leeway h.exp h.timely,
          has_begun_complete now v.leeway rc.nbf h.begun,
          h.issuer,
          h.audience,
          not_equal rc.tenant_id "" h.tenant,
        )
        refl

module _ {P : Type 0} (lib : JwtLib P) where
  -- What `split` finds: three segments, whose first is the header and whose last the signature.
  pub record IsSplit (token : List ℕ) (s : Split) : Type 0 where
    pub sb : List ℕ
    pub segmented : IsSegmented token s.hb s.pb sb
    pub hraw : List ℕ
    pub header_decodes : lib.decode_segment s.hb ≡ some hraw
    pub header_reads : lib.read_header hraw ≡ some s.header
    pub signature_decodes : lib.decode_segment sb ≡ some s.sig

  split-IsSplit : (token : List ℕ) (s : Split) → split lib token ≡ ok s → IsSplit token s
  unfolding split
  split-IsSplit token s h =
      let (t, qt, s1) = and_then-ok _ _ s h in
      let (hraw, qh, s2) = and_then-ok _ _ s s1 in
      let (head, qd, s3) = and_then-ok _ _ s s2 in
      let (sig, qg, s4) = and_then-ok _ _ s s3 in
      subst (IsSplit token) (ok-injective _ s s4) (record {
        sb = t.2;
        segmented = segments-IsSegmented token t.0 t.1 t.2 (present-ok _ _ t qt);
        hraw = hraw;
        header_decodes = present-ok _ _ hraw qh;
        header_reads = present-ok _ _ head qd;
        signature_decodes = present-ok _ _ sig qg;
      })

  split_complete : (token : List ℕ) (s : Split) → IsSplit token s → split lib token ≡ ok s
  unfolding split and_then
  split_complete token s h =
      rw
        (
          segments_complete token s.hb s.pb h.sb h.segmented,
          h.header_decodes,
          h.header_reads,
          h.signature_decodes,
        )
        refl

  algorithm_named : (k : Key P) → not (alg_of k == "none" || alg_of k == "") ≡ true
  algorithm_named (hmac_key secret) = refl
  algorithm_named (rsa_key public) = refl

  -- What vouches for a token: its header names a key of the verifier and the key's own algorithm,
  -- the signature is one of that key on the first two segments, and the payload holds claims that
  -- are current and are the ones that are handed on.
  pub record IsAuthentic (v : Verifier P) (now : ℤ) (token : List ℕ) (c : Claims) : Type 0 where
    pub parts : Split
    pub is_split : IsSplit token parts
    pub key : Key P
    pub known : get v.keys parts.header.kid ≡ some key
    pub algorithm : parts.header.alg ≡ alg_of key
    pub signature : signed lib key (parts.hb ++ dot ∷ parts.pb) parts.sig ≡ true
    pub raw : RawClaims
    pub claims_read : lib.read_claims (payload_bytes lib parts.pb) ≡ some raw
    pub current : IsCurrent lib.aud v.expected now raw
    pub handed_on : claims_of raw ≡ c

  module _ (v : Verifier P) (now : ℤ) (token : List ℕ) (c : Claims) where
    verify_token-IsAuthentic : verify_token lib v now token ≡ ok c → IsAuthentic v now token c
    unfolding verify_token
    verify_token-IsAuthentic h =
        let (s, qs, h1) = and_then-ok _ _ c h in
        let (u1, q1, h2) = and_then-ok _ _ c h1 in
        let (k, qk, h3) = and_then-ok _ _ c h2 in
        let (u2, q2, h4) = and_then-ok _ _ c h3 in
        let (u3, q3, h5) = and_then-ok _ _ c h4 in
        let (rc, qr, h6) = and_then-ok _ _ c h5 in
        let (current, handed) = validate_claims-IsCurrent lib.aud v.expected now rc c h6 in
        record {
          parts = s;
          is_split = split-IsSplit token s qs;
          key = k;
          known = present-ok _ _ k qk;
          algorithm = (eq_iff s.header.alg (alg_of k)).0 (require-ok _ _ u2 q2);
          signature = require-ok _ _ u3 q3;
          raw = rc;
          claims_read = present-ok _ _ rc qr;
          current = current;
          handed_on = handed;
        }

    verify_token_complete : IsAuthentic v now token c → verify_token lib v now token ≡ ok c
    unfolding verify_token and_then require
    verify_token_complete h =
        rw
          (
            split_complete token h.parts h.is_split,
            h.known,
            h.algorithm,
            algorithm_named h.key,
            (eq_iff (alg_of h.key) (alg_of h.key)).1 refl,
            h.signature,
            h.claims_read,
            validate_claims_complete lib.aud v.expected now h.raw h.current,
          )
          (ap ok h.handed_on)

    -- `Verify` accepts exactly the authentic tokens, with their claims: those of a known key, under
    -- the key's own algorithm, signed, and with claims that are current and name a tenant.
    pub verify_token_iff : (verify_token lib v now token ≡ ok c) ↔ IsAuthentic v now token c
    verify_token_iff = (verify_token-IsAuthentic, verify_token_complete)
