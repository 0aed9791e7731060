-- ===== src/Auth/Verify.antt =====
-- `Verify` of internal/auth/jwt.go.
use waterfall.Prelude.{
  ℕ, ℤ, String, ◌==◌, ◌||◌, Bool, not, Option, none, some, List, [], ◌∷◌, ◌++◌, Dict, get,
  equal_bytes, or_else,
}
use waterfall.Domain.Errors.{GoError, Result, ok, err, and_then, require}
use waterfall.Auth.Token.{segments, dot}
use waterfall.Auth.Claims.{
  RawClaims, Claims, AudJson, Expected, validate_claims, malformed, unsupported_alg, unknown_kid,
  bad_signature,
}

-- `header`, without the type that nothing reads.
pub record Header : Type 0 where
  pub alg : String
  pub kid : String

-- `key`: the bytes of a secret, or a public key of type `P`.
pub data Key (P : Type 0) : Type 0 where
  hmac_key : List ℕ → Key P
  rsa_key : P → Key P

abbrev pub alg_of : {P : Type 0} → Key P → String
alg_of (hmac_key secret) = "HS256"
alg_of (rsa_key public) = "RS256"

-- What is used of packages base64, encoding/json, crypto/hmac and crypto/rsa. `rsa_verify` takes
-- the message, whose SHA-256 is what is signed.
pub record JwtLib (P : Type 0) : Type 0 where
  pub decode_segment : List ℕ → Option (List ℕ)
  pub read_header : List ℕ → Option Header
  pub read_claims : List ℕ → Option RawClaims
  pub hmac_sha256 : List ℕ → List ℕ → List ℕ
  pub rsa_verify : P → List ℕ → List ℕ → Bool
  pub aud : AudJson

-- `Verifier`, without its clock.
pub record Verifier (P : Type 0) : Type 0 where
  pub keys : Dict (Key P)
  pub expected : Expected

-- What `split` gives.
pub record Split : Type 0 where
  pub header : Header
  pub hb : List ℕ
  pub pb : List ℕ
  pub sig : List ℕ

abbrev pub present : {A : Type 0} → GoError → Option A → Result A
present e none = err e
present e (some a) = ok a

module _ {P : Type 0} (lib : JwtLib P) where
  -- Whether the key vouches for the message.
  unfoldable pub signed : Key P → List ℕ → List ℕ → Bool
  signed (hmac_key secret) message sig = equal_bytes sig (lib.hmac_sha256 secret message)
  signed (rsa_key public) message sig = lib.rsa_verify public message sig

  -- `split`.
  unfoldable pub split : List ℕ → Result Split
  split token = and_then (present malformed (segments token)) (λ t.
      and_then (present malformed (lib.decode_segment t.0)) (λ hraw.
        and_then (present malformed (lib.read_header hraw)) (λ h.
          and_then (present malformed (lib.decode_segment t.2))
            (λ sig. ok (record { header = h; hb = t.0; pb = t.1; sig = sig })))))

  -- `pb2bytes`: a payload that does not decode is read as "{}".
  unfoldable pub payload_bytes : List ℕ → List ℕ
  payload_bytes pb = or_else (b'{' ∷ b'}' ∷ []) (lib.decode_segment pb)

  -- `Verify`.
  unfoldable pub verify_token : Verifier P → ℤ → List ℕ → Result Claims
  unfolding split signed payload_bytes
  verify_token v now token = and_then (split token) (λ s.
      and_then (require (not (s.header.alg == "none" || s.header.alg == "")) unsupported_alg) (λ _.
        and_then (present unknown_kid (get v.keys s.header.kid)) (λ k.
          and_then (require (s.header.alg == alg_of k) unsupported_alg) (λ _.
            and_then (require (signed k (s.hb ++ dot ∷ s.pb) s.sig) bad_signature) (λ _.
              and_then (present malformed (lib.read_claims (payload_bytes s.pb)))
                (λ rc. validate_claims lib.aud v.expected now rc))))))
