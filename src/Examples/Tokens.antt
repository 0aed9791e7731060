-- ===== src/Examples/Tokens.antt =====
-- The theorem on internal/auth/jwt.go, applied.
use waterfall.Prelude.{ℕ, ◌+◌, ◌%◌, ℤ, pos, ◌≡◌, refl, ◌↔◌, false, none, some, List, [], ◌∷◌}
use waterfall.Domain.Errors.{ok}
use waterfall.Auth.Claims.{RawClaims, Claims}
use waterfall.Auth.Verify.{hmac_key, JwtLib, Verifier, verify_token}
use waterfall.Auth.Authentic.{IsAuthentic, verify_token_iff}

-- A sum for a hash; the text of a segment is the segment.
sum_of : List ℕ → ℕ
sum_of [] = 0
sum_of (b ∷ bs) = b + sum_of bs

abbrev raw_claims : RawClaims
raw_claims = record {
  sub = "user-7";
  iss = "https://issuer.example";
  aud = b'w' ∷ [];
  exp = some (pos 1000);
  nbf = some (pos 900);
  iat = none;
  tenant_id = "tenant-a";
  scope = b'r' ∷ b' ' ∷ b'w' ∷ [];
  scopes = (b'w' ∷ []) ∷ [];
}

abbrev toy_lib : JwtLib ℕ
toy_lib = record {
  decode_segment = λ s. some s;
  read_header = λ s. some (record { alg = "HS256"; kid = "k1" });
  read_claims = λ s. some raw_claims;
  hmac_sha256 = λ secret message. (sum_of secret + sum_of message) % 256 ∷ [];
  rsa_verify = λ public message sig. false;
  aud = record { single = λ s. some "waterfall"; many = λ s. none };
}

abbrev one_key : Verifier ℕ
one_key = record {
  keys = ("k1", hmac_key (b's' ∷ [])) ∷ [];
  expected = record { iss = "https://issuer.example"; aud = "waterfall"; leeway = pos 60000000000 };
}

-- "h.p." and the sum.
abbrev a_token : List ℕ
a_token = b'h' ∷ b'.' ∷ b'p' ∷ b'.' ∷ 121 ∷ []

abbrev its_claims : Claims
its_claims = record {
  subject = "user-7";
  tenant_id = "tenant-a";
  scopes = (b'r' ∷ []) ∷ (b'w' ∷ []) ∷ [];
  issuer = "https://issuer.example";
  expires_at = pos 1000;
  issued_at = pos 0;
  not_before = pos 900;
}

abbrev since_year_one : ℤ
since_year_one = pos 62_135_597_750_000_000_000

a_token_verifies : verify_token toy_lib one_key (since_year_one) a_token ≡ ok its_claims
unfolding verify_token sum_of waterfall.Domain.Errors.and_then waterfall.Auth.Token.segments
    waterfall.Auth.Token.cut_dot waterfall.Domain.Errors.require waterfall.Prelude.get
    waterfall.Prelude.equal_bytes waterfall.Auth.Claims.validate_claims waterfall.Prelude.◌+ℤ◌
    waterfall.Prelude.wrap64
a_token_verifies = refl

verify_token_iff_example :
    (verify_token toy_lib one_key (since_year_one) a_token ≡ ok its_claims)
    ↔ IsAuthentic toy_lib one_key (since_year_one) a_token its_claims
verify_token_iff_example = verify_token_iff toy_lib one_key (since_year_one) a_token its_claims
