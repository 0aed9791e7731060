-- ===== src/Auth/Claims.antt =====
-- The claims of a token in internal/auth/jwt.go: `validateClaims`, `audienceMatches` and
-- `mergeScopes`. Scopes are byte lists; an instant is
-- an integer of nanoseconds since year 1.
use waterfall.Prelude.{
  ℕ, suc, ◌-◌, ◌*◌, ◌^◌, ℤ, pos, negsuc, ltb_ℤ, ◌+ℤ◌, wrap64, ltb, ◌+◌, ◌%◌, String, ◌==◌, Bool,
  true, false, not, ◌||◌, Option, none, some, List, [], ◌∷◌, ◌++◌, eqb, equal_bytes, if◌then◌else◌,
}
use waterfall.Domain.Errors.{GoError, other, Result, ok, and_then, require}

abbrev pub malformed : GoError
malformed = other "auth: malformed token"

abbrev pub unsupported_alg : GoError
unsupported_alg = other "auth: unsupported or disallowed algorithm"

abbrev pub unknown_kid : GoError
unknown_kid = other "auth: unknown key id"

abbrev pub bad_signature : GoError
bad_signature = other "auth: signature verification failed"

abbrev pub expired_token : GoError
expired_token = other "auth: token expired"

abbrev pub not_yet_valid : GoError
not_yet_valid = other "auth: token not yet valid"

abbrev pub bad_issuer : GoError
bad_issuer = other "auth: issuer not accepted"

abbrev pub bad_audience : GoError
bad_audience = other "auth: audience not accepted"

abbrev pub no_tenant : GoError
no_tenant = other "auth: token has no tenant_id claim"

-- `rawClaims`; `aud` is the JSON text.
pub record RawClaims : Type 0 where
  pub sub : String
  pub iss : String
  pub aud : List ℕ
  pub exp : Option ℤ
  pub nbf : Option ℤ
  pub iat : Option ℤ
  pub tenant_id : String
  pub scope : List ℕ
  pub scopes : List (List ℕ)

-- `Claims`.
pub record Claims : Type 0 where
  pub subject : String
  pub tenant_id : String
  pub scopes : List (List ℕ)
  pub issuer : String
  pub expires_at : ℤ
  pub issued_at : ℤ
  pub not_before : ℤ

-- What is used of encoding/json for the audience: a text as a string, or as an array of strings.
pub record AudJson : Type 0 where
  pub single : List ℕ → Option String
  pub many : List ℕ → Option (List String)

any_is : String → List String → Bool
any_is want [] = false
any_is want (a ∷ as') = a == want || any_is want as'

in_array : String → Option (List String) → Bool
unfolding any_is
in_array want none = false
in_array want (some list) = any_is want list

single_or_many : AudJson → List ℕ → String → Option String → Bool
unfolding in_array
single_or_many json raw want (some a) = a == want
single_or_many json raw want none = in_array want (json.many raw)

-- `audienceMatches`.
unfoldable pub audience_matches : AudJson → List ℕ → String → Bool
unfolding single_or_many
audience_matches json [] want = false
audience_matches json (b ∷ raw) want = single_or_many json (b ∷ raw) want (json.single (b ∷ raw))

unfoldable pub seen : List (List ℕ) → List ℕ → Bool
seen [] s = false
seen (t ∷ ts) s = equal_bytes t s || seen ts s

-- `add` of `mergeScopes`.
unfoldable pub add_scope : List (List ℕ) → List ℕ → List (List ℕ)
unfolding seen
add_scope out [] = out
add_scope out (b ∷ s) = if seen out (b ∷ s) then out else out ++ (b ∷ s) ∷ []

-- The words between spaces; `word` is the one that was begun.
unfoldable pub words : List ℕ → List ℕ → List (List ℕ)
words word [] = word ∷ []
words word (b ∷ bs) = if eqb b 32 then word ∷ words [] bs else words (word ++ b ∷ []) bs

unfoldable pub add_scopes : List (List ℕ) → List (List ℕ) → List (List ℕ)
unfolding add_scope
add_scopes out [] = out
add_scopes out (s ∷ ss) = add_scopes (add_scope out s) ss

-- `mergeScopes`; `add` leaves out empty words.
unfoldable pub merge_scopes : List ℕ → List (List ℕ) → List (List ℕ)
unfolding add_scopes words
merge_scopes text array = add_scopes (add_scopes [] (words [] text)) array

nanoseconds : ℤ → ℤ
nanoseconds (pos s) = pos (s * 10 ^ 9)
nanoseconds (negsuc s) = negsuc (suc s * 10 ^ 9 - 1)

-- `time.Unix(s, 0)`: the seconds from year 1 to 1970 are added as `int64` adds.
unfoldable pub unix : ℤ → ℤ
unfolding nanoseconds
unix s = nanoseconds (wrap64 (s +ℤ pos 62_135_596_800))

saturated : ℤ → ℤ
saturated (pos n) =
    if ltb n (2 ^ 63 * 10 ^ 9) then pos n else pos ((2 ^ 63 - 1) * 10 ^ 9 + n % 10 ^ 9)
saturated (negsuc n) =
    if ltb n (2 ^ 63 * 10 ^ 9)
    then negsuc n
    else negsuc ((2 ^ 63 - 1) * 10 ^ 9 - 10 ^ 9 + n % 10 ^ 9)

-- `Time.Add`; seconds past the range of `int64` stop at its ends.
unfoldable pub add_duration : ℤ → ℤ → ℤ
unfolding saturated
add_duration t d = saturated (t +ℤ d)

abbrev pub or_zero : Option ℤ → ℤ
or_zero none = pos 0
or_zero (some n) = n

-- `v.now()` is before the end of the leeway after the expiry.
unfoldable pub in_time : ℤ → ℤ → Option ℤ → Bool
unfolding unix add_duration
in_time now leeway none = false
in_time now leeway (some exp) = not (ltb_ℤ (add_duration (unix exp) leeway) now)

unfoldable pub has_begun : ℤ → ℤ → Option ℤ → Bool
unfolding unix add_duration
has_begun now leeway none = true
has_begun now leeway (some nbf) = not (ltb_ℤ (add_duration now leeway) (unix nbf))

-- The claims that are handed on.
unfoldable pub claims_of : RawClaims → Claims
unfolding merge_scopes
claims_of rc = record {
  subject = rc.sub;
  tenant_id = rc.tenant_id;
  scopes = merge_scopes rc.scope rc.scopes;
  issuer = rc.iss;
  expires_at = or_zero rc.exp;
  issued_at = or_zero rc.iat;
  not_before = or_zero rc.nbf;
}

-- What a verifier expects.
pub record Expected : Type 0 where
  pub iss : String
  pub aud : String
  pub leeway : ℤ

-- `validateClaims` at the time `now`.
unfoldable pub validate_claims : AudJson → Expected → ℤ → RawClaims → Result Claims
unfolding in_time has_begun audience_matches claims_of
validate_claims json v now rc = and_then (require (in_time now v.leeway rc.exp) expired_token) (λ _.
    and_then (require (has_begun now v.leeway rc.nbf) not_yet_valid) (λ _.
      and_then (require (v.iss == "" || rc.iss == v.iss) bad_issuer) (λ _.
        and_then (require (v.aud == "" || audience_matches json rc.aud v.aud) bad_audience)
          (λ _. and_then (require (not (rc.tenant_id == "")) no_tenant) (λ _. ok (claims_of rc))))))
