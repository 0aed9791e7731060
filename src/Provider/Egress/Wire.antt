-- ===== src/Provider/Egress/Wire.antt =====
-- What is sent in internal/provider/egress.go: the injection of a secret, and a token request.
use waterfall.Prelude.{
  ℕ, zero, suc, ℤ, pos, negsuc, sub64, wrap64, leb_ℤ, ◌*◌, ◌^◌, String, ◌==◌, not, Option, List, [],
  ◌∷◌, Dict, put, if◌then◌else◌,
}
use waterfall.Domain.Errors.{other, Result, ok, err}

pub record Outbound : Type 0 where
  pub scheme : String
  pub host : String
  pub path : String
  pub query : String
  pub headers : Dict String
  pub body : List (String × String)

-- `AuthScheme`, without a value for no authentication.
pub data AuthScheme : Type 0 where
  api_key_header api_key_dual_header api_key_query bearer basic api_key_path oauth2_cc : AuthScheme

-- `AuthDescriptor`.
pub record AuthDescriptor : Type 0 where
  pub scheme : AuthScheme
  pub header_name : String
  pub second_header_name : String
  pub query_param : String
  pub path_placeholder : String
  pub pool : String
  pub token_url : String
  pub token_style : String

-- What is read of the answer to a token request: the two spellings of the token, and the seconds.
pub record TokenReply : Type 0 where
  pub access_token : String
  pub access_token_camel : String
  pub expires_in : ℤ
  pub expires_in_std : ℤ

-- `http.Response`; `token` is its body as JSON, for the token exchange.
pub record Response : Type 0 where
  pub status : ℕ
  pub token : Option TokenReply

-- `provider.Lease`; its callback reports under the id of the key.
pub record Leased : Type 0 where
  pub key_id : String
  pub secret : String

-- What is used of net/url, encoding/base64 and strings.
pub record Texts : Type 0 where
  pub concat : String → String → String
  pub cut_colon : String → String × String
  pub base64 : String → String
  pub replace_first : String → String → String → String
  pub set_query : String → String → String → String
  pub parse_url : String → Result Outbound
  pub to_lower : String → String

seconds : ℕ → ℤ
seconds n = wrap64 (pos (n * 10 ^ 9))

-- A minute less than the token lasts, or all of it where it lasts no longer.
kept_for : ℕ → ℤ
unfolding seconds
kept_for n =
    let ttl = sub64 (seconds n) (pos (60 * 10 ^ 9)) in if leb_ℤ ttl (pos 0) then seconds n else ttl

or_an_hour : ℤ → ℤ
unfolding kept_for
or_an_hour (pos zero) = kept_for 3600
or_an_hour (pos (suc n)) = kept_for (suc n)
or_an_hour (negsuc n) = kept_for 3600

said_or : ℤ → ℤ → ℤ
said_or (pos zero) b = b
said_or a b = a

-- How long a token is kept: by the one spelling of the seconds, or else the other.
unfoldable pub ttl_of : TokenReply → ℤ
unfolding or_an_hour said_or
ttl_of t = or_an_hour (said_or t.expires_in t.expires_in_std)

-- The token of an answer: the one spelling, or else the other.
unfoldable pub token_of : TokenReply → Result String
token_of t =
    if not (t.access_token == "")
    then ok t.access_token
    else if not (t.access_token_camel == "")
    then ok t.access_token_camel
    else err (other "oauth2-cc token exchange: no access_token in response")

abbrev pub set_header : String → String → Outbound → Outbound
set_header name value r = record r { headers = put r.headers name value }

module _ (tx : Texts) where
  -- `inject`.
  unfoldable pub inject : AuthScheme → AuthDescriptor → String → Outbound → Outbound
  inject api_key_header d secret r = set_header d.header_name secret r
  inject api_key_dual_header d secret r =
      let (first, second) = tx.cut_colon secret in
      set_header d.second_header_name second (set_header d.header_name first r)
  inject api_key_query d secret r = record r { query = tx.set_query r.query d.query_param secret }
  inject bearer d secret r = set_header "Authorization" (tx.concat "Bearer " secret) r
  inject basic d secret r = set_header "Authorization" (tx.concat "Basic " (tx.base64 secret)) r
  inject api_key_path d secret r =
      if d.path_placeholder == ""
      then r
      else record r { path = tx.replace_first r.path d.path_placeholder secret }
  inject oauth2_cc d secret r = r

  -- The body and the headers of a token request, by its style.
  unfoldable pub token_form : AuthDescriptor → String → Outbound → Outbound
  token_form d secret r =
      let (cid, csec) = tx.cut_colon secret in
      let form : String = "application/x-www-form-urlencoded" in
      if d.token_style == "body"
      then record (set_header "Content-Type" form r) {
        body =
            ("grant_type", "client_credentials")
            ∷ ("client_id", cid)
            ∷ ("client_secret", csec)
            ∷ [];
      }
      else if d.token_style == "password"
      then record (set_header "Content-Type" form r) {
        body = ("grant_type", "password") ∷ ("username", cid) ∷ ("password", csec) ∷ [];
      }
      else if d.token_style == "json"
      then record (set_header "Content-Type" "application/json" r) {
        body =
            ("grantType", "client_credentials") ∷ ("clientId", cid) ∷ ("clientSecret", csec) ∷ [];
      }
      else record (set_header "Authorization" (tx.concat "Basic " (tx.base64 secret))
          (set_header "Content-Type" "application/json" r)) {
            body = ("grant_type", "client_credentials") ∷ [];
          }
