-- ===== src/Examples/Requests.antt =====
-- The theorem on internal/provider/egress.go, applied.
use waterfall.Prelude.{ℕ, suc, ◌≡◌, pos, String, some, List, [], ◌∷◌, ◌++◌, All}
use waterfall.Domain.Errors.{ok}
use waterfall.Provider.Egress.Wire.{Outbound, oauth2_cc, AuthDescriptor, Texts}
use waterfall.Provider.Egress.Client.{Network, plain, Injector, guarded}
use waterfall.Provider.Egress.Guarded.{IsPermitted, guarded-IsPermitted}

abbrev to_host : String → String → Outbound
to_host scheme host = record {
  scheme = scheme;
  host = host;
  path = "/";
  query = "";
  headers = [];
  body = [];
}

-- Every URL reads as one of the metadata service.
abbrev plain_texts : Texts
plain_texts = record {
  concat = λ s t. t;
  cut_colon = λ s. (s, "");
  base64 = λ s. s;
  replace_first = λ s old new. new;
  set_query = λ q k v. v;
  parse_url = λ u. ok (to_host "http" "169.254.169.254");
  to_lower = λ s. s;
}

abbrev network : Network ℕ
network = record {
  round_trip = λ r w. (
    ok (record {
      status = 200;
      token = some (record {
        access_token = "t";
        access_token_camel = "";
        expires_in = pos 0;
        expires_in_std = pos 0;
      });
    }),
    suc w,
  );
  now = λ w. (pos w, suc w);
  resolver = plain (λ pool w. (ok "id:secret", suc w));
}

abbrev descriptor : AuthDescriptor
descriptor = record {
  scheme = oauth2_cc;
  header_name = "";
  second_header_name = "";
  query_param = "";
  path_placeholder = "";
  pool = "vendor:default";
  token_url = "http://169.254.169.254/";
  token_style = "";
}

abbrev idle : Injector ℕ
idle = record { world = 0; tokens = []; sent = []; reported = [] }

guarded-IsPermitted_example :
    (new : List Outbound) × ((guarded plain_texts network
        (("api.vendor.com", tt) ∷ [])
        (to_host "https" "api.vendor.com")
        (some descriptor)
        idle).1.sent
      ≡ [] ++ new)
    × All (IsPermitted plain_texts (("api.vendor.com", tt) ∷ []) (some descriptor)) new
guarded-IsPermitted_example =
    guarded-IsPermitted plain_texts network (("api.vendor.com", tt) ∷ [])
      (to_host "https" "api.vendor.com") (some descriptor) idle
