-- ===== src/Examples/Data.antt =====
-- Small concrete instances of what the models leave open: numbers for floats, a ticking clock for
-- the world, and one vendor that answers and one that fails.
use waterfall.Prelude.{
  ℕ, ◌+◌, ◌-◌, ◌*◌, ◌/◌, ◌==◌, pos, pos_part, String, false, none, some, [], ◌∷◌, ltb, leb, eqb,
  if◌then◌else◌,
}
use waterfall.Domain.Errors.{other, ok, err}
use waterfall.Domain.Fields.{Float}
use waterfall.Domain.Values.{Values, FieldValue}
use waterfall.Domain.Requests.{EnrichmentRequest, Strings}
use waterfall.Tenant.{Context, background}
use waterfall.Provider.Env.{Env, CallPolicy, Request, Adapter}
use waterfall.Provider.Breaker.{Breaker, closed}
use waterfall.Provider.Call.{default_policy}
use waterfall.Router.Types.{Plan}
use waterfall.Engine.Types.{Engine, RunState}

-- Hundredths stand for confidences.
abbrev pub percent : Float
percent = record {
  F = ℕ;
  float_zero = 0;
  float_one = 100;
  million = 1_000_000;
  neg_inf = 0;
  pos_inf = 1_000_000;
  lt = ltb;
  le = leb;
  eq = eqb;
  add = λ a b. a + b;
  sub = λ a b. a - b;
  mul = λ a b. a * b;
  div = λ a b. a / b;
  log = λ a. a;
  exp = λ a. a;
  neg = λ a. a;
  of_int = pos_part;
}

-- Every look at the clock takes one tick.
abbrev pub ticking : Env ℕ
ticking = record {
  now = λ w. (w, w + 1);
  context_done = λ w. (false, w);
  wait = λ d w. (false, w + pos_part d);
}

-- Texts of a few bytes; " acme" is trimmed to "acme".
abbrev pub texts : Strings
texts = record {
  bytes = λ t. if t == "" then [] else if t == "acme" then b'a' ∷ b'c' ∷ [] else b'x' ∷ [];
  less = λ s t. false;
  to_lower = λ t. t;
  trim_space = λ t. if t == " acme" then "acme" else t;
  sha256_hex = λ b. "digest";
}

abbrev pub as_tenant : String → Context
as_tenant t = record background {
  principal = some (record { tenant_id = t; user_id = "u"; scopes = [] });
}

abbrev pub emails : Values ℕ
emails = ("work_email", record { value = "a@b.c"; confidence = 90 }) ∷ []

abbrev pub email_value : FieldValue ℕ
email_value = record {
  field = "work_email";
  value = "a@b.c";
  confidence = 90;
  prov = record {
    provider = "hunter";
    observed_at = 7;
    cost_credits = pos 5;
    confidence = 90;
    idempotency_key = "digest";
  };
}

abbrev pub policy : CallPolicy
policy = record default_policy { backoff = pos 2; max_backoff = pos 3 }

abbrev pub answering : Adapter ℕ ℕ
answering = record {
  name = "hunter";
  capabilities = record { field = "work_email"; cost = pos 5; expected_confidence = 90 } ∷ [];
  call_policy = none;
  fetch = λ ctx deadline req w. (ok emails, w + 1);
}

abbrev pub failing : Adapter ℕ ℕ
failing = record answering {
  name = "clearbit";
  fetch = λ ctx deadline req w. (err (other "timeout"), w + 1);
}

abbrev pub fresh_breaker : Breaker
fresh_breaker = record {
  failure_threshold = 3;
  cooldown = 10;
  state = closed;
  failures = 0;
  opened_at = 0;
}

abbrev pub ask : Request
ask = record { known = []; fields = "work_email" ∷ []; idempotency_key = "digest" }

abbrev pub request : EnrichmentRequest ℕ
request = record {
  job_id = "job";
  subject = record { id = "ada"; known = ("company_name", "acme") ∷ [] };
  want = "work_email" ∷ [];
  confidence_target = 80;
  cost_ceiling = pos 20;
  config_version = "v1";
  workflow_key = "";
  country = "de";
}

-- The same request, with a space before the name of the company.
abbrev pub spaced_request : EnrichmentRequest ℕ
spaced_request = record request {
  subject = record { id = "ada"; known = ("company_name", " acme") ∷ [] };
}

abbrev pub plan : Plan ℕ
plan = record {
  by_field =
      (
        "work_email",
        record {
          field = "work_email";
          provider = "clearbit";
          cost = pos 3;
          expected_confidence = 90;
        }
            ∷ record {
              field = "work_email";
              provider = "hunter";
              cost = pos 5;
              expected_confidence = 90;
            }
            ∷ [],
      )
      ∷ [];
  order = "work_email" ∷ [];
}

abbrev pub engine : Engine ℕ ℕ
engine = record {
  adapters = ("hunter", answering) ∷ ("clearbit", failing) ∷ [];
  policy = policy;
  calibrator = none;
}

abbrev pub start : RunState ℕ ℕ
start = record {
  store = record { idempotency = []; committed = []; versions = [] };
  breakers = ("hunter", fresh_breaker) ∷ [];
  sentinel = "";
  world = 1;
  fetches = 0;
  events = [];
}
