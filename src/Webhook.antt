-- ===== src/Webhook.antt =====
-- internal/webhook/webhook.go: the callback to a tenant when a job has ended.
pub mod Delivered
use waterfall.Prelude.{
  ℕ, zero, suc, ◌-◌, ◌*◌, ◌^◌, ℤ, pos, negsuc, wrap64, ltb, leb, eqb, not, ◌&&◌, String, Bool, true,
  false, Option, none, some, List, [], ◌∷◌, ◌++◌, Dict, get, if◌then◌else◌,
}
use waterfall.Domain.Errors.{GoError, other, Result, ok, err}
use waterfall.Domain.Fields.{Credits}
use waterfall.Domain.Values.{Time, FieldValue}
use waterfall.Engine.Types.{Outcome}
use waterfall.Job.Types.{Job, Status, queued, running, succeeded, failed}

-- `Config`.
pub record Config : Type 0 where
  pub url : String
  pub secret : String

-- `fieldPayload`.
pub record FieldPayload (C : Type 0) : Type 0 where
  pub value : String
  pub confidence : C
  pub provider : String
  pub cost_credits : Credits
  pub idempotency_key : String
  pub observed_at : String

-- `payload`.
pub record Payload (C : Type 0) : Type 0 where
  pub event : String
  pub job_id : String
  pub status : Status
  pub committed_credits : Credits
  pub filled : Dict (FieldPayload C)
  pub error : String

-- A request of the sender.
pub record Post : Type 0 where
  pub url : String
  pub event : String
  pub signature : String
  pub body : List ℕ

-- What is used of net/url, encoding/json, time, and crypto/hmac with encoding/hex.
pub record PostLib (C : Type 0) : Type 0 where
  pub hostname : String → Result String
  pub marshal : Payload C → Result (List ℕ)
  pub format_time : Time → String
  pub hmac_hex : String → List ℕ → String
  pub concat : String → String → String

-- The client for a host, with the status that it gets, and the timer.
pub record Client (W : Type 0) : Type 0 where
  pub post : String → Post → W → Result ℕ × W
  pub sleep : ℤ → W → W

-- `Sender`.
pub record Sender : Type 0 where
  pub registry : Dict Config
  pub max_attempts : ℕ
  pub backoff : ℤ

-- What was sent, with the answers, and the world.
pub record Mail (W : Type 0) : Type 0 where
  pub sent : List (Post × Result ℕ)
  pub world : W

-- `eventName`.
unfoldable pub event_name : Status → String
event_name failed = "enrichment.failed"
event_name _ = "enrichment.completed"

-- A shift of a duration, as `int64` shifts.
unfoldable pub shift_left : ℤ → ℕ → ℤ
shift_left (pos n) k = wrap64 (pos (n * 2 ^ k))
shift_left (negsuc n) k = wrap64 (negsuc (suc n * 2 ^ k - 1))

-- An answer that ends the loop, delivered or refused, or the error to go on with.
unfoldable pub settled : Result ℕ → Option (Result (Unit {0}))
settled (err e) = none
settled (ok code) =
    if ltb code 400
    then some (ok tt)
    else if ltb code 500 && not (eqb code 429)
    then some (err (other "webhook returned 4xx"))
    else none

unfoldable pub error_of : Result ℕ → GoError
error_of (err e) = e
error_of (ok code) = other "webhook returned 5xx"

unfoldable pub after_post :
    {W : Type 0}
    → Option (Result (Unit {0}))
    → (Mail W → Result (Unit {0}) × Mail W)
    → Mail W
    → Result (Unit {0}) × Mail W
after_post (some r) rest m = (r, m)
after_post none rest m = rest m

unfoldable pub last_result : Option GoError → Result (Unit {0})
last_result none = ok tt
last_result (some e) = err e

module _ {C : Type 0} (lib : PostLib C) where
  -- `Sign`.
  unfoldable pub sign : String → List ℕ → String
  sign secret body = lib.concat "sha256=" (lib.hmac_hex secret body)

  field_payloads : Dict (FieldValue C) → Dict (FieldPayload C)
  field_payloads [] = []
  field_payloads ((f, v) ∷ vs) =
      (
        f,
        record {
          value = v.value;
          confidence = v.confidence;
          provider = v.prov.provider;
          cost_credits = v.prov.cost_credits;
          idempotency_key = v.prov.idempotency_key;
          observed_at = lib.format_time v.prov.observed_at;
        },
      )
      ∷ field_payloads vs

  with_outcome : Payload C → Option (Outcome C) → Payload C
  unfolding field_payloads
  with_outcome p none = p
  with_outcome p (some o) = record p {
    committed_credits = o.committed;
    filled = field_payloads o.filled_values;
  }

  -- `buildPayload`.
  unfoldable pub build_payload : Job C → Result (List ℕ)
  unfolding with_outcome event_name
  build_payload j = lib.marshal (
      with_outcome
        (record {
          event = event_name j.status;
          job_id = j.id;
          status = j.status;
          committed_credits = pos 0;
          filled = [];
          error = j.err_text;
        })
        j.outcome)

  abbrev pub the_post : Config → Job C → List ℕ → Post
  the_post cfg j body = record {
    url = cfg.url;
    event = event_name j.status;
    signature = sign cfg.secret body;
    body = body;
  }

  module _ {W : Type 0} (client : Client W) (s : Sender) where
    unfoldable pub pause : ℕ → ℕ → Mail W → Mail W
    unfolding shift_left
    pause zero attempt m = m
    pause (suc n) attempt m = record m {
      world = client.sleep (shift_left s.backoff (attempt - 1)) m.world;
    }

    -- The loop over the attempts; so many are left, from this one on.
    unfoldable pub post_loop :
        String → Post → ℕ → ℕ → Option GoError → Mail W → Result (Unit {0}) × Mail W
    unfolding settled error_of pause after_post last_result
    post_loop host p zero attempt last m = (last_result last, m)
    post_loop host p (suc n) attempt last m =
        let (reply, w) = client.post host p m.world in
        after_post (settled reply)
          (λ m'. post_loop host p n (suc attempt) (some (error_of reply)) (pause n attempt m'))
          (record { sent = m.sent ++ (p, reply) ∷ []; world = w })

    with_host : Post → Result String → Mail W → Result (Unit {0}) × Mail W
    unfolding post_loop
    with_host p (err e) m = (err e, m)
    with_host p (ok host) m = post_loop host p s.max_attempts 1 none m

    with_body : Config → Job C → Result (List ℕ) → Mail W → Result (Unit {0}) × Mail W
    unfolding with_host sign event_name
    with_body cfg j (err e) m = (err e, m)
    with_body cfg j (ok body) m = with_host (the_post cfg j body) (lib.hostname cfg.url) m

    with_config : Job C → Option Config → Mail W → Result (Unit {0}) × Mail W
    unfolding with_body build_payload
    with_config j none m = (ok tt, m)
    with_config j (some cfg) m = with_body cfg j (build_payload j) m

    -- `Deliver`; a negative number of attempts is 0.
    unfoldable pub deliver : Job C → Mail W → Result (Unit {0}) × Mail W
    unfolding with_config
    deliver j m = with_config j (get s.registry j.tenant) m
