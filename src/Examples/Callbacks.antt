-- ===== src/Examples/Callbacks.antt =====
-- The theorem on internal/webhook/webhook.go, applied.
use waterfall.Prelude.{ℕ, suc, ltb, pos, refl, arith, [], ◌∷◌, if◌then◌else◌}
use waterfall.Domain.Errors.{ok}
use waterfall.Webhook.{Config, PostLib, Client, Sender, Mail, the_post, deliver}
use waterfall.Webhook.Delivered.{IsDelivery, deliver-IsDelivery}
use waterfall.Examples.Jobs.{job}

abbrev hook : Config
hook = record { url = "https://acme.example/hook"; secret = "s" }

abbrev post_lib : PostLib ℕ
post_lib = record {
  hostname = λ url. ok "acme.example";
  marshal = λ p. ok (b'{' ∷ b'}' ∷ []);
  format_time = λ t. "2026-01-01T00:00:00Z";
  hmac_hex = λ secret body. "00ff";
  concat = λ s t. t;
}

-- The endpoint is unavailable at first.
abbrev slow_client : Client ℕ
slow_client = record {
  post = λ host p w. (ok (if ltb w 2 then 503 else 204), suc w);
  sleep = λ d w. suc w;
}

abbrev one_tenant : Sender
one_tenant = record { registry = ("acme", hook) ∷ []; max_attempts = 3; backoff = pos 200_000_000 }

abbrev no_mail : Mail ℕ
no_mail = record { sent = []; world = 0 }

deliver-IsDelivery_example :
    IsDelivery post_lib slow_client one_tenant
      (the_post post_lib hook job (b'{' ∷ b'}' ∷ []))
      3
      []
      (deliver post_lib slow_client one_tenant job no_mail)
unfolding waterfall.Prelude.get waterfall.Webhook.build_payload
deliver-IsDelivery_example =
    deliver-IsDelivery post_lib slow_client one_tenant job no_mail hook (b'{' ∷ b'}' ∷ [])
      "acme.example" refl refl refl (ground arith)
