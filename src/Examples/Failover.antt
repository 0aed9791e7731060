-- ===== src/Examples/Failover.antt =====
-- The theorem on the failover of internal/dash/rotation/engine.go, applied.
use waterfall.Prelude.{
  ℕ, suc, ◌==◌, String, ◌≡◌, refl, true, false, none, some, [], ◌∷◌, if◌then◌else◌,
}
use waterfall.Domain.Errors.{ok}
use waterfall.Dash.Rotation.Select.{PoolKey, PoolState}
use waterfall.Dash.Rotation.Lease.{drawn, exhausted, Vault, lease_key}
use waterfall.Dash.Rotation.Lease.Failover.{first_served, outcome, lease_key-first_served}

-- The first key has no quota left; every call takes one tick.
abbrev scarce : Vault ℕ
scarce = record {
  draw = λ id w. (if id == "k1" then exhausted else drawn, suc w);
  open_secret = λ id w. (some "secret", suc w);
  fire_quota = λ id w. suc w;
  roll = λ w. record { int_n = λ n. 0; sample = 0 };
}

abbrev a_key : String → PoolKey
a_key id = record { id = id; avail = true }

abbrev three_keys : PoolState
three_keys = record {
  strategy = "priority";
  fallback_region = "";
  keys = a_key "k1" ∷ record { id = "k2"; avail = false } ∷ a_key "k3" ∷ [];
  rr = 0;
  has_alias = false;
  bands = none;
  rings = [];
}

lease_key-first_served_example :
    outcome (lease_key scarce "eu" three_keys 0) ≡ first_served scarce three_keys.keys 0
unfolding waterfall.Dash.Rotation.Select.listed
lease_key-first_served_example =
    lease_key-first_served scarce "eu" three_keys 0 refl
      ((refl, (refl, tt)), ((refl, tt), (tt, tt)))

the_third_serves :
    first_served scarce three_keys.keys 0 ≡ (ok (record { key_id = "k3"; secret = "secret" }), 4)
unfolding first_served
the_third_serves = refl
