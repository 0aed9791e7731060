-- ===== src/Dash/Rotation/Lease.antt =====
-- `Lease` of internal/dash/rotation/engine.go: a key of the pool, one token of its quota, and its
-- secret; a key without quota is parked, and the walk goes on to another.
pub mod Failover
use waterfall.Prelude.{
  ℕ, zero, suc, ◌+◌, ◌==◌, String, Bool, true, false, Option, none, some, List, [], ◌∷◌, Dict,
  map_values, map, length, if◌then◌else◌,
}
use waterfall.Domain.Errors.{GoError, other, Result, ok, err}
use waterfall.Dash.Rotation.Select.{PoolKey, RegionRing, Band, PoolState, Dice, select_skip}

-- What `draw` of the quota says, an error that is not `ErrQuotaExhausted` with its value.
pub data Draw : Type 0 where
  drawn exhausted : Draw
  failed : GoError → Draw

-- What `Lease` calls, by the id of a key: the draw, the opening of the secret, and the writes of
-- `fireQuota`; and the random sources. All of them move the world on.
pub record Vault (W : Type 0) : Type 0 where
  pub draw : String → W → Draw × W
  pub open_secret : String → W → Option String × W
  pub fire_quota : String → W → W
  pub roll : W → Dice

-- `provider.Lease`, without its callback.
pub record Lease : Type 0 where
  pub key_id : String
  pub secret : String

-- What the loop holds: the pool, the keys to skip, and the world.
pub record Walk (W : Type 0) : Type 0 where
  pub pool : PoolState
  pub skip : List String
  pub world : W

abbrev pub no_key_available : GoError
no_key_available = other "rotation: no available key in pool"

abbrev pub secret_open : GoError
secret_open = other "rotation: could not open key secret"

-- `k.avail.Store(false)`, also by `markStatus`, on a key that lists of the pool share.
unfoldable pub dropped : String → PoolKey → PoolKey
dropped id k = if k.id == id then record k { avail = false } else k

unfoldable pub drop_key : String → List PoolKey → List PoolKey
unfolding dropped
drop_key id [] = []
drop_key id (k ∷ ks) = dropped id k ∷ drop_key id ks

drop_in_band : String → Band → Band
unfolding drop_key
drop_in_band id b = record b { keys = drop_key id b.keys }

drop_in_ring : String → RegionRing → RegionRing
unfolding drop_key
drop_in_ring id ring = record ring { keys = drop_key id ring.keys }

drop_bands : String → Option (List Band) → Option (List Band)
unfolding drop_in_band
drop_bands id none = none
drop_bands id (some bands) = some (map (drop_in_band id) bands)

unfoldable pub park_key : String → PoolState → PoolState
unfolding drop_bands drop_key drop_in_ring
park_key id p = record p {
  keys = drop_key id p.keys;
  bands = drop_bands id p.bands;
  rings = map_values (drop_in_ring id) p.rings;
}

module _ {W : Type 0} (v : Vault W) (region : String) where
  unfoldable pub with_secret : PoolKey → Walk W → Option String × W → Result Lease × Walk W
  with_secret k st (none, w) = (err secret_open, record st { world = w })
  with_secret k st (some secret, w) =
      (ok (record { key_id = k.id; secret = secret }), record st { world = w })

  unfoldable pub after_draw :
      (Walk W → Result Lease × Walk W) → PoolKey → Walk W → Draw × W → Result Lease × Walk W
  unfolding with_secret
  after_draw next k st (drawn, w) = with_secret k st (v.open_secret k.id w)
  after_draw next k st (failed e, w) = (err e, record st { world = w })
  after_draw next k st (exhausted, w) =
      next (record {
        pool = park_key k.id st.pool;
        skip = k.id ∷ st.skip;
        world = v.fire_quota k.id w;
      })

  unfoldable pub after_select :
      (Walk W → Result Lease × Walk W) → Walk W → Option PoolKey × PoolState → Result Lease × Walk W
  unfolding after_draw
  after_select next st (none, p) = (err no_key_available, record st { pool = p })
  after_select next st (some k, p) =
      after_draw next k (record st { pool = p }) (v.draw k.id st.world)

  -- One turn of the loop; `next` is the rest of it.
  unfoldable pub attempt : (Walk W → Result Lease × Walk W) → Walk W → Result Lease × Walk W
  unfolding after_select
  attempt next st = after_select next st (select_skip st.skip (v.roll st.world) region st.pool)

  unfoldable pub lease_loop : ℕ → Walk W → Result Lease × Walk W
  unfolding attempt
  lease_loop zero st = (err no_key_available, st)
  lease_loop (suc n) st = attempt (lease_loop n) st

  -- `Lease`, on the pool that its selector names.
  unfoldable pub lease_key : PoolState → W → Result Lease × Walk W
  unfolding lease_loop
  lease_key p w = lease_loop (suc (length p.keys)) (record { pool = p; skip = []; world = w })
