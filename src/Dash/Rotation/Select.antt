-- ===== src/Dash/Rotation/Select.antt =====
-- The selection of a key in internal/dash/rotation/state.go. A cursor is a `uint64`.
pub mod Usable
use waterfall.Prelude.{
  ℕ, zero, suc, ◌+◌, ◌-◌, ◌%◌, ◌^◌, ◌==◌, ◌||◌, ◌≡◌, refl, eqb, String, Bool, true, false,
  Bool-cases, inl, inr, not, ◌&&◌, Option, none, some, List, [], ◌∷◌, Dict, get, put, length,
  if◌then◌else◌,
}

-- What selection reads of a `keyState`.
pub record PoolKey : Type 0 where
  pub id : String
  pub avail : Bool

-- `regionRing`.
pub record RegionRing : Type 0 where
  pub keys : List PoolKey
  pub rr : ℕ
  pub inner : String

-- One bucket of a `bandSet` with its cursor.
pub record Band : Type 0 where
  pub keys : List PoolKey
  pub cursor : ℕ

-- `PoolState`; `has_alias` tells whether there is an alias table.
pub record PoolState : Type 0 where
  pub strategy : String
  pub fallback_region : String
  pub keys : List PoolKey
  pub rr : ℕ
  pub has_alias : Bool
  pub bands : Option (List Band)
  pub rings : Dict RegionRing

-- What the random sources answer: `rand.IntN` of a length, and `sample` of the alias table.
pub record Dice : Type 0 where
  pub int_n : ℕ → ℕ
  pub sample : ℕ

unfoldable pub listed : String → List String → Bool
listed s [] = false
listed s (t ∷ ts) = s == t || listed s ts

unfoldable pub nth : List PoolKey → ℕ → Option PoolKey
nth [] n = none
nth (k ∷ ks) zero = some k
nth (k ∷ ks) (suc n) = nth ks n

module _ (skip : List String) where
  -- `usable`.
  unfoldable pub usable : PoolKey → Bool
  unfolding listed
  usable k = k.avail && not (listed k.id skip)

  -- The key where it is usable, and else the rest of the walk.
  unfoldable pub first_usable : Option PoolKey → Option PoolKey → Option PoolKey
  first_usable none rest = rest
  first_usable (some k) rest = if usable k then some k else rest

  -- The walk over `ks[(start + i) % n]`, for so many indices from `i`.
  unfoldable pub walk : List PoolKey → ℕ → ℕ → ℕ → Option PoolKey
  unfolding first_usable
  walk ks start zero i = none
  walk ks start (suc m) i =
      let rest = walk ks start m (suc i) in first_usable (nth ks ((start + i) % length ks)) rest

  abbrev pub next : ℕ → ℕ
  next cursor = (cursor + 1) % 2 ^ 64

  -- `pickRoundRobin`: the key and the cursor.
  unfoldable pub pick_round_robin : List PoolKey → ℕ → Option PoolKey × ℕ
  unfolding walk
  pick_round_robin [] rr = (none, rr)
  pick_round_robin (k ∷ ks) rr =
      let n = suc (length ks) in (walk (k ∷ ks) (next rr % n) n 0, next rr)

  -- `pickRandom`.
  unfoldable pub pick_random : Dice → List PoolKey → Option PoolKey
  unfolding walk
  pick_random dice [] = none
  pick_random dice (k ∷ ks) = let n = suc (length ks) in walk (k ∷ ks) (dice.int_n n) n 0

  -- `pickOrdered`.
  unfoldable pub pick_ordered : List PoolKey → Option PoolKey
  unfolding first_usable
  pick_ordered [] = none
  pick_ordered (k ∷ ks) = let rest = pick_ordered ks in first_usable (some k) rest

  pub by_cursor : PoolState → Option PoolKey × ℕ → Option PoolKey × PoolState
  by_cursor p (k, rr) = (k, record p { rr = rr })

  -- `pickRoundRobin` over the whole pool.
  unfoldable pub pick_any : PoolState → Option PoolKey × PoolState
  unfolding by_cursor
  pick_any p = by_cursor p (pick_round_robin p.keys p.rr)

  -- `pickWeighted`.
  unfoldable pub pick_weighted : Dice → PoolState → Option PoolKey × PoolState
  unfolding first_usable walk
  pick_weighted dice p =
      let idx = dice.sample in
      let others = walk p.keys idx (length p.keys - 1) 1 in
      if p.has_alias then (first_usable (nth p.keys idx) others, p) else pick_any p

  pub taken :
      Band
      → Option PoolKey × ℕ
      → List Band
      → Option PoolKey × List Band
      → Option PoolKey × List Band
  taken b (some k, cursor) bs later = (some k, record b { cursor = cursor } ∷ bs)
  taken b (none, cursor) bs later = (later.0, record b { cursor = cursor } ∷ later.1)

  -- The loop of `pickBanded` over the buckets, the best first.
  unfoldable pub pick_bands : List Band → Option PoolKey × List Band
  unfolding taken
  pick_bands [] = (none, [])
  pick_bands (b ∷ bs) =
      let later = pick_bands bs in taken b (pick_round_robin b.keys b.cursor) bs later

  pub from_bands : PoolState → Option (List Band) → Option PoolKey × PoolState
  unfolding pick_bands
  from_bands p none = pick_any p
  from_bands p (some bs) = let (k, bs') = pick_bands bs in (k, record p { bands = some bs' })

  -- `pickBanded`.
  unfoldable pub pick_banded : PoolState → Option PoolKey × PoolState
  unfolding from_bands
  pick_banded p = from_bands p p.bands

  pub from_ring : Dice → PoolState → String → RegionRing → Option PoolKey × PoolState
  from_ring dice p region ring =
      if ring.inner == "random"
      then (pick_random dice ring.keys, p)
      else if ring.inner == "priority" || ring.inner == "failover"
      then (pick_ordered ring.keys, p)
      else (
        (pick_round_robin ring.keys ring.rr).0,
        record p {
          rings = put p.rings region (record ring { rr = (pick_round_robin ring.keys ring.rr).1 });
        },
      )

  pub fallback_ring : Dice → PoolState → Option RegionRing → Option PoolKey × PoolState
  unfolding from_ring
  fallback_ring dice p none = pick_any p
  fallback_ring dice p (some ring) = from_ring dice p p.fallback_region ring

  pub region_ring : Dice → PoolState → String → Option RegionRing → Option PoolKey × PoolState
  unfolding fallback_ring
  region_ring dice p region none = fallback_ring dice p (get p.rings p.fallback_region)
  region_ring dice p region (some ring) = from_ring dice p region ring

  -- `pickRegion`.
  unfoldable pub pick_region : Dice → String → PoolState → Option PoolKey × PoolState
  unfolding region_ring
  pick_region dice region p = region_ring dice p region (get p.rings region)

  abbrev pub is_ordered : String → Bool
  is_ordered s = listed s ("priority" ∷ "failover" ∷ "overflow" ∷ [])

  abbrev pub is_banded : String → Bool
  is_banded s =
      listed s
        ("least_used" ∷ "lowest_latency" ∷ "highest_success" ∷ "credit_based" ∷ "ai_routing" ∷ [])

  -- The strategies that take a key by what is known of it.
  unfoldable pub select_known : Dice → String → PoolState → Option PoolKey × PoolState
  select_known dice region p =
      if is_banded p.strategy
      then pick_banded p
      else if p.strategy == "region_based"
      then pick_region dice region p
      else pick_any p

  -- `selectSkip`.
  unfoldable pub select_skip : Dice → String → PoolState → Option PoolKey × PoolState
  unfolding select_known
  select_skip dice region p =
      if p.strategy == "random"
      then (pick_random dice p.keys, p)
      else if p.strategy == "weighted"
      then pick_weighted dice p
      else if is_ordered p.strategy
      then (pick_ordered p.keys, p)
      else select_known dice region p
