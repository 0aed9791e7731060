-- ===== src/Dash/Rotation/Select/Usable.antt =====
-- Every strategy of internal/dash/rotation/state.go selects a key that may serve.
use waterfall.Prelude.{
  ℕ, zero, suc, ◌+◌, ◌-◌, ◌%◌, ◌≡◌, ◌||◌, ◌==◌, String, Bool, true, false, Bool-cases, inl, inr,
  Option, none, some, List, [], ◌∷◌, get, length, if◌then◌else◌,
}
use waterfall.Dash.Rotation.Select.{
  PoolKey, RegionRing, Band, PoolState, Dice, nth, usable, first_usable, walk, pick_round_robin,
  pick_random, pick_ordered, pick_any, pick_weighted, pick_bands, pick_banded, pick_region,
  select_skip, select_known, is_banded, is_ordered, taken, from_bands, from_ring, fallback_ring,
  region_ring, next,
}

module _ (skip : List String) where
  -- The key that was selected, if any, is available and was not tried before.
  abbrev pub IsUsable : Option PoolKey → Type 0
  IsUsable none = Unit
  IsUsable (some k) = usable skip k ≡ true

  first_usable-IsUsable :
      (o rest : Option PoolKey) → IsUsable rest → IsUsable (first_usable skip o rest)
  unfolding first_usable
  first_usable-IsUsable none rest h = h
  first_usable-IsUsable (some k) rest h = elim (Bool-cases (usable skip k)) [
    | inl e ↦ rw e e
    | inr e ↦ rw e h
  ]

  walk-IsUsable : (ks : List PoolKey) (start m i : ℕ) → IsUsable (walk skip ks start m i)
  unfolding walk
  walk-IsUsable ks start zero i = tt
  walk-IsUsable ks start (suc m) i =
      first_usable-IsUsable (nth ks ((start + i) % length ks)) _ (walk-IsUsable ks start m (suc i))

  pick_round_robin-IsUsable :
      (ks : List PoolKey) (rr : ℕ) → IsUsable (pick_round_robin skip ks rr).0
  unfolding pick_round_robin
  pick_round_robin-IsUsable [] rr = tt
  pick_round_robin-IsUsable (k ∷ ks) rr =
      walk-IsUsable (k ∷ ks) (next skip rr % suc (length ks)) (suc (length ks)) 0

  pick_random-IsUsable : (dice : Dice) (ks : List PoolKey) → IsUsable (pick_random skip dice ks)
  unfolding pick_random
  pick_random-IsUsable dice [] = tt
  pick_random-IsUsable dice (k ∷ ks) =
      walk-IsUsable (k ∷ ks) (dice.int_n (suc (length ks))) (suc (length ks)) 0

  pick_ordered-IsUsable : (ks : List PoolKey) → IsUsable (pick_ordered skip ks)
  unfolding pick_ordered
  pick_ordered-IsUsable [] = tt
  pick_ordered-IsUsable (k ∷ ks) =
      first_usable-IsUsable (some k) (pick_ordered skip ks) (pick_ordered-IsUsable ks)

  pick_any-IsUsable : (p : PoolState) → IsUsable (pick_any skip p).0
  unfolding pick_any
  pick_any-IsUsable p = pick_round_robin-IsUsable p.keys p.rr

  choice-IsUsable :
      (b : Bool) (x y : Option PoolKey × PoolState)
      → IsUsable x.0
      → IsUsable y.0
      → IsUsable (if b then x else y).0
  choice-IsUsable true x y h k = h
  choice-IsUsable false x y h k = k

  pick_weighted-IsUsable : (dice : Dice) (p : PoolState) → IsUsable (pick_weighted skip dice p).0
  unfolding pick_weighted
  pick_weighted-IsUsable dice p =
      choice-IsUsable p.has_alias
        (
          first_usable skip (nth p.keys dice.sample)
              (walk skip p.keys dice.sample (length p.keys - 1) 1),
          p,
        )
        (pick_any skip p)
        (first_usable-IsUsable (nth p.keys dice.sample) _
          (walk-IsUsable p.keys dice.sample (length p.keys - 1) 1))
        (pick_any-IsUsable p)

  taken-IsUsable :
      (b : Band) (o : Option PoolKey × ℕ) (bs : List Band) (later : Option PoolKey × List Band)
      → IsUsable o.0
      → IsUsable later.0
      → IsUsable (taken skip b o bs later).0
  unfolding taken
  taken-IsUsable b (some k, cursor) bs later h l = h
  taken-IsUsable b (none, cursor) bs later h l = l

  pick_bands-IsUsable : (bs : List Band) → IsUsable (pick_bands skip bs).0
  unfolding pick_bands
  pick_bands-IsUsable [] = tt
  pick_bands-IsUsable (b ∷ bs) =
      taken-IsUsable b (pick_round_robin skip b.keys b.cursor) bs (pick_bands skip bs)
        (pick_round_robin-IsUsable b.keys b.cursor) (pick_bands-IsUsable bs)

  from_bands-IsUsable : (p : PoolState) (o : Option (List Band)) → IsUsable (from_bands skip p o).0
  unfolding from_bands
  from_bands-IsUsable p none = pick_any-IsUsable p
  from_bands-IsUsable p (some bs) = pick_bands-IsUsable bs

  pick_banded-IsUsable : (p : PoolState) → IsUsable (pick_banded skip p).0
  unfolding pick_banded
  pick_banded-IsUsable p = from_bands-IsUsable p p.bands

  module _ (dice : Dice) (p : PoolState) where
    from_ring-IsUsable :
        (region : String) (ring : RegionRing) → IsUsable (from_ring skip dice p region ring).0
    unfolding from_ring
    from_ring-IsUsable region ring = elim (Bool-cases (ring.inner == "random")) [
      | inl e ↦ rw e (pick_random-IsUsable dice ring.keys)
      | inr e ↦ elim (Bool-cases (ring.inner == "priority" || ring.inner == "failover")) [
        | inl e' ↦ rw (e, e') (pick_ordered-IsUsable ring.keys)
        | inr e' ↦ rw (e, e') (pick_round_robin-IsUsable ring.keys ring.rr)
      ]
    ]

    fallback_ring-IsUsable : (o : Option RegionRing) → IsUsable (fallback_ring skip dice p o).0
    unfolding fallback_ring
    fallback_ring-IsUsable none = pick_any-IsUsable p
    fallback_ring-IsUsable (some ring) = from_ring-IsUsable p.fallback_region ring

    region_ring-IsUsable :
        (region : String) (o : Option RegionRing) → IsUsable (region_ring skip dice p region o).0
    unfolding region_ring
    region_ring-IsUsable region none = fallback_ring-IsUsable (get p.rings p.fallback_region)
    region_ring-IsUsable region (some ring) = from_ring-IsUsable region ring

    pick_region-IsUsable : (region : String) → IsUsable (pick_region skip dice region p).0
    unfolding pick_region
    pick_region-IsUsable region = region_ring-IsUsable region (get p.rings region)

    select_known-IsUsable : (region : String) → IsUsable (select_known skip dice region p).0
    unfolding select_known
    select_known-IsUsable region =
        choice-IsUsable (is_banded skip p.strategy) (pick_banded skip p)
          (if p.strategy == "region_based" then pick_region skip dice region p else pick_any skip p)
          (pick_banded-IsUsable p)
          (choice-IsUsable (p.strategy == "region_based") (pick_region skip dice region p)
            (pick_any skip p) (pick_region-IsUsable region) (pick_any-IsUsable p))

    -- Whatever the strategy of the pool, the key that is selected is available and was not tried
    -- before.
    pub select_skip-IsUsable : (region : String) → IsUsable (select_skip skip dice region p).0
    unfolding select_skip
    select_skip-IsUsable region =
        choice-IsUsable (p.strategy == "random") (pick_random skip dice p.keys, p)
          (if p.strategy == "weighted"
            then pick_weighted skip dice p
            else if is_ordered skip p.strategy
            then (pick_ordered skip p.keys, p)
            else select_known skip dice region p)
          (pick_random-IsUsable dice p.keys)
          (choice-IsUsable (p.strategy == "weighted") (pick_weighted skip dice p)
            (if is_ordered skip p.strategy
              then (pick_ordered skip p.keys, p)
              else select_known skip dice region p)
            (pick_weighted-IsUsable dice p)
            (choice-IsUsable (is_ordered skip p.strategy) (pick_ordered skip p.keys, p)
              (select_known skip dice region p) (pick_ordered-IsUsable p.keys)
              (select_known-IsUsable region)))
