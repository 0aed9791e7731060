-- ===== src/Dash/Rotation/Lease/Failover.antt =====
-- Failover in the pools of internal/dash/rotation that have an order.
use waterfall.Prelude.{
  ℕ, zero, suc, ◌<◌, ◌==◌, eq_iff, ◌≡◌, refl, sym, ap, ◌∙◌, String, true, false, Bool-cases, Option,
  none, some, List, [], ◌∷◌, ◌++◌, length, All, All-append, inl, inr, arith, if◌then◌else◌,
}
use mathlib.Core.List.{append_assoc}
use mathlib.Core.Path.{subst}
use waterfall.Domain.Errors.{Result, ok, err}
use waterfall.Dash.Rotation.Select.{
  PoolKey, PoolState, Dice, listed, usable, first_usable, pick_ordered, is_ordered, select_skip,
}
use waterfall.Dash.Rotation.Lease.{
  Draw, drawn, exhausted, failed, Vault, Lease, Walk, no_key_available, secret_open, dropped,
  drop_key, park_key, with_secret, after_draw, after_select, attempt, lease_loop, lease_key,
}

-- No two keys have one id.
abbrev pub IsDistinct : List PoolKey → Type 0
IsDistinct [] = Unit
IsDistinct (k ∷ ks) = All (λ j. (j.id == k.id) ≡ false) ks × IsDistinct ks

module _ {W : Type 0} (v : Vault W) where
  unfoldable pub opened_by : PoolKey → Option String × W → Result Lease × W
  opened_by k (none, w) = (err secret_open, w)
  opened_by k (some secret, w) = (ok (record { key_id = k.id; secret = secret }), w)

  -- What an available key makes of a request: a lease, an error, or the rest of the keys.
  unfoldable pub served_by : PoolKey → (W → Result Lease × W) → Draw × W → Result Lease × W
  unfolding opened_by
  served_by k rest (drawn, w) = opened_by k (v.open_secret k.id w)
  served_by k rest (failed e, w) = (err e, w)
  served_by k rest (exhausted, w) = rest (v.fire_quota k.id w)

  -- The reference: go through the keys once, in order, past those that are not available, and
  -- draw on each until one has quota left.
  unfoldable pub first_served : List PoolKey → W → Result Lease × W
  unfolding served_by
  first_served [] w = (err no_key_available, w)
  first_served (k ∷ ks) w =
      let rest = first_served ks in if k.avail then served_by k rest (v.draw k.id w) else rest w

-- A key that is not to be taken.
abbrev IsPassed : List String → PoolKey → Type 0
IsPassed skip k = usable skip k ≡ false

pick_ordered-passed :
    (skip : List String) (pre suf : List PoolKey)
    → All (IsPassed skip) pre
    → pick_ordered skip (pre ++ suf) ≡ pick_ordered skip suf
unfolding pick_ordered first_usable
pick_ordered-passed skip [] suf h = refl
pick_ordered-passed skip (k ∷ pre) suf (h, hs) = rw h (pick_ordered-passed skip pre suf hs)

select_skip-ordered :
    (skip : List String) (dice : Dice) (region : String) (p : PoolState)
    → is_ordered skip p.strategy ≡ true
    → select_skip skip dice region p ≡ (pick_ordered skip p.keys, p)
unfolding select_skip listed
select_skip-ordered skip dice region p h = elim (Bool-cases (p.strategy == "random")) [
  | inl q ↦ absurd (ground (arith, h, ap (is_ordered skip) ((eq_iff p.strategy "random").0 q)))
  | inr q ↦ elim (Bool-cases (p.strategy == "weighted")) [
    | inl k ↦ absurd (ground (arith, h, ap (is_ordered skip) ((eq_iff p.strategy "weighted").0 k)))
    | inr k ↦ rw (q, k, h) refl
  ]
]

module _ (id : String) (skip : List String) where
  IsPassed-gone : (k : PoolKey) → k.id == id ≡ true → IsPassed (id ∷ skip) (dropped id k)
  unfolding usable
  IsPassed-gone k q =
      let gone : dropped id k ≡ record k { avail = false } = unfold dropped in rw q refl in
      subst (IsPassed (id ∷ skip)) (sym gone) refl

  IsPassed-still : (k : PoolKey) → k.id == id ≡ false → IsPassed skip k → IsPassed (id ∷ skip) k
  unfolding usable listed
  IsPassed-still k q h = rw q h

  IsPassed-dropped : (k : PoolKey) → IsPassed skip k → IsPassed (id ∷ skip) (dropped id k)
  IsPassed-dropped k h = elim (Bool-cases (k.id == id)) [
    | inl q ↦ IsPassed-gone k q
    | inr q ↦
        let same : dropped id k ≡ k = unfold dropped in rw q refl in
        subst (IsPassed (id ∷ skip)) (sym same) (IsPassed-still k q h)
  ]

  IsPassed-drop_key :
      (ks : List PoolKey) → All (IsPassed skip) ks → All (IsPassed (id ∷ skip)) (drop_key id ks)
  unfolding drop_key
  IsPassed-drop_key [] h = tt
  IsPassed-drop_key (k ∷ ks) (h, hs) = (IsPassed-dropped k h, IsPassed-drop_key ks hs)

drop_key-append :
    (id : String) (xs ys : List PoolKey) → drop_key id (xs ++ ys) ≡ drop_key id xs ++ drop_key id ys
unfolding drop_key
drop_key-append id [] ys = refl
drop_key-append id (x ∷ xs) ys = ap (λ ks. dropped id x ∷ ks) (drop_key-append id xs ys)

drop_key_none :
    (id : String) (ks : List PoolKey) → All (λ j. (j.id == id) ≡ false) ks → drop_key id ks ≡ ks
unfolding drop_key dropped
drop_key_none id [] h = refl
drop_key_none id (k ∷ ks) (h, hs) = rw (h, drop_key_none id ks hs) refl

-- No key of the list was skipped.
abbrev IsFresh : List String → List PoolKey → Type 0
IsFresh skip ks = All (λ k. listed k.id skip ≡ false) ks

IsFresh-skip :
    (id : String) (skip : List String) (ks : List PoolKey)
    → All (λ j. (j.id == id) ≡ false) ks
    → IsFresh skip ks
    → IsFresh (id ∷ skip) ks
unfolding listed
IsFresh-skip id skip [] d h = tt
IsFresh-skip id skip (k ∷ ks) (d, ds) (h, hs) = (rw (d, h) refl, IsFresh-skip id skip ks ds hs)

-- What the walk ends with.
abbrev pub outcome : {W : Type 0} → Result Lease × Walk W → Result Lease × W
outcome (r, st) = (r, st.world)

module _ {W : Type 0} (v : Vault W) (region : String) where
  -- A walk over `pre` and `suf` that is past `pre`.
  pub record IsAt (pre suf : List PoolKey) (st : Walk W) : Type 0 where
    pub keys : st.pool.keys ≡ pre ++ suf
    pub ordered : is_ordered st.skip st.pool.strategy ≡ true
    pub passed : All (IsPassed st.skip) pre
    pub fresh : IsFresh st.skip suf
    pub distinct : IsDistinct suf

  selected :
      (pre suf : List PoolKey) (st : Walk W)
      → IsAt pre suf st
      → select_skip st.skip (v.roll st.world) region st.pool ≡ (pick_ordered st.skip suf, st.pool)
  selected pre suf st h =
      select_skip-ordered st.skip (v.roll st.world) region st.pool h.ordered
      ∙ ap (λ ks. (pick_ordered st.skip ks, st.pool)) h.keys
      ∙ ap (λ o. (o, st.pool)) (pick_ordered-passed st.skip pre suf h.passed)

  -- Past a key that is not available.
  IsAt-passed :
      (pre : List PoolKey) (k : PoolKey) (suf : List PoolKey) (st : Walk W)
      → k.avail ≡ false
      → IsAt pre (k ∷ suf) st
      → IsAt (pre ++ k ∷ []) suf st
  unfolding usable
  IsAt-passed pre k suf st q h = record {
    keys = h.keys ∙ sym (append_assoc pre (k ∷ []) suf);
    ordered = h.ordered;
    passed = All-append (IsPassed st.skip) pre (k ∷ []) h.passed (rw q refl, tt);
    fresh = h.fresh.1;
    distinct = h.distinct.1;
  }

  -- Past a key whose quota is exhausted.
  IsAt-parked :
      (pre : List PoolKey) (k : PoolKey) (suf : List PoolKey) (st : Walk W) (w : W)
      → IsAt pre (k ∷ suf) st
      → IsAt
          (drop_key k.id pre ++ dropped k.id k ∷ [])
          suf
          (record { pool = park_key k.id st.pool; skip = k.id ∷ st.skip; world = w })
  unfolding park_key
  IsAt-parked pre k suf st w h = record {
    keys =
        ap (drop_key k.id) h.keys
        ∙ drop_key-append k.id pre (k ∷ suf)
        ∙ (unfold drop_key in
            ap (λ ks. drop_key k.id pre ++ dropped k.id k ∷ ks)
              (drop_key_none k.id suf h.distinct.0))
        ∙ sym (append_assoc (drop_key k.id pre) (dropped k.id k ∷ []) suf);
    ordered = h.ordered;
    passed =
        All-append (IsPassed (k.id ∷ st.skip)) _ _ (IsPassed-drop_key k.id st.skip pre h.passed)
          (IsPassed-gone k.id st.skip k ((eq_iff k.id k.id).1 refl), tt);
    fresh = IsFresh-skip k.id st.skip suf h.distinct.0 h.fresh.1;
    distinct = h.distinct.1;
  }

  after_draw-served :
      (next : Walk W → Result Lease × Walk W) (rest : W → Result Lease × W) (k : PoolKey)
      (st : Walk W) (out : Draw × W)
      → ((w : W)
          → outcome
              (next (record { pool = park_key k.id st.pool; skip = k.id ∷ st.skip; world = w }))
            ≡ rest w)
      → outcome (after_draw v region next k st out) ≡ served_by v k rest out
  unfolding after_draw served_by
  after_draw-served next rest k st (drawn, w) h = with_secret-opened (v.open_secret k.id w)
    where
      with_secret-opened :
          (o : Option String × W) → outcome (with_secret v region k st o) ≡ opened_by v k o
      with_secret-opened (none, w) = refl
      with_secret-opened (some secret, w) = refl
  after_draw-served next rest k st (failed e, w) h = refl
  after_draw-served next rest k st (exhausted, w) h = h (v.fire_quota k.id w)

  walk_ordered :
      (suf pre : List PoolKey) (n : ℕ) (st : Walk W)
      → length suf < n
      → IsAt pre suf st
      → outcome (lease_loop v region n st) ≡ first_served v suf st.world
  unfolding lease_loop first_served
  walk_ordered suf pre zero st lt h = absurd (ground (arith, lt))
  walk_ordered [] pre (suc n) st lt h =
      unfold attempt after_select pick_ordered in rw (selected pre [] st h) refl
  walk_ordered (k ∷ suf) pre (suc n) st lt h = elim (Bool-cases k.avail) [
    | inr q ↦ rw q (
        walk_ordered suf (pre ++ k ∷ []) (suc n) st (ground (arith, lt))
          (IsAt-passed pre k suf st q h))
    | inl q ↦
        let taken : pick_ordered st.skip (k ∷ suf) ≡ some k =
          unfold pick_ordered first_usable usable in rw (q, h.fresh.0) refl in
        rw q (
          unfold attempt after_select in
          rw (selected pre (k ∷ suf) st h, taken)
            (after_draw-served (lease_loop v region n) (first_served v suf) k st
              (v.draw k.id st.world)
              (λ w.
                walk_ordered suf (drop_key k.id pre ++ dropped k.id k ∷ []) n _ (ground (arith, lt))
                  (IsAt-parked pre k suf st w h))))
  ]

  -- In a pool with an order and no id twice, a lease goes through the keys as the reference does:
  -- past those that are not available, it draws on each once, parks those without quota, and hands
  -- out the first that has some left; no key is left out, and the bound on the walk cuts none off.
  pub lease_key-first_served :
      (p : PoolState) (w : W)
      → is_ordered [] p.strategy ≡ true
      → IsDistinct p.keys
      → outcome (lease_key v region p w) ≡ first_served v p.keys w
  unfolding lease_key listed
  lease_key-first_served p w ordered distinct =
      walk_ordered p.keys [] (suc (length p.keys)) _ (ground arith) (record {
        keys = refl;
        ordered = ordered;
        passed = tt;
        fresh = fresh p.keys;
        distinct = distinct;
      })
    where
      fresh : (ks : List PoolKey) → IsFresh [] ks
      fresh [] = tt
      fresh (k ∷ ks) = (refl, fresh ks)
