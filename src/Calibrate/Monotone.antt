-- ===== src/Calibrate/Monotone.antt =====
-- The calibration of internal/calibrate/isotonic.go never turns a higher score into a lower one.
use waterfall.Prelude.{◌≡◌, inl, inr, true, false, not, List, [], ◌∷◌, Bool-cases, arith}
use waterfall.Domain.Fields.{Float}
use waterfall.Calibrate.{
  Point, Block, Model, sort_points, insert_point, merged, pool, block_of, pool_all, clamp01,
  model_of, fit_isotonic, last_below, predict,
}

-- The laws of the order that the code relies on; with no NaN they hold of floats.
pub record IsLinear (fl : Float) : Type 0 where
  pub irreflexive : (a : fl.F) → fl.lt a a ≡ false
  pub transitive : (a b c : fl.F) → fl.lt b a ≡ false → fl.lt c b ≡ false → fl.lt c a ≡ false
  pub asymmetric : (a b : fl.F) → fl.lt a b ≡ true → fl.lt b a ≡ false
  pub converse : (a b : fl.F) → fl.le a b ≡ not (fl.lt b a)
  pub unit : fl.lt fl.float_one fl.float_zero ≡ false

module _ (fl : Float) (order : IsLinear fl) where
  open fl use {F, lt, le}

  -- `a` is not above `b`.
  abbrev pub AtMost : F → F → Type 0
  AtMost a b = lt b a ≡ false

  -- Each block, the last first, starts no lower and lies no lower than the one before it.
  abbrev Falls : List (Block F) → Type 0
  Falls [] = Unit
  Falls (b ∷ []) = Unit
  Falls (b ∷ c ∷ bs) = AtMost c.start b.start × AtMost c.val b.val × Falls (c ∷ bs)

  -- The blocks start no higher than `x`.
  abbrev Below : F → List (Block F) → Type 0
  Below x [] = Unit
  Below x (b ∷ bs) = AtMost b.start x

  pool-Falls :
      (b : Block F) (bs : List (Block F)) → Below b.start bs → Falls bs → Falls (pool fl b bs)
  unfolding pool merged
  pool-Falls b [] h k = tt
  pool-Falls b (c ∷ []) h k = elim (Bool-cases (lt b.val c.val)) [
    | inl q ↦ rw q tt
    | inr q ↦ rw q (h, q, tt)
  ]
  pool-Falls b (c ∷ d ∷ bs) h (s, v, k) = elim (Bool-cases (lt b.val c.val)) [
    | inl q ↦ rw q (pool-Falls (merged fl c b) (d ∷ bs) s k)
    | inr q ↦ rw q (h, q, (s, v, k))
  ]

  -- The first block of a pool starts where its own last block or an earlier one does.
  pool-Below :
      (x : F) (b : Block F) (bs : List (Block F))
      → AtMost b.start x
      → Below b.start bs
      → Falls bs
      → Below x (pool fl b bs)
  unfolding pool merged
  pool-Below x b [] m h k = m
  pool-Below x b (c ∷ []) m h k = elim (Bool-cases (lt b.val c.val)) [
    | inl q ↦ rw q (order.transitive c.start b.start x h m)
    | inr q ↦ rw q m
  ]
  pool-Below x b (c ∷ d ∷ bs) m h (s, v, k) = elim (Bool-cases (lt b.val c.val)) [
    | inl q ↦
        rw q (pool-Below x (merged fl c b) (d ∷ bs) (order.transitive c.start b.start x h m) s k)
    | inr q ↦ rw q m
  ]

  -- Points from `x` on, in order.
  abbrev Rises : F → List (Point F) → Type 0
  Rises x [] = Unit
  Rises x (p ∷ ps) = AtMost x p.x × Rises p.x ps

  Below-trans : (x y : F) (bs : List (Block F)) → AtMost x y → Below x bs → Below y bs
  Below-trans x y [] h k = tt
  Below-trans x y (b ∷ bs) h k = order.transitive b.start x y k h

  pool_all-Falls :
      (x : F) (ps : List (Point F)) (bs : List (Block F))
      → Rises x ps
      → Below x bs
      → Falls bs
      → Falls (pool_all fl ps bs)
  unfolding pool_all block_of
  pool_all-Falls x [] bs r b h = h
  pool_all-Falls x (p ∷ ps) bs (now, r) b h =
      let below = Below-trans x p.x bs now b in
      pool_all-Falls p.x ps (pool fl (block_of fl p) bs) r
        (pool-Below p.x (block_of fl p) bs (order.irreflexive p.x) below h)
        (pool-Falls (block_of fl p) bs below h)

  -- Points in order, where the first stands no lower than `x`.
  abbrev Ordered : List (Point F) → Type 0
  Ordered [] = Unit
  Ordered (p ∷ ps) = Rises p.x ps

  insert_point-Rises :
      (x : F) (p : Point F) (qs : List (Point F))
      → AtMost x p.x
      → Rises x qs
      → Rises x (insert_point fl p qs)
  unfolding insert_point
  insert_point-Rises x p [] h r = (h, tt)
  insert_point-Rises x p (q ∷ qs) h (now, r) = elim (Bool-cases (lt q.x p.x)) [
    | inl e ↦ rw e (now, insert_point-Rises q.x p qs (order.asymmetric q.x p.x e) r)
    | inr e ↦ rw e (h, (e, r))
  ]

  insert_point-Ordered :
      (p : Point F) (qs : List (Point F)) → Ordered qs → Ordered (insert_point fl p qs)
  unfolding insert_point
  insert_point-Ordered p [] r = tt
  insert_point-Ordered p (q ∷ qs) r = elim (Bool-cases (lt q.x p.x)) [
    | inl e ↦ rw e (insert_point-Rises q.x p qs (order.asymmetric q.x p.x e) r)
    | inr e ↦ rw e (e, r)
  ]

  sort_points-Ordered : (ps : List (Point F)) → Ordered (sort_points fl ps)
  unfolding sort_points
  sort_points-Ordered [] = tt
  sort_points-Ordered (p ∷ ps) = insert_point-Ordered p (sort_points fl ps) (sort_points-Ordered ps)

  pooled-Falls : (ps : List (Point F)) → Ordered ps → Falls (pool_all fl ps [])
  unfolding pool_all
  pooled-Falls [] r = tt
  pooled-Falls (p ∷ ps) r = pool_all-Falls p.x (p ∷ ps) [] (order.irreflexive p.x, r) tt tt

  -- A model whose starts and values do not fall, from a start `s` and a value `v` on.
  abbrev Climbs : F → F → Model F → Type 0
  Climbs s v [] = Unit
  Climbs s v ((s', v') ∷ m) = AtMost s s' × AtMost v v' × Climbs s' v' m

  abbrev pub IsClimbing : Model F → Type 0
  IsClimbing [] = Unit
  IsClimbing ((s, v) ∷ m) = Climbs s v m

  clamp01-AtMost : (a b : F) → AtMost a b → AtMost (clamp01 fl a) (clamp01 fl b)
  unfolding clamp01
  clamp01-AtMost a b h = elim (Bool-cases (lt a fl.float_zero)) [
    | inl a0 ↦ elim (Bool-cases (lt b fl.float_zero)) [
      | inl b0 ↦ rw (a0, b0) (order.irreflexive fl.float_zero)
      | inr b0 ↦ elim (Bool-cases (lt fl.float_one b)) [
        | inl b1 ↦ rw (a0, b0, b1) order.unit
        | inr b1 ↦ rw (a0, b0, b1) b0
      ]
    ]
    | inr a0 ↦
        let b0 : lt b fl.float_zero ≡ false = order.transitive fl.float_zero a b a0 h in
        elim (Bool-cases (lt fl.float_one a)) [
          | inl a1 ↦ elim (Bool-cases (lt fl.float_one b)) [
            | inl b1 ↦ rw (a0, b0, a1, b1) (order.irreflexive fl.float_one)
            | inr b1 ↦
                rw (a0, b0, a1, b1)
                  (order.transitive fl.float_one a b (order.asymmetric fl.float_one a a1) h)
          ]
          | inr a1 ↦ elim (Bool-cases (lt fl.float_one b)) [
            | inl b1 ↦ rw (a0, b0, a1, b1) a1
            | inr b1 ↦ rw (a0, b0, a1, b1) h
          ]
        ]
  ]

  -- The blocks that follow, with the first of them not below the model's start.
  abbrev Under : List (Block F) → Model F → Type 0
  Under [] m = Unit
  Under (b ∷ bs) [] = Unit
  Under (b ∷ bs) ((s, v) ∷ m) = AtMost b.start s × AtMost (clamp01 fl b.val) v

  model_of-IsClimbing :
      (bs : List (Block F)) (m : Model F)
      → Falls bs
      → IsClimbing m
      → Under bs m
      → IsClimbing (model_of fl bs m)
  unfolding model_of
  model_of-IsClimbing [] m f c u = c
  model_of-IsClimbing (b ∷ []) [] f c u = tt
  model_of-IsClimbing (b ∷ []) ((s, v) ∷ m) f c (us, uv) = (us, uv, c)
  model_of-IsClimbing (b ∷ d ∷ bs) [] (fs, fv, f) c u =
      model_of-IsClimbing (d ∷ bs) ((b.start, clamp01 fl b.val) ∷ []) f tt
        (fs, clamp01-AtMost d.val b.val fv)
  model_of-IsClimbing (b ∷ d ∷ bs) ((s, v) ∷ m) (fs, fv, f) c (us, uv) =
      model_of-IsClimbing (d ∷ bs) ((b.start, clamp01 fl b.val) ∷ (s, v) ∷ m) f (us, uv, c)
        (fs, clamp01-AtMost d.val b.val fv)

  fit-IsClimbing : (ps : List (Point F)) → IsClimbing (fit_isotonic fl ps)
  unfolding fit_isotonic
  fit-IsClimbing ps =
      model_of-IsClimbing (pool_all fl (sort_points fl ps) []) []
        (pooled-Falls (sort_points fl ps) (sort_points-Ordered ps)) tt
        (under (pool_all fl (sort_points fl ps) []))
    where
      under : (bs : List (Block F)) → Under bs []
      under [] = tt
      under (b ∷ bs) = tt

  -- From the value `y` on, the lookup does not fall below it, and does not fall as the score grows.
  last_below-AtLeast : (s x y : F) (m : Model F) → Climbs s y m → AtMost y (last_below fl x y m)
  unfolding last_below
  last_below-AtLeast s x y [] c = order.irreflexive y
  last_below-AtLeast s x y ((s', v) ∷ m) (cs, cv, c) = elim (Bool-cases (lt x s')) [
    | inl q ↦ rw q (order.irreflexive y)
    | inr q ↦ rw q (order.transitive y v (last_below fl x v m) cv (last_below-AtLeast s' x v m c))
  ]

  last_below-AtMost :
      (s a b y : F) (m : Model F)
      → Climbs s y m
      → AtMost a b
      → AtMost (last_below fl a y m) (last_below fl b y m)
  unfolding last_below
  last_below-AtMost s a b y [] c h = order.irreflexive y
  last_below-AtMost s a b y ((s', v) ∷ m) (cs, cv, c) h = elim (Bool-cases (lt a s')) [
    | inl q ↦ rw q (last_below-AtLeast s b y ((s', v) ∷ m) (cs, cv, c))
    | inr q ↦
        let above : lt b s' ≡ false = order.transitive s' a b q h in
        rw (q, above) (last_below-AtMost s' a b v m c h)
  ]

  above : (s a b : F) → lt s a ≡ true → AtMost a b → lt s b ≡ true
  above s a b h k = elim (Bool-cases (lt s b)) [
    | inl q ↦ q
    | inr q ↦ let low : lt s a ≡ false = order.transitive a b s k q in ground arith
  ]

  predict-AtMost :
      (m : Model F) (a b : F) → IsClimbing m → AtMost a b → AtMost (predict fl m a) (predict fl m b)
  unfolding predict
  predict-AtMost [] a b c h = clamp01-AtMost a b h
  predict-AtMost ((s, v) ∷ m) a b c h = elim (Bool-cases (lt s a)) [
    | inl a1 ↦
        let b1 : lt s b ≡ true = above s a b a1 h in
        rw (order.converse a s, order.converse b s, a1, b1) (last_below-AtMost s a b v m c h)
    | inr a1 ↦ elim (Bool-cases (lt s b)) [
      | inl b1 ↦ rw (order.converse a s, order.converse b s, a1, b1) (last_below-AtLeast s b v m c)
      | inr b1 ↦ rw (order.converse a s, order.converse b s, a1, b1) (order.irreflexive v)
    ]
  ]

  -- A fitted curve never gives a higher score a lower probability, whatever the points and their
  -- labels are. The order of the floats is one of numbers, with no NaN.
  pub fit_isotonic-AtMost :
      (ps : List (Point F)) (a b : F)
      → lt b a ≡ false
      → lt (predict fl (fit_isotonic fl ps) b) (predict fl (fit_isotonic fl ps) a) ≡ false
  fit_isotonic-AtMost ps a b h = predict-AtMost (fit_isotonic fl ps) a b (fit-IsClimbing ps) h
