-- ===== src/Calibrate.antt =====
-- internal/calibrate/isotonic.go: isotonic regression by pooling adjacent violators.
pub mod Monotone
use waterfall.Prelude.{
  ℕ, zero, suc, String, Bool, true, false, Option, none, some, List, [], ◌∷◌, ◌++◌, map, Dict, get2,
  put2, if◌then◌else◌,
}
use waterfall.Domain.Fields.{Field, Float, clamp}

pub record Point (C : Type 0) : Type 0 where
  pub x : C
  pub y : C
  pub w : C

-- `block`. The slice of blocks is a list with the last block first.
pub record Block (C : Type 0) : Type 0 where
  pub start : C
  pub val : C
  pub weight : C

-- `IsotonicModel`: the pairs of `xs` and `ys`, in the order of the slices.
abbrev pub Model : Type 0 → Type 0
Model C = List (C × C)

module _ (fl : Float) where
  open fl use {F, float_zero, float_one, lt, le, add, mul, div}

  insert_point : Point F → List (Point F) → List (Point F)
  insert_point p [] = p ∷ []
  insert_point p (q ∷ qs) =
      let rest = insert_point p qs in if lt q.x p.x then q ∷ rest else p ∷ q ∷ qs

  -- `sort.SliceStable` by `X`, by insertion.
  unfoldable pub sort_points : List (Point F) → List (Point F)
  unfolding insert_point
  sort_points [] = []
  sort_points (p ∷ ps) = insert_point p (sort_points ps)

  unfoldable pub merged : Block F → Block F → Block F
  merged b1 b2 = record {
    start = b1.start;
    val = div (add (mul b1.val b1.weight) (mul b2.val b2.weight)) (add b1.weight b2.weight);
    weight = add b1.weight b2.weight;
  }

  -- The inner loop: `b` is the last block, and the list the blocks before it.
  unfoldable pub pool : Block F → List (Block F) → List (Block F)
  pool b [] = b ∷ []
  pool b (b1 ∷ rest) =
      let pooled = pool (merged b1 b) rest in if lt b.val b1.val then pooled else b ∷ b1 ∷ rest

  unfoldable pub block_of : Point F → Block F
  block_of p = record {
    start = p.x;
    val = p.y;
    weight = if le p.w float_zero then float_one else p.w;
  }

  -- The loop over the sorted points.
  unfoldable pub pool_all : List (Point F) → List (Block F) → List (Block F)
  pool_all [] blocks = blocks
  pool_all (p ∷ ps) blocks = pool_all ps (pool (block_of p) blocks)

  -- `clamp01`.
  unfoldable pub clamp01 : F → F
  clamp01 v = if lt v float_zero then float_zero else if lt float_one v then float_one else v

  -- The model of the blocks, the first block first.
  unfoldable pub model_of : List (Block F) → Model F → Model F
  model_of [] m = m
  model_of (b ∷ bs) m = model_of bs ((b.start, clamp01 b.val) ∷ m)

  -- `FitIsotonic`.
  unfoldable pub fit_isotonic : List (Point F) → Model F
  unfolding pool_all model_of
  fit_isotonic ps = model_of (pool_all (sort_points ps) []) []

  -- The last `y` whose start is not above `x`, starting from that of the blocks before. On starts
  -- in order this is where `sort.Search` finds the first start above `x`.
  unfoldable pub last_below : F → F → Model F → F
  last_below x y [] = y
  last_below x y ((s, v) ∷ m) = if lt x s then y else last_below x v m

  -- `Predict`.
  unfoldable pub predict : Model F → F → F
  unfolding last_below clamp01
  predict [] x = clamp01 x
  predict ((s, v) ∷ m) x = if le x s then v else last_below x v m

  -- A `Calibrator`, by provider and then by field.
  abbrev pub Calibrator : Type 0
  Calibrator = Dict (Dict (Model F))

  -- `Fit`.
  unfoldable pub fit : String → Field → List (Point F) → Calibrator → Calibrator
  unfolding fit_isotonic
  fit provider field ps c = put2 c provider field (fit_isotonic ps)

  calibrate_by : Option (Model F) → F → F
  unfolding predict
  calibrate_by none raw = raw
  calibrate_by (some m) raw = clamp fl (predict m raw)

  -- `Calibrate`.
  unfoldable pub calibrate : Calibrator → String → Field → F → F
  unfolding calibrate_by
  calibrate c provider field raw = calibrate_by (get2 c provider field) raw
