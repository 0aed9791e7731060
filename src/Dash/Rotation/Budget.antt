-- ===== src/Dash/Rotation/Budget.antt =====
-- The daily quota of one key: `draw` of internal/dash/rotation/lease.go and `LeaseBatch` of
-- internal/dash/rotation/store.go, by several instances of the service at once.
pub mod Leased
pub mod Served
use waterfall.Prelude.{
  ℕ, zero, suc, ◌+◌, ◌-◌, ltb, leb, leb_ℤ, ℤ, pos, pos_part, Option, none, some, List, [], ◌∷◌,
  if◌then◌else◌,
}

-- `batchSize`.
abbrev pub batch_size : ℕ
batch_size = 64

-- The row of `key_budgets`: a day, and the tokens that were leased on it.
pub record Budget : Type 0 where
  pub day : ℕ
  pub day_leased : ℕ

-- Where a draw stands: outside, or before one of the statements of `LeaseBatch`, each of which the
-- database runs as one step. `resting n` has read that `n` tokens can be had.
pub data Phase : Type 0 where
  idle ensuring rolling taking reading : Phase
  resting : ℕ → Phase

-- One instance: its bucket for the key, and its draw. The lock of the bucket lets in one draw.
pub record Instance : Type 0 where
  pub tokens : ℕ
  pub phase : Phase

-- What one step leaves: how many leases it handed out, the row and the instance.
pub record Turn : Type 0 where
  pub leases : ℕ
  pub row : Option Budget
  pub inst : Instance

abbrev waiting : ℕ → Phase → Instance
waiting n p = record { tokens = n; phase = p }

-- A draw without tokens that ends, or goes on with another statement.
abbrev pub moves : Option Budget → Phase → Turn
moves row p = record { leases = 0; row = row; inst = waiting 0 p }

-- A draw that is granted `n` tokens uses one and keeps the others.
abbrev pub grants : ℕ → Budget → Turn
grants n b = record {
  leases = 1;
  row = some (record b { day_leased = b.day_leased + n });
  inst = waiting (n - 1) idle;
}

-- The first statement of `LeaseBatch`: the row is there.
unfoldable pub ensure : ℕ → Option Budget → Budget
ensure today none = record { day = today; day_leased = 0 }
ensure today (some b) = b

-- The second: the day of the row is today.
unfoldable pub roll : ℕ → Budget → Budget
roll today b = if ltb b.day today then record { day = today; day_leased = 0 } else b

-- The guarded update, and what `LeaseBatch` does where no row matches.
unfoldable pub lease : ℕ → ℕ → Phase → Budget → Turn
lease limit n next b = if leb (b.day_leased + n) limit then grants n b else moves (some b) next

-- The remainder that the last update asks for.
unfoldable pub remainder : ℕ → Budget → Turn
remainder limit b =
    if leb limit b.day_leased
    then moves (some b) idle
    else moves (some b) (
        resting
          (if ltb batch_size (limit - b.day_leased) then batch_size else limit - b.day_leased))

module _ (today limit : ℕ) where
  unfoldable pub with_row : Phase → Budget → Turn
  unfolding lease remainder roll
  with_row rolling b = moves (some (roll today b)) taking
  with_row taking b = lease limit batch_size reading b
  with_row reading b = remainder limit b
  with_row (resting n) b = lease limit n idle b
  with_row _ b = moves (some b) idle

  -- A statement without a row: only the first one makes one.
  unfoldable pub statement : Phase → Option Budget → Turn
  unfolding with_row ensure
  statement ensuring row = moves (some (ensure today row)) rolling
  statement p none = moves none idle
  statement p (some b) = with_row p b

  unfoldable pub spend_token : ℕ → Option Budget → Turn
  spend_token (suc n) row = record { leases = 1; row = row; inst = waiting n idle }
  spend_token zero row = moves row ensuring

  -- One step of a draw under a limit above 0.
  unfoldable pub advance : Instance → Option Budget → Turn
  unfolding statement spend_token
  advance i row = elim i.phase [
    | idle ↦ spend_token i.tokens row
    | ensuring ↦ statement ensuring row
    | rolling ↦ statement rolling row
    | taking ↦ statement taking row
    | reading ↦ statement reading row
    | resting n ↦ statement (resting n) row
  ]

-- `draw`: without a limit it hands out a lease at once.
unfoldable pub draw_step : ℕ → ℤ → Instance → Option Budget → Turn
unfolding advance
draw_step today daily_limit i row =
    if leb_ℤ daily_limit (pos 0)
    then record { leases = 1; row = row; inst = i }
    else advance today (pos_part daily_limit) i row

-- All instances, the row they share, and the date of the database.
pub record Fleet : Type 0 where
  pub today : ℕ
  pub row : Option Budget
  pub served : ℕ
  pub instances : List Instance

-- An instance takes a step, or crashes, or a statement of it fails and its draw ends; or a day
-- passes.
pub data Event : Type 0 where
  steps crashes : ℕ → Event
  midnight : Event

-- The step of the instance at an index.
unfoldable pub step_at :
    ℕ → ℤ → ℕ → List Instance → Option Budget → ℕ × Option Budget × List Instance
unfolding draw_step
step_at today limit n [] row = (0, row, [])
step_at today limit zero (i ∷ is) row =
    let t = draw_step today limit i row in (t.leases, t.row, t.inst ∷ is)
step_at today limit (suc n) (i ∷ is) row =
    let (leases, row', is') = step_at today limit n is row in (leases, row', i ∷ is')

unfoldable pub crash_at : ℕ → List Instance → List Instance
crash_at n [] = []
crash_at zero (i ∷ is) = waiting 0 idle ∷ is
crash_at (suc n) (i ∷ is) = i ∷ crash_at n is

unfoldable pub happens : ℤ → Event → Fleet → Fleet
unfolding step_at crash_at
happens limit (steps n) f =
    let (leases, row, is) = step_at f.today limit n f.instances f.row in
    record f { row = row; served = f.served + leases; instances = is }
happens limit (crashes n) f = record f { instances = crash_at n f.instances }
happens limit midnight f = record f { today = suc f.today }

unfoldable pub run_fleet : ℤ → List Event → Fleet → Fleet
unfolding happens
run_fleet limit [] f = f
run_fleet limit (e ∷ es) f = run_fleet limit es (happens limit e f)

-- Instances that were just started, on day 0, before anything was leased.
unfoldable pub started : ℕ → List Instance
started zero = []
started (suc n) = waiting 0 idle ∷ started n

abbrev pub new_fleet : ℕ → Fleet
new_fleet n = record { today = 0; row = none; served = 0; instances = started n }
