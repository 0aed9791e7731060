-- ===== src/Dash/Rotation/Triggers.antt =====
-- The states of a provider key: internal/dash/rotation/triggers.go, and what moves a key in
-- internal/dash/rotation/engine.go.
use waterfall.Prelude.{
  ℕ, suc, Bool, true, false, leb, Option, none, some, List, [], ◌∷◌, ◌++◌, if◌then◌else◌,
}
use waterfall.Domain.Errors.{ErrorClass, auth, quota, rate_limit}

-- `State`: the values of the status column, and `probing`.
pub data KeyState : Type 0 where
  active paused exhausted probing rate_limited auth_failed disabled expired rotating archived :
      KeyState

-- `Transitions` and `legal`.
unfoldable pub legal : KeyState → KeyState → Bool
legal active paused = true
legal active exhausted = true
legal active rate_limited = true
legal active auth_failed = true
legal active expired = true
legal active rotating = true
legal active archived = true
legal paused active = true
legal paused rotating = true
legal paused archived = true
legal exhausted probing = true
legal exhausted rotating = true
legal exhausted archived = true
legal probing active = true
legal probing exhausted = true
legal probing archived = true
legal rate_limited active = true
legal rate_limited rotating = true
legal rate_limited archived = true
legal auth_failed disabled = true
legal auth_failed archived = true
legal disabled active = true
legal disabled rotating = true
legal disabled archived = true
legal expired rotating = true
legal expired archived = true
legal rotating active = true
legal rotating archived = true
legal _ _ = false

-- The two columns of a key: the status, and whether the health is "probing".
pub record KeyRow : Type 0 where
  pub status : KeyState
  pub health_probing : Bool

-- `persistCols`.
unfoldable pub persist_cols : KeyState → KeyRow
persist_cols probing = record { status = exhausted; health_probing = true }
persist_cols s = record { status = s; health_probing = false }

-- `KeyAvailable`.
unfoldable pub key_available : KeyState → Bool
key_available active = true
key_available rotating = true
key_available _ = false

-- `StatusEvent`.
pub record StatusEvent : Type 0 where
  pub from : KeyState
  pub to : KeyState
  pub class : Option ErrorClass
  pub alert : Bool

-- One `keyState` with the row of its key, the world and the events that went out. Another pool, and
-- a lease that is out since before a refresh, have a `keyState` of their own for the same row.
pub record Key (W : Type 0) : Type 0 where
  pub row : KeyRow
  pub status : KeyState
  pub avail : Bool
  pub rl_streak : ℕ
  pub world : W
  pub events : List StatusEvent

-- What was reported of a call.
pub record CallOutcome : Type 0 where
  pub works : Bool
  pub class : ErrorClass

-- What the service does to a key of its own accord.
pub data Act : Type 0 where
  reports : CallOutcome → Act
  drops reactivates : Act

-- `sql_ok` tells whether the next statement works; `threshold` is that of the rate limits. The
-- audit row of a transition, whose failure is only logged, is left out.
module _ {W : Type 0} (sql_ok : W → Bool × W) (threshold : ℕ) where
  -- `markStatus`.
  unfoldable pub mark_status : KeyState → Key W → Key W
  mark_status s k = record k { status = s; avail = key_available s }

  persisted : KeyState → KeyState → Option ErrorClass → Bool → Bool → Key W → Bool × Key W
  persisted from to class alert false k = (false, k)
  persisted from to class alert true k = (
    true,
    record k {
      row = persist_cols to;
      events = k.events ++ record { from = from; to = to; class = class; alert = alert } ∷ [];
    },
  )

  -- `Trigger.Apply`; `true` for a nil error.
  unfoldable pub apply_edge : KeyState → KeyState → Option ErrorClass → Bool → Key W → Bool × Key W
  unfolding persisted
  apply_edge from to class alert k =
      let (works, w) = sql_ok k.world in
      if legal from to
      then persisted from to class alert works (record k { world = w })
      else (false, k)

  -- After an edge: the mark, where there was no error.
  unfoldable pub marked : KeyState → Bool × Key W → Key W
  marked s (true, k) = mark_status s k
  marked s (false, k) = k

  unfoldable pub park : Bool × Key W → Key W
  park (true, k) = mark_status disabled k
  park (false, k) = mark_status auth_failed k

  unfoldable pub after_auth : Bool × Key W → Key W
  unfolding park
  after_auth (true, k) = park (apply_edge auth_failed disabled (some auth) true k)
  after_auth (false, k) = k

  rested : Bool × Key W → Key W
  rested (true, k) = record (mark_status rate_limited k) { rl_streak = 0 }
  rested (false, k) = k

  rate_limit_seen : Key W → Key W
  unfolding rested
  rate_limit_seen k =
      if leb threshold k.rl_streak
      then rested (apply_edge k.status rate_limited (some rate_limit) false k)
      else k

  by_class : ErrorClass → Key W → Key W
  unfolding after_auth rate_limit_seen marked
  by_class auth k = after_auth (apply_edge k.status auth_failed (some auth) true k)
  by_class quota k = marked exhausted (apply_edge k.status exhausted (some quota) false k)
  by_class rate_limit k = rate_limit_seen (record k { rl_streak = suc k.rl_streak })
  by_class _ k = k

  -- `recordOutcome`, without the averages, which no transition reads.
  unfoldable pub record_outcome : CallOutcome → Key W → Key W
  unfolding by_class
  record_outcome o k = if o.works then record k { rl_streak = 0 } else by_class o.class k

  dropped : Bool × Key W → Key W
  dropped (true, k) = mark_status exhausted k
  dropped (false, k) = record k { avail = false }

  -- `fireQuota`.
  unfoldable pub fire_quota : Key W → Key W
  unfolding dropped
  fire_quota k = dropped (apply_edge k.status exhausted (some quota) false k)

  probed : Bool × Key W → Key W
  probed (true, k) = (apply_edge probing active none false k).1
  probed (false, k) = k

  unfoldable pub by_row : KeyState → Key W → Key W
  unfolding probed
  by_row exhausted k = probed (apply_edge exhausted probing none false k)
  by_row rate_limited k = (apply_edge rate_limited active none false k).1
  by_row _ k = k

  found_row : Bool → Key W → Key W
  unfolding by_row
  found_row false k = k
  found_row true k = by_row k.row.status k

  -- `ReactivateKey`, without its error: it goes by the status of the row.
  unfoldable pub reactivate : Key W → Key W
  unfolding found_row
  reactivate k = let (works, w) = sql_ok k.world in found_row works (record k { world = w })

  unfoldable pub act : Act → Key W → Key W
  unfolding record_outcome fire_quota reactivate
  act (reports o) k = record_outcome o k
  act drops k = fire_quota k
  act reactivates k = reactivate k

  unfoldable pub acts : List Act → Key W → Key W
  unfolding act
  acts [] k = k
  acts (a ∷ later) k = acts later (act a k)
