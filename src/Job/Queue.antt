-- ===== src/Job/Queue.antt =====
-- internal/job/queue.go: the bounded two-lane queue. A channel is the list of what it holds.
pub mod Lanes
use waterfall.Prelude.{
  ℕ, ◌+◌, ℤ, pos, pos_part, ltb_ℤ, leb_ℤ, Bool, true, false, List, [], ◌∷◌, ◌++◌, length, ltb,
  if◌then◌else◌,
}
use waterfall.Job.Types.{Job}

pub record Queue (C : Type 0) : Type 0 where
  pub high : List (Job C)
  pub low : List (Job C)
  pub capacity : ℕ

-- What `dequeue` ends with; `blocked` stands for a receive that goes on waiting.
pub data Dequeued (C : Type 0) : Type 0 where
  stopped : Dequeued C
  got : Job C → Queue C → Dequeued C
  blocked : Dequeued C

-- Which of the ready cases of the second `select` is taken, which Go picks at random.
pub data Choice : Type 0 where
  take_done take_high take_low : Choice

module _ {C : Type 0} where
  unfoldable pub new_queue : ℤ → Queue C
  new_queue capacity = record {
    high = [];
    low = [];
    capacity = if ltb_ℤ capacity (pos 1) then 1 else pos_part capacity;
  }

  unfoldable pub depth : Queue C → ℕ
  depth q = length q.high + length q.low

  -- `j.Priority >= PriorityPremium`.
  unfoldable pub is_premium : Job C → Bool
  is_premium j = leb_ℤ (pos 1) j.priority

  unfoldable pub lane_of : Job C → Queue C → List (Job C)
  unfolding is_premium
  lane_of j q = if is_premium j then q.high else q.low

  unfoldable pub enqueued : Job C → Queue C → Queue C
  unfolding is_premium
  enqueued j q =
      if is_premium j
      then record q { high = q.high ++ j ∷ [] }
      else record q { low = q.low ++ j ∷ [] }

  -- `Submit`: a full lane sheds the job.
  unfoldable pub submit : Job C → Queue C → Bool × Queue C
  unfolding lane_of enqueued
  submit j q = if ltb (length (lane_of j q)) q.capacity then (true, enqueued j q) else (false, q)

  from_low : Queue C → List (Job C) → Dequeued C
  from_low q [] = blocked
  from_low q (j ∷ rest) = got j (record q { low = rest })

  -- The second `select`, with an empty high lane: `done` is closed or not.
  waiting : Choice → Bool → Queue C → Dequeued C
  unfolding from_low
  waiting take_done true q = stopped
  waiting take_done false q = blocked
  waiting take_high done q = blocked
  waiting take_low done q = from_low q q.low

  dequeue_from : List (Job C) → Choice → Bool → Queue C → Dequeued C
  unfolding waiting
  dequeue_from (j ∷ rest) choice done q = got j (record q { high = rest })
  dequeue_from [] choice done q = waiting choice done q

  -- `dequeue`, while nothing else happens to the queue.
  unfoldable pub dequeue : Choice → Bool → Queue C → Dequeued C
  unfolding dequeue_from
  dequeue choice done q = dequeue_from q.high choice done q
