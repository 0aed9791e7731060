-- ===== src/Durable/Relay.antt =====
-- `Relay` of internal/durable/relay.go: the intents that go to the queue. The ticker that repeats
-- `DrainOnce` is not modelled.
pub mod Drain
pub mod Queued
use waterfall.Prelude.{
  ℕ, ◌+◌, String, Bool, true, false, Option, none, some, List, [], ◌∷◌, Dict, get, put,
  if◌then◌else◌,
}
use waterfall.Job.Types.{Job}
use waterfall.Job.Queue.{Queue, submit}
use waterfall.Durable.Outbox.{Index, pending_outbox}

pub record Relay (C : Type 0) : Type 0 where
  pub queue : Queue C
  pub inflight : Dict (Unit {0})

kept : Option (Unit {0}) → String → Dict (Unit {0}) → Dict (Unit {0})
kept none id m = m
kept (some _) id m = (id, tt) ∷ m

-- The guards of the jobs that are still pending.
unfoldable pub pruned : Dict (Unit {0}) → Dict (Unit {0}) → Dict (Unit {0})
unfolding kept
pruned pend [] = []
pruned pend ((id, _) ∷ m) = kept (get pend id) id (pruned pend m)

module _ {C : Type 0} where
  unfoldable pub ids_of : List (Job C) → Dict (Unit {0})
  ids_of [] = []
  ids_of (j ∷ js) = (j.id, tt) ∷ ids_of js

  unfoldable pub published : Job C → Relay C → Bool × Queue C → ℕ × Relay C
  published j r (true, q) = (1, record { queue = q; inflight = put r.inflight j.id tt })
  published j r (false, q) = (0, r)

  unfoldable pub offered : Option (Unit {0}) → Job C → Relay C → ℕ × Relay C
  unfolding published
  offered (some _) j r = (0, r)
  offered none j r = published j r (submit j r.queue)

  -- One turn of the loop: how many jobs it published.
  unfoldable pub offer : Job C → Relay C → ℕ × Relay C
  unfolding offered
  offer j r = offered (get r.inflight j.id) j r

  unfoldable pub offer_all : List (Job C) → Relay C → ℕ × Relay C
  offer_all [] r = (0, r)
  offer_all (j ∷ js) r = let (n, r') = offer j r in let (m, r'') = offer_all js r' in (n + m, r'')

  -- `DrainOnce`.
  unfoldable pub drain_once : Index C → Relay C → ℕ × Relay C
  unfolding offer_all pruned ids_of
  drain_once x r =
      let jobs = pending_outbox x in
      offer_all jobs (record r { inflight = pruned (ids_of jobs) r.inflight })
