-- ===== src/Durable/Relay/Drain.antt =====
-- What one drain of internal/durable/relay.go does.
use waterfall.Prelude.{
  ℕ, ◌+◌, ◌≤◌, arith, ◌≡◌, refl, ◌∙◌, ◌⊎◌, inl, inr, String, Bool, some, List, [], ◌∷◌, get,
  get-put, Option-cases, Bool-cases, All, length, length-append, eq_iff,
}
use mathlib.Core.Path.{subst}
use waterfall.Job.Types.{Job}
use waterfall.Job.Queue.{Queue, submit, depth, lane_of, enqueued, is_premium}
use waterfall.Job.Queue.Lanes.{IsBounded, submit-cases, submit-IsBounded}
use waterfall.Durable.Outbox.{Index, pending_outbox}
use waterfall.Durable.Relay.Queued.{Listed, IsIn, Queues, pruned-get, offer_all-Queues}
use waterfall.Durable.Relay.{
  Relay, ids_of, pruned, offer, offer_all, drain_once, published, offered,
}

module _ {C : Type 0} where
  -- A job under the guard, or one whose lane has no room.
  abbrev IsGuarded : Relay C → Job C → Type 0
  IsGuarded r j = (get r.inflight j.id ≡ some tt) ⊎ (r.queue.capacity ≤ length (lane_of j r.queue))

  -- From `a` to `b` guards and jobs are added, `n` of them, and none is taken away.
  pub record Grows (n : ℕ) (a b : Relay C) : Type 0 where
    pub capacity : b.queue.capacity ≡ a.queue.capacity
    pub depth : depth b.queue ≡ depth a.queue + n
    pub lanes : (j : Job C) → length (lane_of j a.queue) ≤ length (lane_of j b.queue)
    pub inflight : (id : String) → get a.inflight id ≡ some tt → get b.inflight id ≡ some tt
    pub bounded : IsBounded a.queue → IsBounded b.queue

  Grows-IsGuarded :
      {n : ℕ} {a b : Relay C} → Grows n a b → (j : Job C) → IsGuarded a j → IsGuarded b j
  Grows-IsGuarded g j (inl e) = inl (g.inflight j.id e)
  Grows-IsGuarded g j (inr e) = inr (omega (arith, g.lanes j, g.capacity, e))

  Grows-trans : {n m : ℕ} {a b c : Relay C} → Grows n a b → Grows m b c → Grows (n + m) a c
  Grows-trans g h = record {
    capacity = h.capacity ∙ g.capacity;
    depth = omega (arith, g.depth, h.depth);
    lanes = λ j. omega (arith, g.lanes j, h.lanes j);
    inflight = λ id e. h.inflight id (g.inflight id e);
    bounded = λ e. h.bounded (g.bounded e);
  }

  Grows-refl : (a : Relay C) → Grows 0 a a
  Grows-refl a = record {
    capacity = refl;
    depth = omega arith;
    lanes = λ j. omega arith;
    inflight = λ id e. e;
    bounded = λ e. e;
  }

  enqueued-depth : (j : Job C) (q : Queue C) → depth (enqueued j q) ≡ depth q + 1
  unfolding depth enqueued is_premium
  enqueued-depth j q = elim (Bool-cases (is_premium j)) [
    | inl e ↦ rw e (omega (arith, length-append q.high (j ∷ [])))
    | inr e ↦ rw e (omega (arith, length-append q.low (j ∷ [])))
  ]

  enqueued-lanes :
      (j i : Job C) (q : Queue C) → length (lane_of i q) ≤ length (lane_of i (enqueued j q))
  unfolding lane_of enqueued is_premium
  enqueued-lanes j i q = elim (Bool-cases (is_premium j)) [
    | inl e ↦ rw e (ground (arith, length-append q.high (j ∷ [])))
    | inr e ↦ rw e (ground (arith, length-append q.low (j ∷ [])))
  ]

  enqueued-capacity : (j : Job C) (q : Queue C) → (enqueued j q).capacity ≡ q.capacity
  unfolding enqueued
  enqueued-capacity j q = elim (Bool-cases (is_premium j)) [ inl e ↦ rw e refl | inr e ↦ rw e refl ]

  published-Grows :
      (j : Job C) (r : Relay C)
      → let out = published j r (submit j r.queue) in Grows out.0 r out.1 × IsGuarded out.1 j
  unfolding published
  published-Grows j r = elim (submit-cases j r.queue) [
    | inl (room, e) ↦
        let kept =
          subst (λ (p : Bool × Queue C). IsBounded r.queue → IsBounded p.1) e
            (submit-IsBounded j r.queue) in
        rw e (
          record {
            capacity = enqueued-capacity j r.queue;
            depth = enqueued-depth j r.queue;
            lanes = λ i. enqueued-lanes j i r.queue;
            inflight = λ id h. ground (arith, get-put r.inflight j.id tt id, h);
            bounded = kept;
          },
          inl (ground (arith, get-put r.inflight j.id tt j.id, eq_iff j.id j.id)),
        )
    | inr (full, e) ↦ rw e (Grows-refl r, inr full)
  ]

  offer-Grows :
      (j : Job C) (r : Relay C) → Grows (offer j r).0 r (offer j r).1 × IsGuarded (offer j r).1 j
  unfolding offer offered
  offer-Grows j r = elim (Option-cases (get r.inflight j.id)) [
    | inl e ↦ rw e (published-Grows j r)
    | inr (u, e) ↦ rw e (Grows-refl r, inl e)
  ]

  offer_all-Grows :
      (js : List (Job C)) (r : Relay C)
      → Grows (offer_all js r).0 r (offer_all js r).1 × All (IsGuarded (offer_all js r).1) js
  unfolding offer_all
  offer_all-Grows [] r = (Grows-refl r, tt)
  offer_all-Grows (j ∷ js) r =
      let (g, now) = offer-Grows j r in
      let (h, later) = offer_all-Grows js (offer j r).1 in
      (Grows-trans g h, (Grows-IsGuarded h j now, later))

  -- A pending job that a guard held back from before the drain; or one whose id went to the queue,
  -- with a pending job; or one whose lane has no room.
  abbrev pub IsHandled : List (Job C) → Relay C → Relay C → Job C → Type 0
  IsHandled pending r out j =
      (get r.inflight j.id ≡ some tt)
      ⊎ (((i : Job C) × (i.id ≡ j.id) × Listed i pending × IsIn i out.queue)
          ⊎ (out.queue.capacity ≤ length (lane_of j out.queue)))

  All-map :
      {P Q : Job C → Type 0} → ((j : Job C) → P j → Q j) → (js : List (Job C)) → All P js → All Q js
  All-map f [] h = tt
  All-map f (j ∷ js) (h, hs) = (f j h, All-map f js hs)

  -- A drain leaves no pending job out: each was under a guard before, or a job of its id went to the
  -- queue, or its lane has no room. The drain takes nothing out of the queue and puts nothing in but
  -- pending jobs, as many as it reports. It sets no guard but for a job that is in the queue, and the
  -- lanes stay within their capacity.
  pub drain_once-IsHandled :
      (x : Index C) (r : Relay C)
      → IsBounded r.queue
      → let out = drain_once x r in
        let pending = pending_outbox x in
        All (IsHandled pending r out.1) pending
        × Queues pending r out.1
        × (depth out.1.queue ≡ depth r.queue + out.0)
        × IsBounded out.1.queue
  unfolding drain_once
  drain_once-IsHandled x r bounded =
      let jobs = pending_outbox x in
      let start : Relay C = record r { inflight = pruned (ids_of jobs) r.inflight } in
      let (g, all) = offer_all-Grows jobs start in
      let q = offer_all-Queues jobs start in
      let guarded : (id : String)
          → get (offer_all jobs start).1.inflight id ≡ some tt
          → (get r.inflight id ≡ some tt)
            ⊎ ((i : Job C) × (i.id ≡ id) × Listed i jobs × IsIn i (offer_all jobs start).1.queue) =
        λ id k. elim (q.guards id k) [
          | inl l ↦ inl (pruned-get (ids_of jobs) r.inflight id l)
          | inr l ↦ inr l
        ] in
      (
        All-map
            (λ j k. elim k [
              | inl l ↦ elim (guarded j.id l) [ inl m ↦ inl m | inr m ↦ inr (inl m) ]
              | inr full ↦ inr (inr full)
            ])
            jobs all,
        record { stays = q.stays; comes = q.comes; guards = guarded },
        g.depth,
        g.bounded bounded,
      )
