-- ===== src/Durable/Relay/Queued.antt =====
-- The jobs and the guards that a drain of internal/durable/relay.go adds.
use waterfall.Prelude.{
  ◌≡◌, refl, ◌⊎◌, inl, inr, String, ◌==◌, eq_iff, Dict, some, List, [], ◌∷◌, ◌++◌, get, get-put,
  Option-cases, Bool-cases, arith,
}
use waterfall.Job.Types.{Job}
use waterfall.Job.Queue.{Queue, submit, enqueued, is_premium}
use waterfall.Job.Queue.Lanes.{submit-cases}
use waterfall.Durable.Relay.{Relay, pruned, offer, offer_all, published, offered}

-- The guards that are kept were there before.
pub pruned-get :
    (pend m : Dict (Unit {0})) (id : String) → get (pruned pend m) id ≡ some tt → get m id ≡ some tt
unfolding pruned get
pruned-get pend [] id h = h
pruned-get pend ((k, u) ∷ m) id h = elim (Bool-cases (k == id)) [
  | inl e ↦ rw e refl
  | inr e ↦ elim (Option-cases (get pend k)) [
    | inl q ↦ rw e (pruned-get pend m id (rw q at h))
    | inr (v, q) ↦ rw e (pruned-get pend m id (rw (q, e) at h))
  ]
]

module _ {C : Type 0} where
  abbrev pub Listed : Job C → List (Job C) → Type 0
  Listed j [] = ⊥
  Listed j (i ∷ is) = (i ≡ j) ⊎ Listed j is

  -- A job in a lane of the queue.
  abbrev pub IsIn : Job C → Queue C → Type 0
  IsIn j q = Listed j q.high ⊎ Listed j q.low

  -- From `a` to `b` no job left the queue, only jobs of the list came, and with them the guards.
  pub record Queues (js : List (Job C)) (a b : Relay C) : Type 0 where
    pub stays : (i : Job C) → IsIn i a.queue → IsIn i b.queue
    pub comes : (i : Job C) → IsIn i b.queue → IsIn i a.queue ⊎ Listed i js
    pub guards :
        (id : String)
        → get b.inflight id ≡ some tt
        → (get a.inflight id ≡ some tt) ⊎ ((i : Job C) × (i.id ≡ id) × Listed i js × IsIn i b.queue)

  Listed-append : (i j : Job C) (xs : List (Job C)) → Listed i xs → Listed i (xs ++ j ∷ [])
  Listed-append i j [] h = absurd h
  Listed-append i j (x ∷ xs) (inl e) = inl e
  Listed-append i j (x ∷ xs) (inr h) = inr (Listed-append i j xs h)

  ends-Listed : (j : Job C) (xs : List (Job C)) → Listed j (xs ++ j ∷ [])
  ends-Listed j [] = inl refl
  ends-Listed j (x ∷ xs) = inr (ends-Listed j xs)

  append-Listed :
      (i j : Job C) (xs : List (Job C)) → Listed i (xs ++ j ∷ []) → Listed i xs ⊎ (j ≡ i)
  append-Listed i j [] (inl e) = inr e
  append-Listed i j [] (inr h) = absurd h
  append-Listed i j (x ∷ xs) (inl e) = inl (inl e)
  append-Listed i j (x ∷ xs) (inr h) = elim (append-Listed i j xs h) [
    | inl k ↦ inl (inr k)
    | inr e ↦ inr e
  ]

  enqueued-stays : (i j : Job C) (q : Queue C) → IsIn i q → IsIn i (enqueued j q)
  unfolding enqueued
  enqueued-stays i j q h = elim (Bool-cases (is_premium j)) [
    | inl e ↦ rw e (elim h [ inl k ↦ inl (Listed-append i j q.high k) | inr k ↦ inr k ])
    | inr e ↦ rw e (elim h [ inl k ↦ inl k | inr k ↦ inr (Listed-append i j q.low k) ])
  ]

  enqueued-IsIn : (j : Job C) (q : Queue C) → IsIn j (enqueued j q)
  unfolding enqueued
  enqueued-IsIn j q = elim (Bool-cases (is_premium j)) [
    | inl e ↦ rw e (inl (ends-Listed j q.high))
    | inr e ↦ rw e (inr (ends-Listed j q.low))
  ]

  enqueued_either : (i j : Job C) (q : Queue C) → IsIn i (enqueued j q) → IsIn i q ⊎ (j ≡ i)
  unfolding enqueued
  enqueued_either i j q h = elim (Bool-cases (is_premium j)) [
    | inl e ↦ high (rw e at h)
    | inr e ↦ low (rw e at h)
  ]
    where
      high : Listed i (q.high ++ j ∷ []) ⊎ Listed i q.low → IsIn i q ⊎ (j ≡ i)
      high (inr k) = inl (inr k)
      high (inl k) = elim (append-Listed i j q.high k) [ inl l ↦ inl (inl l) | inr e ↦ inr e ]

      low : Listed i q.high ⊎ Listed i (q.low ++ j ∷ []) → IsIn i q ⊎ (j ≡ i)
      low (inl k) = inl (inl k)
      low (inr k) = elim (append-Listed i j q.low k) [ inl l ↦ inl (inr l) | inr e ↦ inr e ]

  Queues-refl : (js : List (Job C)) (a : Relay C) → Queues js a a
  Queues-refl js a = record { stays = λ i h. h; comes = λ i h. inl h; guards = λ id h. inl h }

  published-Queues :
      (j : Job C) (js : List (Job C)) (r : Relay C)
      → Queues (j ∷ js) r (published j r (submit j r.queue)).1
  unfolding published
  published-Queues j js r = elim (submit-cases j r.queue) [
    | inr (full, e) ↦ rw e (Queues-refl (j ∷ js) r)
    | inl (room, e) ↦ rw e (record {
      stays = λ i h. enqueued-stays i j r.queue h;
      comes = λ i h. elim (enqueued_either i j r.queue h) [ inl k ↦ inl k | inr q ↦ inr (inl q) ];
      guards = λ id h. elim (Bool-cases (j.id == id)) [
        | inl q ↦ inr (j, (eq_iff j.id id).0 q, inl refl, enqueued-IsIn j r.queue)
        | inr q ↦ inl (ground (arith, get-put r.inflight j.id tt id, h, q))
      ];
    })
  ]

  offer-Queues : (j : Job C) (js : List (Job C)) (r : Relay C) → Queues (j ∷ js) r (offer j r).1
  unfolding offer offered
  offer-Queues j js r = elim (Option-cases (get r.inflight j.id)) [
    | inl e ↦ rw e (published-Queues j js r)
    | inr (u, e) ↦ rw e (Queues-refl (j ∷ js) r)
  ]

  Queues-trans :
      (j : Job C) (js : List (Job C)) (a b c : Relay C)
      → Queues (j ∷ js) a b
      → Queues js b c
      → Queues (j ∷ js) a c
  Queues-trans j js a b c g h = record {
    stays = λ i k. h.stays i (g.stays i k);
    comes = λ i k. elim (h.comes i k) [ inl l ↦ g.comes i l | inr l ↦ inr (inr l) ];
    guards = λ id k. elim (h.guards id k) [
      | inr (i, same, listed, there) ↦ inr (i, same, inr listed, there)
      | inl l ↦ elim (g.guards id l) [
        | inl m ↦ inl m
        | inr (i, same, listed, there) ↦ inr (i, same, listed, h.stays i there)
      ]
    ];
  }

  pub offer_all-Queues : (js : List (Job C)) (r : Relay C) → Queues js r (offer_all js r).1
  unfolding offer_all
  offer_all-Queues [] r = Queues-refl [] r
  offer_all-Queues (j ∷ js) r =
      Queues-trans j js r (offer j r).1 _ (offer-Queues j js r) (offer_all-Queues js (offer j r).1)
