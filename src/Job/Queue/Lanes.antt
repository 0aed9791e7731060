-- ===== src/Job/Queue/Lanes.antt =====
-- The bound and the order of the two-lane queue of internal/job/queue.go.
use waterfall.Prelude.{
  ◌+◌, ◌<◌, ◌≤◌, arith, ◌≡◌, refl, ◌⊎◌, inl, inr, true, false, List, [], ◌∷◌, ◌++◌, length,
  length-append, ltb, Bool-cases,
}
use waterfall.Job.Types.{Job}
use waterfall.Job.Queue.{Queue, submit, is_premium, lane_of, enqueued}

module _ {C : Type 0} where
  -- No lane holds more than its capacity.
  pub record IsBounded (q : Queue C) : Type 0 where
    pub high : length q.high ≤ q.capacity
    pub low : length q.low ≤ q.capacity

  length-snoc : (xs : List (Job C)) (j : Job C) → length (xs ++ j ∷ []) ≡ length xs + 1
  length-snoc xs j = length-append xs (j ∷ [])

  submit_room :
      (j : Job C) (q : Queue C)
      → length (lane_of j q) < q.capacity
      → submit j q ≡ (true, enqueued j q)
  unfolding submit
  submit_room j q h =
      let e : ltb (length (lane_of j q)) q.capacity ≡ true = ground arith in rw e refl

  submit_full :
      (j : Job C) (q : Queue C) → q.capacity ≤ length (lane_of j q) → submit j q ≡ (false, q)
  unfolding submit
  submit_full j q h =
      let e : ltb (length (lane_of j q)) q.capacity ≡ false = ground arith in rw e refl

  enqueued-IsBounded :
      (j : Job C) (q : Queue C)
      → length (lane_of j q) < q.capacity
      → IsBounded q
      → IsBounded (enqueued j q)
  unfolding lane_of enqueued
  enqueued-IsBounded j q room h = elim (Bool-cases (is_premium j)) [
    | inl e ↦
        let small : length q.high < q.capacity = rw e at room in
        rw e (record { high = omega (arith, small, length-snoc q.high j); low = h.low })
    | inr e ↦
        let small : length q.low < q.capacity = rw e at room in
        rw e (record { high = h.high; low = omega (arith, small, length-snoc q.low j) })
  ]

  pub submit-cases :
      (j : Job C) (q : Queue C)
      → ((length (lane_of j q) < q.capacity) × (submit j q ≡ (true, enqueued j q)))
        ⊎ ((q.capacity ≤ length (lane_of j q)) × (submit j q ≡ (false, q)))
  submit-cases j q = elim (Bool-cases (ltb (length (lane_of j q)) q.capacity)) [
    | inl e ↦
        let room : length (lane_of j q) < q.capacity = ground arith in
        inl (room, submit_room j q room)
    | inr e ↦
        let full : q.capacity ≤ length (lane_of j q) = ground arith in
        inr (full, submit_full j q full)
  ]

  pub submit-IsBounded : (j : Job C) (q : Queue C) → IsBounded q → IsBounded (submit j q).1
  submit-IsBounded j q h = elim (submit-cases j q) [
    | inl (room, e) ↦ rw e (enqueued-IsBounded j q room h)
    | inr (full, e) ↦ rw e h
  ]
