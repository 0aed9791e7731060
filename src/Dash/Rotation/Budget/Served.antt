-- ===== src/Dash/Rotation/Budget/Served.antt =====
-- No over-lease: what the instances hand out of the daily quota of a key, together.
use waterfall.Prelude.{
  ℕ, zero, suc, ◌+◌, ◌*◌, ◌≤◌, arith, ◌≡◌, refl, false, leb, pos, Option, none, some, List, [], ◌∷◌,
  All,
}
use native.Mathlib.Nat.{mul-le-mul_left}
use waterfall.Dash.Rotation.Budget.{
  Budget, Instance, advance, draw_step, Fleet, Event, steps, crashes, midnight, step_at, crash_at,
  happens, run_fleet, started, new_fleet,
}
use waterfall.Dash.Rotation.Budget.Leased.{
  total, Asks, Covers, Covers-at, Covers-mono, Covers-later, advance-Kept,
}

-- Every draw of the fleet that is about to ask, asks for something.
abbrev AllAsk : List Instance → Type 0
AllAsk is = All (λ (i : Instance). Asks i.phase) is

module _ (m : ℕ) where
  draw_step-advance :
      (today : ℕ) (i : Instance) (row : Option Budget)
      → draw_step today (pos (suc m)) i row ≡ advance today (suc m) i row
  unfolding draw_step
  draw_step-advance today i row = rw (limited) refl
    where
      limited : leb (suc m + 0) (0 + 0) ≡ false
      limited = ground arith

  step_at-Kept :
      (today n used : ℕ) (is : List Instance) (row : Option Budget)
      → AllAsk is
      → Covers (suc m) today (used + total is) row
      → let out = step_at today (pos (suc m)) n is row in
        Covers (suc m) today (used + out.0 + total out.2) out.1 × AllAsk out.2
  unfolding step_at
  step_at-Kept today n used [] row asks h =
      (Covers-at (suc m) today 0 row (used + 0) (used + 0 + 0) (omega arith) h, tt)
  step_at-Kept today zero used (i ∷ is) row (a, asks) h =
      let (now, more) = advance-Kept (suc m) today (used + total is) i row a (
        Covers-at (suc m) today 0 row (used + (i.tokens + total is)) (i.tokens + (used + total is))
          (omega arith) h) in
      let t = advance today (suc m) i row in
      rw (draw_step-advance today i row) (
        Covers-at (suc m) today 0 t.row (t.leases + t.inst.tokens + (used + total is))
            (used + t.leases + (t.inst.tokens + total is)) (omega arith) now,
        (more, asks),
      )
  step_at-Kept today (suc n) used (i ∷ is) row (a, asks) h =
      let out = step_at today (pos (suc m)) n is row in
      let (later, more) = step_at-Kept today n (used + i.tokens) is row asks (
        Covers-at (suc m) today 0 row (used + (i.tokens + total is)) (used + i.tokens + total is)
          (omega arith) h) in
      (
        Covers-at (suc m) today 0 out.1 (used + i.tokens + out.0 + total out.2)
            (used + out.0 + (i.tokens + total out.2)) (omega arith) later,
        (a, more),
      )

  crash_at-total : (n : ℕ) (is : List Instance) → total (crash_at n is) ≤ total is
  unfolding crash_at
  crash_at-total n [] = omega arith
  crash_at-total zero (i ∷ is) = omega arith
  crash_at-total (suc n) (i ∷ is) = omega (arith, crash_at-total n is)

  crash_at-AllAsk : (n : ℕ) (is : List Instance) → AllAsk is → AllAsk (crash_at n is)
  unfolding crash_at
  crash_at-AllAsk n [] asks = tt
  crash_at-AllAsk zero (i ∷ is) (a, asks) = (tt, asks)
  crash_at-AllAsk (suc n) (i ∷ is) (a, asks) = (a, crash_at-AllAsk n is asks)

  -- What was handed out, and what is held, was leased.
  abbrev Backed : Fleet → Type 0
  Backed f = Covers (suc m) f.today (f.served + total f.instances) f.row × AllAsk f.instances

  happens-Backed : (e : Event) (f : Fleet) → Backed f → Backed (happens (pos (suc m)) e f)
  unfolding happens
  happens-Backed (steps n) f (h, asks) = step_at-Kept f.today n f.served f.instances f.row asks h
  happens-Backed (crashes n) f (h, asks) = (
    Covers-mono (suc m) f.today (f.served + total f.instances) f.row _
        (omega (arith, crash_at-total n f.instances)) h,
    crash_at-AllAsk n f.instances asks,
  )
  happens-Backed midnight f (h, asks) =
      (Covers-later (suc m) f.today (f.served + total f.instances) f.row h, asks)

  run_fleet-Backed :
      (es : List Event) (f : Fleet) → Backed f → Backed (run_fleet (pos (suc m)) es f)
  unfolding run_fleet
  run_fleet-Backed [] f h = h
  run_fleet-Backed (e ∷ es) f h =
      run_fleet-Backed es (happens (pos (suc m)) e f) (happens-Backed e f h)

  Backed-served : (f : Fleet) → Backed f → f.served ≤ suc m * f.today + suc m
  Backed-served f (h, asks) = go f.row h
    where
      go :
          (row : Option Budget)
          → Covers (suc m) f.today (f.served + total f.instances) row
          → f.served ≤ suc m * f.today + suc m
      go none u = omega (arith, u)
      go (some b) (d, l, u) = omega (arith, mul-le-mul_left (suc m) d, l, u)

  started-total : (n : ℕ) → total (started n) ≡ 0
  unfolding started
  started-total zero = refl
  started-total (suc n) = omega (arith, started-total n)

  started-AllAsk : (n : ℕ) → AllAsk (started n)
  unfolding started
  started-AllAsk zero = tt
  started-AllAsk (suc n) = (tt, started-AllAsk n)

  -- No over-lease: however many instances draw, statement by statement in whatever order, with
  -- crashes and failures, they hand out no more leases than the daily limit for each day that began.
  pub run_fleet-served :
      (es : List Event) (n : ℕ)
      → let out = run_fleet (pos (suc m)) es (new_fleet n) in out.served ≤ suc m * suc out.today
  run_fleet-served es n =
      let out = run_fleet (pos (suc m)) es (new_fleet n) in
      omega (
        arith,
        Backed-served out
            (run_fleet-Backed es (new_fleet n) (omega (arith, started-total n), started-AllAsk n)),
      )
