-- ===== src/Examples/Leases.antt =====
-- The theorems on internal/dash/rotation, applied.
use waterfall.Prelude.{ℕ, suc, ◌+◌, ◌*◌, ◌≤◌, ◌≡◌, refl, Bool, true, false, pos, [], ◌∷◌}
use waterfall.Domain.Errors.{quota}
use waterfall.Dash.Rotation.Budget.{steps, crashes, midnight, run_fleet, new_fleet}
use waterfall.Dash.Rotation.Budget.Served.{run_fleet-served}
use waterfall.Dash.Rotation.Triggers.{Key, active, disabled, acts, reports, reactivates}
use waterfall.Dash.Rotation.Parked.{stale_status_revives}

run_fleet-served_example :
    let out =
      run_fleet
        (pos 1)
        (steps 0
          ∷ steps 1
          ∷ steps 0
          ∷ steps 0
          ∷ steps 1
          ∷ steps 0
          ∷ steps 0
          ∷ crashes 1
          ∷ midnight
          ∷ [])
        (new_fleet 2) in
    out.served ≤ 1 * suc out.today
run_fleet-served_example =
    run_fleet-served 0
      (steps 0
        ∷ steps 1
        ∷ steps 0
        ∷ steps 0
        ∷ steps 1
        ∷ steps 0
        ∷ steps 0
        ∷ crashes 1
        ∷ midnight
        ∷ [])
      2

-- Statements that work.
abbrev works : ℕ → Bool × ℕ
works w = (true, w + 1)

-- An active key, which an operator has disabled since its pool was loaded.
abbrev stale_key : Key ℕ
stale_key = record {
  row = record { status = disabled; health_probing = false };
  status = active;
  avail = true;
  rl_streak = 0;
  world = 0;
  events = [];
}

stale_status_revives_example :
    (acts works 3
      (reports (record { works = false; class = quota }) ∷ reactivates ∷ [])
      stale_key).row.status
    ≡ active
stale_status_revives_example = stale_status_revives works 3 stale_key (λ w. refl) refl
