-- ===== src/Examples/Jobs.antt =====
-- The theorems on internal/job and internal/calibrate, applied.
use waterfall.Prelude.{ℕ, ◌+◌, arith, refl, ◌≡◌, false, none, some, List, [], ◌∷◌, pos, ltb, leb}
use waterfall.Tenant.{tenant_id}
use waterfall.Job.Types.{Job, queued}
use waterfall.Job.Dispatch.{Worker, panics}
use waterfall.Calibrate.{Point, fit_isotonic, predict}
use waterfall.Calibrate.Monotone.{IsLinear, fit_isotonic-AtMost}
use waterfall.Examples.Data.{percent, request}

abbrev pub job : Job ℕ
job = record {
  id = "job_1";
  tenant = "acme";
  idempotency_key = "k";
  fingerprint = "f";
  principal = record { tenant_id = "acme"; user_id = "u"; scopes = [] };
  req = request;
  priority = pos 0;
  status = queued;
  outcome = none;
  err_text = "";
  created_at = 1;
  updated_at = 1;
}

-- A worker whose runs all panic.
abbrev worker : Worker ℕ ℕ
worker = record {
  run = λ ctx req w. (panics, w + 1);
  error_text = λ e. "boom";
  on_complete = some (λ ctx j w. w + 1);
}

abbrev points : List (Point ℕ)
points =
    record { x = 10; y = 100; w = 1 }
    ∷ record { x = 50; y = 0; w = 1 }
    ∷ record { x = 80; y = 100; w = 0 }
    ∷ []

percent-IsLinear : IsLinear percent
unfolding ltb leb
percent-IsLinear = record {
  irreflexive = λ a. ground arith;
  transitive = λ a b c p q. ground arith;
  asymmetric = λ a b p. ground arith;
  converse = λ a b. ground arith;
  unit = refl;
}

fit_isotonic-AtMost_example :
    ltb
      (predict percent (fit_isotonic percent points) 60)
      (predict percent (fit_isotonic percent points) 20)
    ≡ false
fit_isotonic-AtMost_example = fit_isotonic-AtMost percent percent-IsLinear points 20 60 refl
