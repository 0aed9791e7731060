-- ===== src/Job/Dispatch.antt =====
-- `Dispatcher` of internal/job/dispatcher.go: one job, from its dequeue to its terminal state.
pub mod Terminal
use waterfall.Prelude.{String, Option, none, some}
use waterfall.Domain.Errors.{GoError, other, Result, ok, err}
use waterfall.Domain.Requests.{EnrichmentRequest}
use waterfall.Tenant.{Context, background}
use waterfall.Provider.Env.{Env}
use waterfall.Engine.Types.{Outcome}
use waterfall.Job.Types.{Job, JobStore, running, succeeded, failed, context_for}

-- How a `RunFunc` ends.
pub data Ran (C : Type 0) : Type 0 where
  returned : Result (Outcome C) → Ran C
  panics : Ran C

-- `panicError`.
abbrev pub panic_error : GoError
panic_error = other "job runner panicked"

-- `recover` in `safeRun`.
unfoldable pub safe_run : {C : Type 0} → Ran C → Ran C
safe_run (returned out) = returned out
safe_run panics = returned (err panic_error)

-- `error_text` is the method `Error`.
pub record Worker (C W : Type 0) : Type 0 where
  pub run : Context → EnrichmentRequest C → W → Ran C × W
  pub error_text : GoError → String
  pub on_complete : Option (Context → Job C → W → W)

module _ {C St W : Type 0} (env : Env W) (api : JobStore C St) (d : Worker C W) where
  -- The job with the result of its run.
  unfoldable pub ended : Job C → Result (Outcome C) → Job C
  ended j (err e) = record j { status = failed; err_text = d.error_text e }
  ended j (ok out) = record j { status = succeeded; outcome = some out }

  hook : Option (Context → Job C → W → W) → Context → Job C → W → W
  hook none ctx j w = w
  hook (some f) ctx j w = f ctx j w

  -- `Run` after `safeRun`; a panic that reached it would end the worker there.
  unfoldable pub finish_run : Context → Job C → Ran C → St → W → Job C × St × W
  unfolding ended hook
  finish_run ctx j panics st w = (j, st, w)
  finish_run ctx j (returned out) st w =
      let (t, w1) = env.now w in
      let j' : Job C = record (ended j out) { updated_at = t } in
      let (r, st1) = api.put_job ctx j' st in (j', st1, hook d.on_complete ctx j' w1)

  -- `Run`: the job as it is left, the store and the world. The errors of `Put` are dropped.
  unfoldable pub run_job : Job C → St → W → Job C × St × W
  unfolding finish_run safe_run
  run_job j st w =
      let ctx = context_for j background in
      let (t, w1) = env.now w in
      let j1 : Job C = record j { status = running; updated_at = t } in
      let (r1, st1) = api.put_job ctx j1 st in
      let (ran, w2) = d.run ctx j1.req w1 in finish_run ctx j1 (safe_run ran) st1 w2
