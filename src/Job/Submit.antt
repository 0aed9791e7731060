-- ===== src/Job/Submit.antt =====
-- `QueueSubmitter` of internal/job/submitter.go, over any store.
use waterfall.Prelude.{String, Bool, true, false}
use waterfall.Domain.Errors.{Result, ok, err}
use waterfall.Tenant.{Context}
use waterfall.Provider.Env.{Env}
use waterfall.Job.Types.{Job, JobStore, queued, failed}
use waterfall.Job.Queue.{Queue, submit}

-- What the submitter reads and writes.
pub record Intake (C St W : Type 0) : Type 0 where
  pub store : St
  pub queue : Queue C
  pub world : W

abbrev pub shed_text : String
shed_text = "queue_full: shed under back-pressure"

module _ {C St W : Type 0} (env : Env W) (api : JobStore C St) where
  -- A shed job is stored as failed; the error of that write is dropped.
  shed : Context → Job C → Intake C St W → Result Bool × Intake C St W
  shed ctx j s =
      let (t, w) = env.now s.world in
      let j' : Job C = record j { status = failed; err_text = shed_text; updated_at = t } in
      let (r, st) = api.put_job ctx j' s.store in (ok false, record s { store = st; world = w })

  after_submit : Context → Job C → Intake C St W → Bool × Queue C → Result Bool × Intake C St W
  unfolding shed
  after_submit ctx j s (true, q) = (ok true, record s { queue = q })
  after_submit ctx j s (false, q) = shed ctx j s

  after_put :
      Context → Job C → Queue C → Intake C St W → Result (Unit {0}) → Result Bool × Intake C St W
  unfolding after_submit
  after_put ctx j q s (err e) = (err e, s)
  after_put ctx j q s (ok _) = after_submit ctx j s (submit j q)

  -- `Submit`: the job is stored as queued before it is enqueued.
  unfoldable pub submit_queued : Context → Job C → Intake C St W → Result Bool × Intake C St W
  unfolding after_put
  submit_queued ctx j s =
      let j' : Job C = record j { status = queued } in
      let (r, st) = api.put_job ctx j' s.store in
      after_put ctx j' s.queue (record s { store = st }) r
