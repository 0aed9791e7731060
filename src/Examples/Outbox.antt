-- ===== src/Examples/Outbox.antt =====
-- The theorems on internal/durable/store.go and internal/durable/relay.go, applied, with a codec of
-- a few bytes for JSON and a codec of jobs that keeps the status.
use waterfall.Prelude.{
  ℕ, ◌<◌, ◌==◌, ◌+◌, arith, refl, ◌≡◌, inl, String, Option, none, some, List, [], ◌∷◌, eqb, All,
  length, if◌then◌else◌, get,
}
use waterfall.Domain.Errors.{ok}
use waterfall.Tenant.{tenant_id}
use waterfall.Job.Types.{Job, Status, queued, running, succeeded, failed}
use waterfall.Job.Queue.{depth}
use waterfall.Job.Queue.Lanes.{IsBounded}
use waterfall.Durable.Log.{Codec, LogRecord, commit_kind, synced, cut, put_uint32, replay_start}
use waterfall.Durable.Log.Frames.{IsJson, frames}
use waterfall.Durable.Log.Replayed.{replayed}
use waterfall.Durable.Log.Batches.{batch_of}
use waterfall.Durable.Outbox.{
  kind_job, kind_outbox_pending, kind_outbox_published, JobCodec, Index, Store, new_index, apply,
  as_queued, job_record, outbox_record, submitting, perform_change, pending_outbox,
}
use waterfall.Durable.Outbox.Recovery.{
  IsRecoverable, IsReadable, Finds, records_of, index_after, perform_change-IsRecoverable,
  perform_change-Finds,
}
use waterfall.Durable.Outbox.Pending.{IsLive, perform_change-IsLive}
use waterfall.Durable.Relay.{Relay, drain_once}
use waterfall.Durable.Relay.Queued.{Queues}
use waterfall.Durable.Relay.Drain.{IsHandled, drain_once-IsHandled}
use waterfall.Examples.Data.{as_tenant}
use waterfall.Examples.Jobs.{job}

digit : String → ℕ
digit kind =
    if kind == commit_kind
    then 0
    else if kind == kind_job
    then 1
    else if kind == kind_outbox_pending
    then 2
    else 3

kind_of : ℕ → String
kind_of c =
    if eqb c 0
    then commit_kind
    else if eqb c 1
    then kind_job
    else if eqb c 2
    then kind_outbox_pending
    else kind_outbox_published

written : LogRecord → Option (List ℕ)
written r = some (r.seq ∷ digit r.kind ∷ r.payload)

read_back : List ℕ → Option LogRecord
read_back (seq ∷ c ∷ payload) = some (record { seq = seq; kind = kind_of c; payload = payload })
read_back _ = none

abbrev short_codec : Codec
short_codec = record { marshal = written; unmarshal = read_back; crc32 = λ b. length b }

write_status : Status → ℕ
write_status queued = 0
write_status running = 1
write_status succeeded = 2
write_status failed = 3

read_status : ℕ → Status
read_status n =
    if eqb n 0 then queued else if eqb n 1 then running else if eqb n 2 then succeeded else failed

read_one : List ℕ → Option (Job ℕ)
read_one (n ∷ []) = some (record job { status = read_status n })
read_one _ = none

abbrev job_codec : JobCodec ℕ
job_codec = record {
  write_job = λ j. write_status j.status ∷ [];
  read_job = read_one;
  write_id = λ id. 7 ∷ [];
  read_id = λ b. job.id;
}

abbrev empty_store : Store ℕ
empty_store = record { log = record { file = []; offset = 0; next_seq = 0 }; index = new_index }

empty_store-IsRecoverable : IsRecoverable job_codec short_codec empty_store
unfolding replayed
empty_store-IsRecoverable = record {
  records = [];
  json = tt;
  file = refl;
  offset = refl;
  state = replay_start short_codec (apply job_codec) new_index;
  replays = refl;
  settled = record { applied = refl; batch = refl; committed_offset = refl; reached = refl };
}

job-IsReadable : IsReadable job_codec short_codec (as_queued job)
unfolding read_one write_status read_status
job-IsReadable = record { job = refl; id = refl }

batch-IsJson :
    All (IsJson short_codec) (batch_of (records_of job_codec short_codec (submitting job)) 0)
unfolding written read_back digit kind_of job_record outbox_record write_status
batch-IsJson = (
  record { writes = refl; fits = omega arith; sum_fits = omega arith; reads_back = refl },
  (
    record { writes = refl; fits = omega arith; sum_fits = omega arith; reads_back = refl },
    (record { writes = refl; fits = omega arith; sum_fits = omega arith; reads_back = refl }, tt),
  ),
)

partly :
    13
    < length (frames short_codec (batch_of (records_of job_codec short_codec (submitting job)) 0))
unfolding written put_uint32 digit job_record outbox_record write_status
partly = omega arith

acme : tenant_id (as_tenant "acme") ≡ ok "acme"
unfolding tenant_id
acme = refl

perform_change-IsRecoverable_example :
    let out =
      perform_change job_codec short_codec synced (as_tenant "acme") (submitting job) empty_store in
    (out.0 ≡ ok tt)
    × IsRecoverable job_codec short_codec out.1
    × (out.1.index ≡ index_after job_codec short_codec (submitting job) new_index)
    × Finds job_codec short_codec out.1.log.file
        (index_after job_codec short_codec (submitting job) new_index)
perform_change-IsRecoverable_example =
    perform_change-IsRecoverable job_codec short_codec (as_tenant "acme") empty_store "acme" acme
      empty_store-IsRecoverable (submitting job) refl job-IsReadable batch-IsJson

perform_change-Finds_example :
    Finds job_codec short_codec
      (perform_change job_codec short_codec
        (cut 13)
        (as_tenant "acme")
        (submitting job)
        empty_store).1.log.file
      new_index
perform_change-Finds_example =
    perform_change-Finds job_codec short_codec (as_tenant "acme") empty_store "acme" acme
      empty_store-IsRecoverable (submitting job) 13 refl batch-IsJson partly

nothing-IsLive : IsLive {C = ℕ} new_index
unfolding get
nothing-IsLive = record { at = λ id. inl refl }

perform_change-IsLive_example :
    IsLive
      (perform_change job_codec short_codec
        (cut 13)
        (as_tenant "acme")
        (submitting job)
        empty_store).1.index
perform_change-IsLive_example =
    perform_change-IsLive job_codec short_codec (cut 13) (as_tenant "acme") (submitting job)
      empty_store nothing-IsLive

abbrev waiting_relay : Relay ℕ
waiting_relay = record { queue = record { high = []; low = []; capacity = 1 }; inflight = [] }

abbrev one_pending : Index ℕ
one_pending = record { all = (job.id, job) ∷ []; pending = (job.id, tt) ∷ [] }

drain_once-IsHandled_example :
    let out = drain_once one_pending waiting_relay in
    All (IsHandled (pending_outbox one_pending) waiting_relay out.1) (pending_outbox one_pending)
    × Queues (pending_outbox one_pending) waiting_relay out.1
    × (depth out.1.queue ≡ depth waiting_relay.queue + out.0)
    × IsBounded out.1.queue
drain_once-IsHandled_example =
    drain_once-IsHandled one_pending waiting_relay
      (record { high = omega arith; low = omega arith })
