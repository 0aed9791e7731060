-- ===== src/Durable/Outbox.antt =====
-- `Store` of internal/durable/store.go: jobs and publish-intents, kept in memory and in the log.
pub mod Recovery
pub mod Pending
use waterfall.Prelude.{
  ℕ, String, Bool, true, false, Option, none, some, List, [], ◌∷◌, ◌++◌, ◌==◌, Dict, get, put,
  remove, if◌then◌else◌,
}
use waterfall.Domain.Errors.{GoError, other, Result, ok, err}
use waterfall.Tenant.{Context, tenant_id}
use waterfall.Job.Types.{Job, queued, is_terminal}
use waterfall.Durable.Log.{Codec, LogRecord, Log, Disk, append_records, open_log}

abbrev pub kind_job : String
kind_job = "job"

abbrev pub kind_outbox_pending : String
kind_outbox_pending = "outbox_pending"

abbrev pub kind_outbox_published : String
kind_outbox_published = "outbox_published"

-- `ErrTenantMismatch`.
abbrev pub tenant_mismatch : GoError
tenant_mismatch = other "durable: job tenant does not match context principal"

-- The two maps of `Store`; the set of ids is a map to `Unit`.
pub record Index (C : Type 0) : Type 0 where
  pub all : Dict (Job C)
  pub pending : Dict (Unit {0})

abbrev pub new_index : {C : Type 0} → Index C
new_index = record { all = []; pending = [] }

pub record Store (C : Type 0) : Type 0 where
  pub log : Log
  pub index : Index C

-- `json.Marshal` and `json.Unmarshal` at a job and at an id. The errors of `Marshal` are dropped
-- by the code, and those of `Unmarshal` at an id; what is left then is the value given here.
pub record JobCodec (C : Type 0) : Type 0 where
  pub write_job : Job C → List ℕ
  pub read_job : List ℕ → Option (Job C)
  pub write_id : String → List ℕ
  pub read_id : List ℕ → String

-- The job as `Submit` stores it.
abbrev pub as_queued : {C : Type 0} → Job C → Job C
as_queued j = record j { status = queued }

-- The index after `Submit` and after `Put`.
unfoldable pub index_submit : {C : Type 0} → Job C → Index C → Index C
index_submit j x = record { all = put x.all j.id j; pending = put x.pending j.id tt }

unfoldable pub index_put : {C : Type 0} → Job C → Index C → Index C
index_put j x = record {
  all = put x.all j.id j;
  pending = if is_terminal j.status then remove x.pending j.id else x.pending;
}

module _ {C : Type 0} (json : JobCodec C) where
  unfoldable pub job_record : Job C → LogRecord
  job_record j = record { seq = 0; kind = kind_job; payload = json.write_job j }

  unfoldable pub outbox_record : String → String → LogRecord
  outbox_record kind id = record { seq = 0; kind = kind; payload = json.write_id id }

  with_job : Index C → Option (Job C) → Option (Index C)
  with_job x none = none
  with_job x (some j) = some (record x { all = put x.all j.id j })

  -- `apply`; an error is `none`. A kind that is not known changes nothing.
  unfoldable pub apply : Index C → LogRecord → Option (Index C)
  unfolding with_job
  apply x r =
      if r.kind == kind_job
      then with_job x (json.read_job r.payload)
      else if r.kind == kind_outbox_pending
      then some (record x { pending = put x.pending (json.read_id r.payload) tt })
      else if r.kind == kind_outbox_published
      then some (record x { pending = remove x.pending (json.read_id r.payload) })
      else some x

  -- The records that `Submit` and `Put` append.
  abbrev pub submit_records : Job C → List LogRecord
  submit_records j = job_record j ∷ outbox_record kind_outbox_pending j.id ∷ []

  abbrev pub put_records : Job C → List LogRecord
  put_records j =
      job_record j
      ∷ (if is_terminal j.status then outbox_record kind_outbox_published j.id ∷ [] else [])

  module _ (codec : Codec) where
    -- After `Append`: an error leaves the maps as they were.
    pub stored : Index C → Bool × Log → Store C → Result (Unit {0}) × Store C
    stored x (true, l) s = (ok tt, record { log = l; index = x })
    stored x (false, l) s = (err (other "append"), record s { log = l })

    pub checked :
        Disk
        → List LogRecord
        → Index C
        → Job C
        → Store C
        → Result String
        → Result (Unit {0}) × Store C
    unfolding stored
    checked disk recs x j s (err e) = (err e, s)
    checked disk recs x j s (ok t) =
        if j.tenant == t
        then stored x (append_records codec disk recs s.log) s
        else (err tenant_mismatch, s)

    -- `Submit`; the `true` that comes with a nil error is left out.
    unfoldable pub submit_job : Disk → Context → Job C → Store C → Result (Unit {0}) × Store C
    unfolding checked
    submit_job disk ctx j s =
        let j' = as_queued j in
        checked disk (submit_records j') (index_submit j' s.index) j' s (tenant_id ctx)

    -- `Put`.
    unfoldable pub put_job_state : Disk → Context → Job C → Store C → Result (Unit {0}) × Store C
    unfolding checked
    put_job_state disk ctx j s =
        checked disk (put_records j) (index_put j s.index) j s (tenant_id ctx)

    pub opened : Option (Index C × Log) → Option (Store C)
    opened none = none
    opened (some (x, l)) = some (record { log = l; index = x })

    -- `OpenStore`; an error is `none`.
    unfoldable pub open_store : List ℕ → Option (Store C)
    unfolding opened apply
    open_store file = opened (open_log codec apply new_index file)

-- A call of one of the two methods that write.
pub data Change (C : Type 0) : Type 0 where
  submitting putting : Job C → Change C

abbrev pub changed_job : {C : Type 0} → Change C → Job C
changed_job (submitting j) = as_queued j
changed_job (putting j) = j

unfoldable pub perform_change :
    {C : Type 0}
    → JobCodec C
    → Codec
    → Disk
    → Context
    → Change C
    → Store C
    → Result (Unit {0}) × Store C
perform_change json codec disk ctx (submitting j) s = submit_job json codec disk ctx j s
perform_change json codec disk ctx (putting j) s = put_job_state json codec disk ctx j s

own_job : {C : Type 0} → String → Option (Job C) → Option (Job C)
own_job t none = none
own_job t (some j) = if j.tenant == t then some j else none

get_for : {C : Type 0} → Result String → String → Index C → Result (Option (Job C))
unfolding own_job
get_for (err e) id x = err e
get_for (ok t) id x = ok (own_job t (get x.all id))

-- `Get`: a job of another tenant is reported as not found.
unfoldable pub get_job_state : {C : Type 0} → Context → String → Store C → Result (Option (Job C))
unfolding get_for
get_job_state ctx id s = get_for (tenant_id ctx) id s.index

known : {C : Type 0} → Option (Job C) → List (Job C)
known none = []
known (some j) = j ∷ []

jobs_of : {C : Type 0} → Dict (Unit {0}) → Dict (Job C) → List (Job C)
unfolding known
jobs_of [] all = []
jobs_of ((id, _) ∷ ids) all = known (get all id) ++ jobs_of ids all

-- `PendingOutbox`.
unfoldable pub pending_outbox : {C : Type 0} → Index C → List (Job C)
unfolding jobs_of
pending_outbox x = jobs_of x.pending x.all
