-- ===== src/Durable/Outbox/Recovery.antt =====
-- Recovery of internal/durable/store.go: the maps in memory are what the log replays to.
use waterfall.Prelude.{
  ℕ, ◌<◌, ◌≡◌, refl, ap, sym, ◌∙◌, String, Bool, true, false, some, List, [], ◌∷◌, ◌==◌, put,
  remove, ◌+◌, ◌%◌, ◌^◌, All, length, Bool-cases, inl, inr, arith,
}
use mathlib.Core.Path.{subst}
use waterfall.Domain.Errors.{Result, ok}
use waterfall.Tenant.{Context, tenant_id}
use waterfall.Job.Types.{Job, is_terminal}
use waterfall.Durable.Log.{
  Codec, LogRecord, numbered, Log, Disk, synced, cut, append_records, apply_batch,
}
use waterfall.Durable.Log.Frames.{IsJson, frames}
use waterfall.Durable.Log.Batches.{batch_of, handed, IsPlain}
use waterfall.Durable.Log.Recovery.{
  IsClean, Reopens, append-IsClean, append-Reopens, open_log-Reopens,
}
use waterfall.Durable.Outbox.{
  stored, JobCodec, Index, Store, new_index, apply, job_record, outbox_record, kind_outbox_pending,
  kind_outbox_published, index_submit, index_put, submit_records, put_records, checked, submit_job,
  put_job_state, open_store, opened, Change, submitting, putting, as_queued, changed_job,
  perform_change,
}

module _ {C : Type 0} (json : JobCodec C) (codec : Codec) where
  -- What the log of the store replays to is what the store holds in memory.
  abbrev pub IsRecoverable : Store C → Type 0
  IsRecoverable s = IsClean codec (apply json) new_index s.index s.log

  -- A job whose JSON, and whose id's JSON, reads back as itself.
  pub record IsReadable (j : Job C) : Type 0 where
    pub job : json.read_job (json.write_job j) ≡ some j
    pub id : json.read_id (json.write_id j.id) ≡ j.id

  abbrev pub records_of : Change C → List LogRecord
  records_of (submitting j) = submit_records json (as_queued j)
  records_of (putting j) = put_records json j

  abbrev pub index_after : Change C → Index C → Index C
  index_after (submitting j) x = index_submit (as_queued j) x
  index_after (putting j) x = index_put j x

  module _ (x x' : Index C) (r : LogRecord) (rs : List LogRecord)
      (h : apply json x r ≡ some x') where
    apply_batch-cons :
        apply_batch codec (apply json) x (r ∷ rs) ≡ apply_batch codec (apply json) x' rs
    unfolding apply_batch
    apply_batch-cons = rw (h, apply_batch) refl

  apply_batch-nil : (x : Index C) → apply_batch codec (apply json) x [] ≡ some x
  unfolding apply_batch
  apply_batch-nil x = refl

  module _ (x : Index C) (j : Job C) (n : ℕ) (h : IsReadable j) where
    apply-job :
        apply json x (numbered (job_record json j) n) ≡ some (record x { all = put x.all j.id j })
    unfolding apply job_record
    apply-job = rw h.job refl

    apply-pending :
        apply json x (numbered (outbox_record json kind_outbox_pending j.id) n)
        ≡ some (record x { pending = put x.pending j.id tt })
    unfolding apply outbox_record
    apply-pending = rw h.id refl

    apply-published :
        apply json x (numbered (outbox_record json kind_outbox_published j.id) n)
        ≡ some (record x { pending = remove x.pending j.id })
    unfolding apply outbox_record
    apply-published = rw h.id refl

  apply_batch-submit :
      (j : Job C) (n : ℕ) (x : Index C)
      → IsReadable j
      → apply_batch codec (apply json) x (handed (submit_records json j) n)
        ≡ some (index_submit j x)
  unfolding index_submit
  apply_batch-submit j n x h =
      let x' : Index C = record x { all = put x.all j.id j } in
      let n' = (n + 1) % 2 ^ 64 in
      apply_batch-cons x x' _ _ (apply-job x j n h)
      ∙ apply_batch-cons x' _ _ [] (apply-pending x' j n' h)
      ∙ apply_batch-nil _

  apply_batch-put :
      (j : Job C) (n : ℕ) (x : Index C)
      → IsReadable j
      → apply_batch codec (apply json) x (handed (put_records json j) n) ≡ some (index_put j x)
  unfolding index_put
  apply_batch-put j n x h =
      let x' : Index C = record x { all = put x.all j.id j } in
      elim (Bool-cases (is_terminal j.status)) [
        | inl e ↦ rw e (
            apply_batch-cons x x' _ _ (apply-job x j n h)
            ∙ apply_batch-cons x' _ _ [] (apply-published x' j ((n + 1) % 2 ^ 64) h)
            ∙ apply_batch-nil _)
        | inr e ↦ rw e (apply_batch-cons x x' _ [] (apply-job x j n h) ∙ apply_batch-nil _)
      ]

  apply_batch-records :
      (c : Change C) (n : ℕ) (x : Index C)
      → IsReadable (changed_job c)
      → apply_batch codec (apply json) x (handed (records_of c) n) ≡ some (index_after c x)
  apply_batch-records (submitting j) n x h = apply_batch-submit (as_queued j) n x h
  apply_batch-records (putting j) n x h = apply_batch-put j n x h

  -- The call, with the tenant that the context names.
  pub perform_change-checked :
      (disk : Disk) (ctx : Context) (c : Change C) (s : Store C)
      → perform_change json codec disk ctx c s
        ≡ checked json codec disk
            (records_of c)
            (index_after c s.index)
            (changed_job c)
            s
            (tenant_id ctx)
  unfolding perform_change submit_job put_job_state
  perform_change-checked disk ctx (submitting j) s = refl
  perform_change-checked disk ctx (putting j) s = refl

  abbrev IsAll : List LogRecord → Log → Type 0
  IsAll rs l = All (IsJson codec) (batch_of rs l.next_seq)

  -- Opening the file finds the index `x`.
  abbrev pub Finds : List ℕ → Index C → Type 0
  Finds file x =
      (re : Store C) × (open_store json codec file ≡ some re) × (re.index ≡ x) × IsRecoverable re

  Reopens-Finds :
      (file kept : List ℕ) (x : Index C)
      → Reopens codec (apply json) new_index file kept x
      → Finds file x
  unfolding open_store opened
  Reopens-Finds file kept x h =
      (record { log = h.log; index = x }, ap (opened json codec) h.opens, refl, h.clean)

  stored-IsRecoverable :
      (x : Index C) (s : Store C) (p : Bool × Log)
      → p.0 ≡ true
      → IsClean codec (apply json) new_index x p.1
      → ((stored json codec x p s).0 ≡ ok tt)
        × IsRecoverable (stored json codec x p s).1
        × ((stored json codec x p s).1.index ≡ x)
  unfolding stored
  stored-IsRecoverable x s (true, l) h c = (refl, c, refl)
  stored-IsRecoverable x s (false, l) h c = ground arith

  stored-log : (x : Index C) (s : Store C) (p : Bool × Log) → (stored json codec x p s).1.log ≡ p.1
  unfolding stored
  stored-log x s (true, l) = refl
  stored-log x s (false, l) = refl

  module _ (r : LogRecord) (rs : List LogRecord) (plain : All IsPlain (r ∷ rs)) (x : Index C)
      (j : Job C) (s : Store C) (t : String) (own : j.tenant == t ≡ true) (clean : IsRecoverable s)
      (all : IsAll (r ∷ rs) s.log) where
    checked_own :
        (disk : Disk)
        → checked json codec disk (r ∷ rs) x j s (ok t)
          ≡ stored json codec x (append_records codec disk (r ∷ rs) s.log) s
    unfolding checked
    checked_own disk = rw own refl

    checked-synced :
        apply_batch codec (apply json) s.index (handed (r ∷ rs) s.log.next_seq) ≡ some x
        → let out = checked json codec synced (r ∷ rs) x j s (ok t) in
          (out.0 ≡ ok tt) × IsRecoverable out.1 × (out.1.index ≡ x)
    checked-synced e =
        let (done, now) =
          append-IsClean codec (apply json) new_index s.index s.log clean r rs all x plain e in
        rw (checked_own synced) (stored-IsRecoverable x s _ done now)

    checked-cut :
        (k : ℕ)
        → k < length (frames codec (batch_of (r ∷ rs) s.log.next_seq))
        → Finds (checked json codec (cut k) (r ∷ rs) x j s (ok t)).1.log.file s.index
    checked-cut k few =
        let re =
          append-Reopens codec (apply json) new_index s.index s.log clean r rs all k plain few in
        subst (λ (l : Log). Finds l.file s.index)
          (sym (
            ap (λ (out : Result (Unit {0}) × Store C). out.1.log) (checked_own (cut k))
            ∙ stored-log x s _))
          (Reopens-Finds _ _ s.index re)

  module _ (j : Job C) where
    submit_records-IsPlain : All IsPlain (submit_records json j)
    unfolding job_record outbox_record
    submit_records-IsPlain = (refl, (refl, tt))

    put_records-IsPlain : All IsPlain (put_records json j)
    unfolding job_record outbox_record
    put_records-IsPlain = elim (Bool-cases (is_terminal j.status)) [
      | inl e ↦ rw e (refl, (refl, tt))
      | inr e ↦ rw e (refl, tt)
    ]

  module _ (ctx : Context) (s : Store C) (t : String) (auth : tenant_id ctx ≡ ok t)
      (clean : IsRecoverable s) where
    synced_change :
        (c : Change C)
        → (changed_job c).tenant == t ≡ true
        → IsReadable (changed_job c)
        → All (IsJson codec) (batch_of (records_of c) s.log.next_seq)
        → let out = perform_change json codec synced ctx c s in
          (out.0 ≡ ok tt) × IsRecoverable out.1 × (out.1.index ≡ index_after c s.index)
    synced_change (submitting j) own readable all =
        rw (perform_change-checked synced ctx (submitting j) s, auth)
          (checked-synced _ _ (submit_records-IsPlain (as_queued j)) _ (as_queued j) s t own clean
            all (apply_batch-records (submitting j) s.log.next_seq s.index readable))
    synced_change (putting j) own readable all =
        rw (perform_change-checked synced ctx (putting j) s, auth)
          (checked-synced _ _ (put_records-IsPlain j) _ j s t own clean all
            (apply_batch-records (putting j) s.log.next_seq s.index readable))

    -- A write that is synced, by the tenant of the job: it succeeds, the store is as the method says
    -- in memory, and opening its file finds the same.
    pub perform_change-IsRecoverable :
        (c : Change C)
        → (changed_job c).tenant == t ≡ true
        → IsReadable (changed_job c)
        → All (IsJson codec) (batch_of (records_of c) s.log.next_seq)
        → let out = perform_change json codec synced ctx c s in
          (out.0 ≡ ok tt)
          × IsRecoverable out.1
          × (out.1.index ≡ index_after c s.index)
          × Finds out.1.log.file (index_after c s.index)
    perform_change-IsRecoverable c own readable all =
        let out = perform_change json codec synced ctx c s in
        let (done, now, same) = synced_change c own readable all in
        let re = open_log-Reopens codec (apply json) new_index out.1.index out.1.log now in
        (done, now, same, subst (Finds out.1.log.file) same (Reopens-Finds _ _ out.1.index re))

    -- A write that a crash cuts short: opening the file finds the store as it was before.
    pub perform_change-Finds :
        (c : Change C) (k : ℕ)
        → (changed_job c).tenant == t ≡ true
        → All (IsJson codec) (batch_of (records_of c) s.log.next_seq)
        → k < length (frames codec (batch_of (records_of c) s.log.next_seq))
        → Finds (perform_change json codec (cut k) ctx c s).1.log.file s.index
    perform_change-Finds (submitting j) k own all few =
        rw (perform_change-checked (cut k) ctx (submitting j) s, auth)
          (checked-cut _ _ (submit_records-IsPlain (as_queued j)) _ (as_queued j) s t own clean all
            k few)
    perform_change-Finds (putting j) k own all few =
        rw (perform_change-checked (cut k) ctx (putting j) s, auth)
          (checked-cut _ _ (put_records-IsPlain j) _ j s t own clean all k few)
