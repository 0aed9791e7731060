-- ===== src/Durable/Outbox/Pending.antt =====
-- The publish-intents of internal/durable/store.go, whatever is written and however it ends.
use waterfall.Prelude.{
  ◌≡◌, refl, ◌⊎◌, inl, inr, String, Bool, true, false, Option, none, some, List, ◌==◌, get, get-put,
  get-remove, Bool-cases,
}
use waterfall.Domain.Errors.{Result, ok, err}
use waterfall.Tenant.{Context, tenant_id}
use waterfall.Job.Types.{Job, is_terminal}
use waterfall.Durable.Log.{Codec, Disk, LogRecord, Log, append_records}
use waterfall.Durable.Outbox.{
  JobCodec, Index, Store, Change, submitting, putting, as_queued, changed_job, index_submit,
  index_put, stored, checked, perform_change,
}
use waterfall.Durable.Outbox.Recovery.{records_of, index_after, perform_change-checked}

module _ {C : Type 0} where
  -- An id with an intent is that of a known job, which has not ended.
  abbrev pub LiveAt : Option (Unit {0}) → Option (Job C) → Type 0
  LiveAt p o = (p ≡ none) ⊎ ((j : Job C) × (o ≡ some j) × (is_terminal j.status ≡ false))

  pub record IsLive (x : Index C) : Type 0 where
    pub at : (id : String) → LiveAt (get x.pending id) (get x.all id)

  module _ (j : Job C) (x : Index C) (h : IsLive x) where
    index_submit-IsLive : is_terminal j.status ≡ false → IsLive (index_submit j x)
    unfolding index_submit
    index_submit-IsLive open_ = record {
      at = λ id. elim (Bool-cases (j.id == id)) [
        | inl e ↦
            rw (get-put x.pending j.id tt id, get-put x.all j.id j id, e) (inr (j, refl, open_))
        | inr e ↦ rw (get-put x.pending j.id tt id, get-put x.all j.id j id, e) (h.at id)
      ];
    }

    index_put-IsLive : IsLive (index_put j x)
    unfolding index_put
    index_put-IsLive = elim (Bool-cases (is_terminal j.status)) [
      | inl ends ↦ rw ends (record {
        at = λ id. elim (Bool-cases (j.id == id)) [
          | inl e ↦ rw (get-put x.all j.id j id, get-remove x.pending j.id id, e) (inl refl)
          | inr e ↦ rw (get-put x.all j.id j id, get-remove x.pending j.id id, e) (h.at id)
        ];
      })
      | inr goes_on ↦ rw goes_on (record {
        at = λ id. elim (Bool-cases (j.id == id)) [
          | inl e ↦ rw (get-put x.all j.id j id, e) (inr (j, refl, goes_on))
          | inr e ↦ rw (get-put x.all j.id j id, e) (h.at id)
        ];
      })
    ]

  index_after-IsLive :
      (json : JobCodec C) (codec : Codec) (c : Change C) (x : Index C)
      → IsLive x
      → IsLive (index_after json codec c x)
  unfolding is_terminal
  index_after-IsLive json codec (submitting j) x h = index_submit-IsLive (as_queued j) x h refl
  index_after-IsLive json codec (putting j) x h = index_put-IsLive j x h

  module _ (json : JobCodec C) (codec : Codec) where
    stored-cases :
        (x : Index C) (p : Bool × Log) (s : Store C)
        → ((stored json codec x p s).1.index ≡ s.index) ⊎ ((stored json codec x p s).1.index ≡ x)
    unfolding stored
    stored-cases x (true, l) s = inr refl
    stored-cases x (false, l) s = inl refl

    checked-cases :
        (disk : Disk) (recs : List LogRecord) (x : Index C) (j : Job C) (s : Store C)
        (t : Result String)
        → ((checked json codec disk recs x j s t).1.index ≡ s.index)
          ⊎ ((checked json codec disk recs x j s t).1.index ≡ x)
    unfolding checked
    checked-cases disk recs x j s (err e) = inl refl
    checked-cases disk recs x j s (ok t) = elim (Bool-cases (j.tenant == t)) [
      | inl e ↦ rw e (stored-cases x (append_records codec disk recs s.log) s)
      | inr e ↦ rw e (inl refl)
    ]

    -- Every intent to publish is one for a known job that has not ended; this stays so whatever is
    -- submitted or written, by whatever tenant, and whether the write to the disk succeeds or not.
    pub perform_change-IsLive :
        (disk : Disk) (ctx : Context) (c : Change C) (s : Store C)
        → IsLive s.index
        → IsLive (perform_change json codec disk ctx c s).1.index
    perform_change-IsLive disk ctx c s h =
        rw (perform_change-checked json codec disk ctx c s)
          (elim (checked-cases disk (records_of json codec c) (index_after json codec c s.index)
            (changed_job c) s (tenant_id ctx)) [
              | inl e ↦ rw e h
              | inr e ↦ rw e (index_after-IsLive json codec c s.index h)
            ])
