-- ===== src/Durable/Log/Recovery.antt =====
-- Recovery of internal/durable/log.go: what `Open` finds after a batch was appended, whole or cut
-- short by a crash.
use waterfall.Prelude.{
  ℕ, zero, suc, ◌+◌, ◌%◌, ◌^◌, ◌<◌, ◌≤◌, arith, ◌≡◌, refl, ap, sym, ◌∙◌, Bool, true, Option, none,
  some, List, [], ◌∷◌, ◌++◌, length, take, drop, All, All-append, length-append,
}
use mathlib.Core.Path.{subst}
use mathlib.Core.List.{append_assoc, append-nil}
use waterfall.Durable.Log.{
  Codec, LogRecord, Replay, Log, synced, cut, read_frame, replay_start, apply_batch, open_log,
  reopened, write_at, append_records, write_batch,
}
use waterfall.Durable.Log.Frames.{frames, IsJson, take_of_append}
use waterfall.Durable.Log.Replayed.{replayed, replay_loop-frames, torn}
use waterfall.Durable.Log.Batches.{
  batch_of, handed, next_of, IsPlain, encode_batch-frames, frames-append, length-frames, onward,
  replayed-append, Same, replayed-Same, Settled, replayed_batch,
}

drop_past : {A : Type 0} (n : ℕ) (xs : List A) → length xs ≤ n → drop n xs ≡ []
drop_past zero [] h = refl
drop_past zero (x ∷ xs) h = absurd (omega arith)
drop_past (suc n) [] h = refl
drop_past (suc n) (x ∷ xs) h = drop_past n xs (omega arith)

take_all : {A : Type 0} (xs : List A) → take (length xs) xs ≡ xs
take_all xs = ap (take (length xs)) (sym (append-nil xs)) ∙ take_of_append xs []

write_at_end : (file bytes : List ℕ) → write_at file (length file) bytes ≡ file ++ bytes
write_at_end file bytes =
    rw (take_all file, drop_past (length file + length bytes) file (omega arith), append-nil) refl

All-take : {A : Type 0} (P : A → Type 0) (n : ℕ) (xs : List A) → All P xs → All P (take n xs)
All-take P zero xs h = tt
All-take P (suc n) [] h = tt
All-take P (suc n) (x ∷ xs) (h, hs) = (h, All-take P n xs hs)

length-batch_of : (rs : List LogRecord) (seq : ℕ) → length (batch_of rs seq) ≡ length rs + 1
length-batch_of [] seq = omega arith
length-batch_of (r ∷ rs) seq = omega (arith, length-batch_of rs ((seq + 1) % 2 ^ 64))

module _ (codec : Codec) {S : Type 0} (fn : S → LogRecord → Option S) (s : S) where
  -- A log whose file holds whole batches, which replay to `a`, and that goes on at their end.
  pub record IsClean (a : S) (l : Log) : Type 0 where
    pub records : List LogRecord
    pub json : All (IsJson codec) records
    pub file : l.file ≡ frames codec records
    pub offset : l.offset ≡ length l.file
    pub state : Replay S
    pub replays : replayed codec fn records (replay_start codec fn s) ≡ some state
    pub settled : Settled codec fn a (length l.file) state

  -- Opening `file` succeeds with what `a` holds, and with a clean log of the bytes `kept`.
  pub record Reopens (file kept : List ℕ) (a : S) : Type 0 where
    pub log : Log
    pub opens : open_log codec fn s file ≡ some (a, log)
    pub keeps : log.file ≡ kept
    pub clean : IsClean a log

  opened :
      (rs : List LogRecord) (tail : List ℕ) (st : Replay S)
      → All (IsJson codec) rs
      → read_frame codec tail ≡ none
      → replayed codec fn rs (replay_start codec fn s) ≡ some st
      → open_log codec fn s (frames codec rs ++ tail)
        ≡ some (
          st.applied,
          record {
            file = take st.committed_offset (frames codec rs ++ tail);
            offset = st.committed_offset;
            next_seq = st.max_seq;
          },
        )
  unfolding open_log reopened
  opened rs tail st h end e =
      let file = frames codec rs ++ tail in
      let enough : length rs ≤ suc (length file) =
        omega (arith, length-frames codec rs, length-append (frames codec rs) tail) in
      ap (reopened codec fn file) (
        replay_loop-frames codec fn rs tail (suc (length file)) (replay_start codec fn s) h end
          enough
        ∙ e)

  -- The bytes of a clean log, and bytes after them that replay only buffers.
  open_after :
      (a : S) (l : Log) (clean : IsClean a l) (more : List LogRecord) (tail : List ℕ)
      (st : Replay S)
      → All (IsJson codec) more
      → read_frame codec tail ≡ none
      → replayed codec fn more clean.state ≡ some st
      → Same codec fn clean.state st
      → Reopens (l.file ++ (frames codec more ++ tail)) l.file a
  unfolding onward
  open_after a l clean more tail st h end e same =
      let rs = clean.records in
      let all = All-append (IsJson codec) rs more clean.json h in
      let run =
        replayed-append codec fn rs more (replay_start codec fn s)
        ∙ ap (onward codec fn more) clean.replays
        ∙ e in
      let bytes : frames codec (rs ++ more) ++ tail ≡ l.file ++ (frames codec more ++ tail) =
        ap (λ xs. xs ++ tail) (frames-append codec rs more)
        ∙ append_assoc (frames codec rs) (frames codec more) tail
        ∙ ap (λ xs. xs ++ (frames codec more ++ tail)) (sym clean.file) in
      let applied = same.applied ∙ clean.settled.applied in
      let at = same.committed_offset ∙ clean.settled.committed_offset in
      let kept = take_of_append l.file (frames codec more ++ tail) in
      record {
        log = record { file = l.file; offset = length l.file; next_seq = st.max_seq };
        opens =
            ap (open_log codec fn s) (sym bytes)
            ∙ opened (rs ++ more) tail st all end run
            ∙ rw (applied, at, bytes, kept) refl;
        keeps = refl;
        clean = record {
          records = rs;
          json = clean.json;
          file = clean.file;
          offset = refl;
          state = clean.state;
          replays = clean.replays;
          settled = clean.settled;
        };
      }

  -- A clean log opens as it is.
  pub open_log-Reopens : (a : S) (l : Log) → IsClean a l → Reopens l.file l.file a
  unfolding read_frame replayed
  open_log-Reopens a l clean =
      subst (λ file. Reopens file l.file a) (append-nil l.file)
        (open_after a l clean [] [] clean.state tt refl refl
          (record { applied = refl; committed_offset = refl }))

  module _ (a : S) (l : Log) (clean : IsClean a l) (r : LogRecord) (rs : List LogRecord)
      (json : All (IsJson codec) (batch_of (r ∷ rs) l.next_seq)) where
    abbrev batch : List LogRecord
    batch = batch_of (r ∷ rs) l.next_seq

    appended_cut :
        (k : ℕ)
        → (append_records codec (cut k) (r ∷ rs) l).1.file
          ≡ write_at l.file l.offset (take k (frames codec batch))
    unfolding append_records write_batch
    appended_cut k = rw (encode_batch-frames codec (r ∷ rs) l.next_seq json) refl

    appended : append_records codec synced (r ∷ rs) l ≡ (
      true,
      record {
        file = write_at l.file l.offset (frames codec batch);
        offset = l.offset + length (frames codec batch);
        next_seq = next_of (r ∷ rs) l.next_seq;
      },
    )
    unfolding append_records write_batch
    appended = rw (encode_batch-frames codec (r ∷ rs) l.next_seq json) refl

    at_end : (bytes : List ℕ) → write_at l.file l.offset bytes ≡ l.file ++ bytes
    at_end bytes = ap (λ n. write_at l.file n bytes) clean.offset ∙ write_at_end l.file bytes

    -- A crash while `Append` writes a batch, after any number of its bytes but not all: opening
    -- the file finds what was committed before, nothing of the batch, and a clean log.
    pub append-Reopens :
        (k : ℕ)
        → All IsPlain (r ∷ rs)
        → k < length (frames codec (batch_of (r ∷ rs) l.next_seq))
        → Reopens (append_records codec (cut k) (r ∷ rs) l).1.file l.file a
    append-Reopens k plain few =
        let parts = torn codec fn k batch json few in
        let (st, run, same) =
          replayed-Same codec fn (r ∷ rs) l.next_seq parts.whole clean.state plain
            (omega (arith, parts.fewer, length-batch_of (r ∷ rs) l.next_seq)) in
        let bytes =
          appended_cut k
          ∙ at_end (take k (frames codec batch))
          ∙ ap (λ xs. l.file ++ xs) parts.splits in
        subst (λ file. Reopens file l.file a) (sym bytes)
          (open_after a l clean (take parts.whole batch) parts.tail st
            (All-take (IsJson codec) parts.whole batch json) parts.ends run same)

    abbrev grown : Log
    grown = record {
      file = write_at l.file l.offset (frames codec batch);
      offset = l.offset + length (frames codec batch);
      next_seq = next_of (r ∷ rs) l.next_seq;
    }

    grown-IsClean :
        (b : S)
        → All IsPlain (r ∷ rs)
        → apply_batch codec fn a (handed (r ∷ rs) l.next_seq) ≡ some b
        → IsClean b grown
    unfolding onward
    grown-IsClean b plain applied =
        let old = clean.settled in
        let waiting : apply_batch codec fn clean.state.applied
              (clean.state.batch ++ handed (r ∷ rs) l.next_seq)
            ≡ some b =
          rw (old.applied, old.batch) applied in
        let (st, run, settled) =
          replayed_batch codec fn (r ∷ rs) l.next_seq clean.state b plain waiting in
        let bytes = at_end (frames codec batch) in
        let size = ap length bytes ∙ length-append l.file (frames codec batch) in
        record {
          records = clean.records ++ batch;
          json = All-append (IsJson codec) clean.records batch clean.json json;
          file =
              bytes
              ∙ ap (λ xs. xs ++ frames codec batch) clean.file
              ∙ sym (frames-append codec clean.records batch);
          offset = omega (arith, size, clean.offset);
          state = st;
          replays =
              replayed-append codec fn clean.records batch (replay_start codec fn s)
              ∙ ap (onward codec fn batch) clean.replays
              ∙ run;
          settled = record {
            applied = settled.applied;
            batch = settled.batch;
            committed_offset = omega (arith, settled.committed_offset, size, old.reached);
            reached = omega (arith, settled.reached, size, old.reached);
          };
        }

    -- A batch that `Append` wrote and synced is committed: the log is clean again, and holds what
    -- its records make of what it held before.
    pub append-IsClean :
        (b : S)
        → All IsPlain (r ∷ rs)
        → apply_batch codec fn a (handed (r ∷ rs) l.next_seq) ≡ some b
        → ((append_records codec synced (r ∷ rs) l).0 ≡ true)
          × IsClean b (append_records codec synced (r ∷ rs) l).1
    append-IsClean b plain applied = (
      ap (λ (out : Bool × Log). out.0) appended,
      subst (λ (out : Bool × Log). IsClean b out.1) (sym appended) (grown-IsClean b plain applied),
    )
