-- ===== src/Durable/Log/Batches.antt =====
-- The batches of internal/durable/log.go: their frames as `Append` encodes them, and their replay,
-- whole or without the commit marker.
use waterfall.Prelude.{
  ℕ, zero, suc, ◌+◌, ◌%◌, ◌^◌, ◌≤◌, arith, ◌≡◌, refl, ap, sym, ◌∙◌, false, Option, none, some, List,
  [], ◌∷◌, ◌++◌, length, take, inl, inr, Option-cases, All, length-append, ◌==◌, leb, if◌then◌else◌,
}
use mathlib.Core.List.{append_assoc, append-nil}
use waterfall.Durable.Log.{
  Codec, LogRecord, Replay, take_record, commit_kind, apply_batch, encode_batch, encode_frame,
  numbered, commit_marker,
}
use waterfall.Durable.Log.Frames.{
  payload_of, frame_of, frames, IsJson, encode_frame-IsJson, length-frame_of,
}
use waterfall.Durable.Log.Replayed.{replayed}

-- The records of a batch as `Append` numbers them, and its commit marker.
abbrev pub batch_of : List LogRecord → ℕ → List LogRecord
batch_of [] seq = commit_marker seq ∷ []
batch_of (r ∷ rs) seq = numbered r seq ∷ batch_of rs ((seq + 1) % 2 ^ 64)

-- The records of a batch as replay hands them to `fn`.
abbrev pub handed : List LogRecord → ℕ → List LogRecord
handed [] seq = []
handed (r ∷ rs) seq = numbered r seq ∷ handed rs ((seq + 1) % 2 ^ 64)

abbrev pub IsPlain : LogRecord → Type 0
IsPlain r = r.kind == commit_kind ≡ false

abbrev pub next_of : List LogRecord → ℕ → ℕ
next_of [] seq = (seq + 1) % 2 ^ 64
next_of (r ∷ rs) seq = next_of rs ((seq + 1) % 2 ^ 64)

module _ (codec : Codec) where
  encode_batch-commit :
      (seq : ℕ) (fr : List ℕ)
      → encode_frame codec (commit_marker seq) ≡ some fr
      → encode_batch codec [] seq ≡ (some fr, (seq + 1) % 2 ^ 64)
  unfolding encode_batch
  encode_batch-commit seq fr e = rw (e, encode_batch) refl

  encode_batch-cons :
      (r : LogRecord) (rs : List LogRecord) (seq next : ℕ) (fr bytes : List ℕ)
      → encode_frame codec (numbered r seq) ≡ some fr
      → encode_batch codec rs ((seq + 1) % 2 ^ 64) ≡ (some bytes, next)
      → encode_batch codec (r ∷ rs) seq ≡ (some (fr ++ bytes), next)
  unfolding encode_batch
  encode_batch-cons r rs seq next fr bytes e f = rw (e, f, encode_batch) refl

  pub encode_batch-frames :
      (rs : List LogRecord) (seq : ℕ)
      → All (IsJson codec) (batch_of rs seq)
      → encode_batch codec rs seq ≡ (some (frames codec (batch_of rs seq)), next_of rs seq)
  encode_batch-frames [] seq (h, _) =
      encode_batch-commit seq _ (encode_frame-IsJson codec (commit_marker seq) h)
      ∙ ap (λ (b : List ℕ). (some b, (seq + 1) % 2 ^ 64)) (sym (append-nil _))
  encode_batch-frames (r ∷ rs) seq (h, hs) =
      encode_batch-cons r rs seq (next_of rs ((seq + 1) % 2 ^ 64)) _ _
        (encode_frame-IsJson codec (numbered r seq) h)
        (encode_batch-frames rs ((seq + 1) % 2 ^ 64) hs)

  pub frames-append :
      (xs ys : List LogRecord) → frames codec (xs ++ ys) ≡ frames codec xs ++ frames codec ys
  frames-append [] ys = refl
  frames-append (x ∷ xs) ys =
      ap (λ zs. frame_of codec (payload_of codec x) ++ zs) (frames-append xs ys)
      ∙ sym (append_assoc (frame_of codec (payload_of codec x)) (frames codec xs) (frames codec ys))

  pub length-frames : (rs : List LogRecord) → length rs ≤ length (frames codec rs)
  length-frames [] = omega arith
  length-frames (r ∷ rs) =
      let f = frame_of codec (payload_of codec r) in
      omega (
        arith,
        length-append f (frames codec rs),
        length-frame_of codec (payload_of codec r),
        length-frames rs,
      )

  module _ {S : Type 0} (fn : S → LogRecord → Option S) where
    replayed-cons :
        (x : LogRecord) (xs : List LogRecord) (st st' : Replay S)
        → take_record codec fn x (8 + length (payload_of codec x)) st ≡ some st'
        → replayed codec fn (x ∷ xs) st ≡ replayed codec fn xs st'
    unfolding replayed
    replayed-cons x xs st st' h = rw (h, replayed) refl

    replayed_stop :
        (x : LogRecord) (xs : List LogRecord) (st : Replay S)
        → take_record codec fn x (8 + length (payload_of codec x)) st ≡ none
        → replayed codec fn (x ∷ xs) st ≡ none
    unfolding replayed
    replayed_stop x xs st h = rw (h, replayed) refl

    unfoldable pub onward : List LogRecord → Option (Replay S) → Option (Replay S)
    onward ys none = none
    onward ys (some st) = replayed codec fn ys st

    pub replayed-append :
        (xs ys : List LogRecord) (st : Replay S)
        → replayed codec fn (xs ++ ys) st ≡ onward ys (replayed codec fn xs st)
    unfolding replayed onward
    replayed-append [] ys st = refl
    replayed-append (x ∷ xs) ys st =
        elim (Option-cases (take_record codec fn x (8 + length (payload_of codec x)) st)) [
          | inl q ↦ replayed_stop x (xs ++ ys) st q ∙ ap (onward ys) (sym (replayed_stop x xs st q))
          | inr (st', q) ↦
              replayed-cons x (xs ++ ys) st st' q
              ∙ replayed-append xs ys st'
              ∙ ap (onward ys) (sym (replayed-cons x xs st st' q))
        ]

    buffered : LogRecord → Replay S → Replay S
    buffered r st = record st {
      position = st.position + (8 + length (payload_of codec r));
      max_seq = if leb st.max_seq r.seq then (r.seq + 1) % 2 ^ 64 else st.max_seq;
      batch = st.batch ++ r ∷ [];
    }

    take_record-plain :
        (r : LogRecord) (st : Replay S)
        → IsPlain r
        → take_record codec fn r (8 + length (payload_of codec r)) st ≡ some (buffered r st)
    unfolding take_record buffered
    take_record-plain r st h = rw h refl

    -- Some first records of a batch, without its commit marker, change only what replay has buffered.
    pub record Same (a b : Replay S) : Type 0 where
      pub applied : b.applied ≡ a.applied
      pub committed_offset : b.committed_offset ≡ a.committed_offset

    pub replayed-Same :
        (rs : List LogRecord) (seq n : ℕ) (st : Replay S)
        → All IsPlain rs
        → n ≤ length rs
        → (st' : Replay S) × (replayed codec fn (take n (batch_of rs seq)) st ≡ some st')
          × Same st st'
    unfolding replayed buffered
    replayed-Same rs seq zero st h few =
        (st, refl, record { applied = refl; committed_offset = refl })
    replayed-Same [] seq (suc n) st h few = absurd (omega arith)
    replayed-Same (r ∷ rs) seq (suc n) st (h, hs) few =
        let x = numbered r seq in
        let st' = buffered x st in
        let (out, q, same) = replayed-Same rs ((seq + 1) % 2 ^ 64) n st' hs (omega arith) in
        (
          out,
          replayed-cons x (take n (batch_of rs ((seq + 1) % 2 ^ 64))) st st'
                (take_record-plain x st h)
              ∙ q,
          record { applied = same.applied; committed_offset = same.committed_offset },
        )

    -- Replay stands right after a commit, `position` bytes into the file.
    pub record Settled (a : S) (position : ℕ) (st : Replay S) : Type 0 where
      pub applied : st.applied ≡ a
      pub batch : st.batch ≡ []
      pub committed_offset : st.committed_offset ≡ position
      pub reached : st.position ≡ position

    settled_state : ℕ → S → Replay S → Replay S
    settled_state seq a st =
        let position = st.position + (8 + length (payload_of codec (commit_marker seq))) in
        record {
          applied = a;
          batch = [];
          committed_offset = position;
          position = position;
          max_seq = if leb st.max_seq seq then (seq + 1) % 2 ^ 64 else st.max_seq;
        }

    take_record-commit :
        (seq : ℕ) (st : Replay S) (a : S)
        → apply_batch codec fn st.applied st.batch ≡ some a
        → take_record codec fn
            (commit_marker seq)
            (8 + length (payload_of codec (commit_marker seq)))
            st
          ≡ some (settled_state seq a st)
    unfolding take_record settled_state
    take_record-commit seq st a h = rw h refl

    pub replayed_batch :
        (rs : List LogRecord) (seq : ℕ) (st : Replay S) (a : S)
        → All IsPlain rs
        → apply_batch codec fn st.applied (st.batch ++ handed rs seq) ≡ some a
        → (st' : Replay S) × (replayed codec fn (batch_of rs seq) st ≡ some st')
          × Settled a (st.position + length (frames codec (batch_of rs seq))) st'
    unfolding replayed buffered settled_state
    replayed_batch [] seq st a h e =
        let cm = commit_marker seq in
        let st' = settled_state seq a st in
        let now = ap (apply_batch codec fn st.applied) (sym (append-nil st.batch)) ∙ e in
        let size : 8 + length (payload_of codec cm) ≡ length (frames codec (cm ∷ [])) = sym (
          ap length (append-nil (frame_of codec (payload_of codec cm)))
          ∙ length-frame_of codec (payload_of codec cm)) in
        (
          st',
          replayed-cons cm [] st st' (take_record-commit seq st a now),
          record {
            applied = refl;
            batch = refl;
            committed_offset = omega (arith, size);
            reached = omega (arith, size);
          },
        )
    replayed_batch (r ∷ rs) seq st a (h, hs) e =
        let x = numbered r seq in
        let st' = buffered x st in
        let more = batch_of rs ((seq + 1) % 2 ^ 64) in
        let f = frame_of codec (payload_of codec x) in
        let waiting =
          ap (apply_batch codec fn st.applied)
            (append_assoc st.batch (x ∷ []) (handed rs ((seq + 1) % 2 ^ 64)))
          ∙ e in
        let (out, q, settled) = replayed_batch rs ((seq + 1) % 2 ^ 64) st' a hs waiting in
        let size = length-append f (frames codec more) in
        (
          out,
          replayed-cons x more st st' (take_record-plain x st h) ∙ q,
          record {
            applied = settled.applied;
            batch = settled.batch;
            committed_offset =
                omega (
                  arith,
                  settled.committed_offset,
                  size,
                  length-frame_of codec (payload_of codec x),
                );
            reached =
                omega (arith, settled.reached, size, length-frame_of codec (payload_of codec x));
          },
        )
