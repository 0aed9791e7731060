-- ===== src/Durable/Log/Replayed.antt =====
-- The replay of internal/durable/log.go, over records in place of bytes.
use waterfall.Prelude.{
  ℕ, zero, suc, ◌+◌, ◌-◌, ◌<◌, ◌≤◌, arith, ◌≡◌, refl, ap, sym, ◌∙◌, Option, none, some, List, [],
  ◌∷◌, ◌++◌, length, take, ltb, inl, inr, Option-cases, Bool-cases, All, length-append,
}
use mathlib.Core.List.{append_assoc}
use waterfall.Durable.Log.{Codec, LogRecord, Replay, read_frame, replay_loop, take_record}
use waterfall.Durable.Log.Frames.{
  payload_of, frame_of, frames, IsJson, read_frame-frame_of, read_frame-torn, take-append,
  take-append_past, length-frame_of,
}

module _ (codec : Codec) {S : Type 0} (fn : S → LogRecord → Option S) where
  -- The replay of records that were all read.
  unfoldable pub replayed : List LogRecord → Replay S → Option (Replay S)
  replayed [] st = some st
  replayed (r ∷ rs) st = elim (take_record codec fn r (8 + length (payload_of codec r)) st) [
    | none ↦ none
    | some st' ↦ replayed rs st'
  ]

  loop_end :
      (fuel : ℕ) (tail : List ℕ) (st : Replay S)
      → read_frame codec tail ≡ none
      → replay_loop codec fn fuel tail st ≡ some st
  unfolding replay_loop
  loop_end zero tail st h = refl
  loop_end (suc fuel) tail st h = rw (h, replay_loop) refl

  module _ (fuel n : ℕ) (bytes rest : List ℕ) (r : LogRecord) (st : Replay S)
      (read : read_frame codec bytes ≡ some (r, n, rest)) where
    loop_stops :
        take_record codec fn r n st ≡ none → replay_loop codec fn (suc fuel) bytes st ≡ none
    unfolding replay_loop
    loop_stops q = rw (read, replay_loop) (rw q refl)

    loop_next :
        (st' : Replay S)
        → take_record codec fn r n st ≡ some st'
        → replay_loop codec fn (suc fuel) bytes st ≡ replay_loop codec fn fuel rest st'
    unfolding replay_loop
    loop_next st' q = rw (read, replay_loop) (rw q refl)

  -- Whole frames, and then bytes that are no frame: the bytes replay as the records do.
  pub replay_loop-frames :
      (rs : List LogRecord) (tail : List ℕ) (fuel : ℕ) (st : Replay S)
      → All (IsJson codec) rs
      → read_frame codec tail ≡ none
      → length rs ≤ fuel
      → replay_loop codec fn fuel (frames codec rs ++ tail) st ≡ replayed rs st
  unfolding replay_loop replayed
  replay_loop-frames [] tail fuel st h end enough = loop_end fuel tail st end
  replay_loop-frames (r ∷ rs) tail zero st h end enough = absurd (omega arith)
  replay_loop-frames (r ∷ rs) tail (suc fuel) st (now, h) end enough =
      let f = frame_of codec (payload_of codec r) in
      let rest = frames codec rs ++ tail in
      let n = 8 + length (payload_of codec r) in
      let read = read_frame-frame_of codec r rest now in
      let same =
        ap (λ bytes. replay_loop codec fn (suc fuel) bytes st)
          (append_assoc f (frames codec rs) tail) in
      elim (Option-cases (take_record codec fn r n st)) [
        | inl q ↦ same ∙ loop_stops fuel n (f ++ rest) rest r st read q ∙ rw (q, replayed) refl
        | inr (st', q) ↦
            same
            ∙ loop_next fuel n (f ++ rest) rest r st read st' q
            ∙ replay_loop-frames rs tail fuel st' h end (omega arith)
            ∙ rw (q, replayed) refl
      ]

  -- A prefix of the bytes of frames: the frames of some first records, and bytes that are no frame.
  pub record Torn (k : ℕ) (rs : List LogRecord) : Type 0 where
    pub whole : ℕ
    pub tail : List ℕ
    pub fewer : whole < length rs
    pub splits : take k (frames codec rs) ≡ frames codec (take whole rs) ++ tail
    pub ends : read_frame codec tail ≡ none

  later_tail :
      (k : ℕ) (r : LogRecord) (rs : List LogRecord)
      → length (frame_of codec (payload_of codec r)) ≤ k
      → Torn (k - length (frame_of codec (payload_of codec r))) rs
      → Torn k (r ∷ rs)
  later_tail k r rs past rest =
      let f = frame_of codec (payload_of codec r) in
      record {
        whole = suc rest.whole;
        tail = rest.tail;
        fewer = omega (arith, rest.fewer);
        splits =
            take-append_past k f (frames codec rs) past
            ∙ ap (λ xs. f ++ xs) rest.splits
            ∙ sym (append_assoc f (frames codec (take rest.whole rs)) rest.tail);
        ends = rest.ends;
      }

  -- Bytes that are cut short of the end replay to the records of the whole frames among them.
  pub torn :
      (k : ℕ) (rs : List LogRecord)
      → All (IsJson codec) rs
      → k < length (frames codec rs)
      → Torn k rs
  torn k [] h few = absurd (omega arith)
  torn k (r ∷ rs) (now, h) few =
      let p = payload_of codec r in
      let f = frame_of codec p in
      let size = length-frame_of codec p in
      let all = length-append f (frames codec rs) in
      elim (Bool-cases (ltb k (length f))) [
        | inl q ↦
            let within : k < length f = ground arith in
            record {
              whole = 0;
              tail = take k f;
              fewer = omega arith;
              splits = take-append k f (frames codec rs) (omega (arith, within));
              ends = read_frame-torn codec p k now.fits (omega (arith, within, size));
            }
        | inr q ↦
            let past : length f ≤ k = ground arith in
            later_tail k r rs past (torn (k - length f) rs h (omega (arith, past, all, few)))
      ]
