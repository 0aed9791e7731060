-- ===== src/Durable/Log.antt =====
-- internal/durable/log.go: the framed append-only log with atomic batches, over the bytes of its
-- file. Reads, truncation and seeks of the file succeed; a write may stop short.
pub mod Frames
pub mod Replayed
pub mod Batches
pub mod Recovery
use waterfall.Prelude.{
  ℕ, zero, suc, ◌+◌, ◌-◌, ◌*◌, ◌/◌, ◌%◌, ◌^◌, String, Bool, true, false, Option, none, some, List,
  [], ◌∷◌, ◌++◌, ◌==◌, eqb, leb, ltb, length, take, drop, if◌then◌else◌,
}

-- `Record`; `payload` is the raw JSON of `Data`.
pub record LogRecord : Type 0 where
  pub seq : ℕ
  pub kind : String
  pub payload : List ℕ

-- `commitKind`.
abbrev pub commit_kind : String
commit_kind = "__commit__"

-- `json.Marshal` and `json.Unmarshal` at `Record`, and `crc32.ChecksumIEEE`.
pub record Codec : Type 0 where
  pub marshal : LogRecord → Option (List ℕ)
  pub unmarshal : List ℕ → Option LogRecord
  pub crc32 : List ℕ → ℕ

-- `binary.BigEndian.PutUint32` and `Uint32`.
unfoldable pub put_uint32 : ℕ → List ℕ
put_uint32 n = n / 2 ^ 24 % 256 ∷ n / 2 ^ 16 % 256 ∷ n / 2 ^ 8 % 256 ∷ n % 256 ∷ []

unfoldable pub uint32 : ℕ → ℕ → ℕ → ℕ → ℕ
uint32 a b c d = a * 2 ^ 24 + b * 2 ^ 16 + c * 2 ^ 8 + d

-- What replay has reached: what `fn` was called for, the batch that waits for its commit, the
-- offsets, and the next sequence number.
pub record Replay (S : Type 0) : Type 0 where
  pub applied : S
  pub batch : List LogRecord
  pub committed_offset : ℕ
  pub position : ℕ
  pub max_seq : ℕ

-- The open log: the bytes of its file and the fields of `Log`.
pub record Log : Type 0 where
  pub file : List ℕ
  pub offset : ℕ
  pub next_seq : ℕ

-- How far a write gets: to the end, with a sync, or to a byte where it fails.
pub data Disk : Type 0 where
  synced : Disk
  cut : ℕ → Disk

-- A record under its number, and the commit record of a batch.
abbrev pub numbered : LogRecord → ℕ → LogRecord
numbered r seq = record r { seq = seq }

abbrev pub commit_marker : ℕ → LogRecord
commit_marker seq = record { seq = seq; kind = commit_kind; payload = [] }

-- `WriteAt`.
abbrev pub write_at : List ℕ → ℕ → List ℕ → List ℕ
write_at file at bytes = take at file ++ (bytes ++ drop (at + length bytes) file)

module _ (codec : Codec) where
  open codec use {marshal, unmarshal, crc32}

  framed : Option (List ℕ) → Option (List ℕ)
  framed none = none
  framed (some p) =
      if ltb (2 ^ 32 - 1) (length p)
      then none
      else some (put_uint32 (length p) ++ (put_uint32 (crc32 p) ++ p))

  -- `encodeFrame`; an error is `none`.
  unfoldable pub encode_frame : LogRecord → Option (List ℕ)
  unfolding framed
  encode_frame r = framed (marshal r)

  counted : ℕ → List ℕ → Option LogRecord → Option (LogRecord × ℕ × List ℕ)
  counted n rest none = none
  counted n rest (some r) = some (r, 8 + n, rest)

  -- `readFrame`: the record, the bytes consumed, and what is left; an error is `none`.
  unfoldable pub read_frame : List ℕ → Option (LogRecord × ℕ × List ℕ)
  unfolding counted
  read_frame (a ∷ b ∷ c ∷ d ∷ e ∷ f ∷ g ∷ h ∷ rest) =
      let n = uint32 a b c d in
      if ltb (length rest) n
      then none
      else if eqb (crc32 (take n rest)) (uint32 e f g h)
      then counted n (drop n rest) (unmarshal (take n rest))
      else none
  read_frame _ = none

  module _ {S : Type 0} (fn : S → LogRecord → Option S) where
    -- The calls of `fn` for a batch; `none` is an error of `fn`.
    unfoldable pub apply_batch : S → List LogRecord → Option S
    apply_batch s [] = some s
    apply_batch s (r ∷ rs) = elim (fn s r) [ none ↦ none | some s' ↦ apply_batch s' rs ]

    committed : Replay S → Option S → Option (Replay S)
    committed st none = none
    committed st (some s) =
        some (record st { applied = s; batch = []; committed_offset = st.position })

    -- The body of the loop of `replay` for a frame that was read.
    unfoldable pub take_record : LogRecord → ℕ → Replay S → Option (Replay S)
    unfolding apply_batch committed
    take_record r n st =
        let st' = record st {
          position = st.position + n;
          max_seq = if leb st.max_seq r.seq then (r.seq + 1) % 2 ^ 64 else st.max_seq;
        } in
        if r.kind == commit_kind
        then committed st' (apply_batch st'.applied st'.batch)
        else some (record st' { batch = st'.batch ++ r ∷ [] })

    -- The loop of `replay`, with a bound on the frames. A frame is eight bytes or more.
    unfoldable pub replay_loop : ℕ → List ℕ → Replay S → Option (Replay S)
    replay_loop zero bytes st = some st
    replay_loop (suc fuel) bytes st = elim (read_frame bytes) [
      | none ↦ some st
      | some (r, n, rest) ↦ elim (take_record r n st) [
        | none ↦ none
        | some st' ↦ replay_loop fuel rest st'
      ]
    ]

    abbrev pub replay_start : S → Replay S
    replay_start s = record {
      applied = s;
      batch = [];
      committed_offset = 0;
      position = 0;
      max_seq = 0;
    }

    reopened : List ℕ → Option (Replay S) → Option (S × Log)
    reopened file none = none
    reopened file (some st) = some (
      st.applied,
      record {
        file = take st.committed_offset file;
        offset = st.committed_offset;
        next_seq = st.max_seq;
      },
    )

    -- `Open`: replay, and the truncation of what is not committed.
    unfoldable pub open_log : S → List ℕ → Option (S × Log)
    unfolding reopened replay_loop
    open_log s file = reopened file (replay_loop (suc (length file)) file (replay_start s))

  -- The frames of a batch and its commit marker, numbered from `seq`, and the next number; an
  -- error is `none`, with the number that the records before it have used up.
  abbrev pub joined :
      Option (List ℕ) → Option (List ℕ) × ℕ → Option (List ℕ) × ℕ → Option (List ℕ) × ℕ
  joined none failed later = failed
  joined (some frame) failed later = elim later.0 [
    | none ↦ (none, later.1)
    | some bytes ↦ (some (frame ++ bytes), later.1)
  ]

  unfoldable pub encode_batch : List LogRecord → ℕ → Option (List ℕ) × ℕ
  encode_batch [] seq = elim (encode_frame (commit_marker seq)) [
    | none ↦ (none, seq)
    | some frame ↦ (some frame, (seq + 1) % 2 ^ 64)
  ]
  encode_batch (r ∷ rs) seq =
      let later = encode_batch rs ((seq + 1) % 2 ^ 64) in
      joined (encode_frame (numbered r seq)) (none, (seq + 1) % 2 ^ 64) later

  write_batch : Disk → Log → Option (List ℕ) × ℕ → Bool × Log
  write_batch disk l (none, next) = (false, record l { next_seq = next })
  write_batch synced l (some bytes, next) = (
    true,
    record l {
      file = write_at l.file l.offset bytes;
      offset = l.offset + length bytes;
      next_seq = next;
    },
  )
  write_batch (cut k) l (some bytes, next) =
      (false, record l { file = write_at l.file l.offset (take k bytes); next_seq = next })

  -- `Append`; `true` is a nil error.
  unfoldable pub append_records : Disk → List LogRecord → Log → Bool × Log
  unfolding write_batch encode_batch
  append_records disk [] l = (true, l)
  append_records disk (r ∷ rs) l = write_batch disk l (encode_batch (r ∷ rs) l.next_seq)
