-- ===== src/Examples/Logs.antt =====
-- The theorems on internal/durable/log.go, applied, with a codec of a few bytes for JSON.
use waterfall.Prelude.{
  ℕ, ◌<◌, ◌==◌, ◌++◌, arith, refl, ◌≡◌, true, Option, none, some, List, [], ◌∷◌, eqb, All, length,
  if◌then◌else◌,
}
use waterfall.Durable.Log.{
  Codec, LogRecord, Log, commit_kind, synced, cut, append_records, apply_batch, replay_start,
  put_uint32,
}
use waterfall.Durable.Log.Frames.{IsJson, frames}
use waterfall.Durable.Log.Replayed.{replayed}
use waterfall.Durable.Log.Batches.{batch_of, handed}
use waterfall.Durable.Log.Recovery.{
  IsClean, Reopens, open_log-Reopens, append-Reopens, append-IsClean,
}

written : LogRecord → Option (List ℕ)
written r = some (r.seq ∷ (if r.kind == commit_kind then 1 else 0) ∷ r.payload)

read_back : List ℕ → Option LogRecord
read_back (seq ∷ c ∷ payload) =
    some (record { seq = seq; kind = if eqb c 1 then commit_kind else "job"; payload = payload })
read_back _ = none

abbrev short_codec : Codec
short_codec = record { marshal = written; unmarshal = read_back; crc32 = λ b. length b }

abbrev collect : List ℕ → LogRecord → Option (List ℕ)
collect s r = some (s ++ r.payload)

abbrev nine_record : LogRecord
nine_record = record { seq = 0; kind = "job"; payload = 9 ∷ [] }

abbrev empty_log : Log
empty_log = record { file = []; offset = 0; next_seq = 0 }

empty_log-IsClean : IsClean short_codec collect [] [] empty_log
unfolding replayed
empty_log-IsClean = record {
  records = [];
  json = tt;
  file = refl;
  offset = refl;
  state = replay_start short_codec collect [];
  replays = refl;
  settled = record { applied = refl; batch = refl; committed_offset = refl; reached = refl };
}

nine_record-IsJson : IsJson short_codec nine_record
unfolding written read_back
nine_record-IsJson = record {
  writes = refl;
  fits = omega arith;
  sum_fits = omega arith;
  reads_back = refl;
}

batch-IsJson : All (IsJson short_codec) (batch_of (nine_record ∷ []) 0)
unfolding written read_back
batch-IsJson = (
  nine_record-IsJson,
  (record { writes = refl; fits = omega arith; sum_fits = omega arith; reads_back = refl }, tt),
)

partly : 13 < length (frames short_codec (batch_of (nine_record ∷ []) 0))
unfolding written put_uint32
partly = omega arith

append-Reopens_example :
    Reopens short_codec collect []
      (append_records short_codec (cut 13) (nine_record ∷ []) empty_log).1.file
      []
      []
append-Reopens_example =
    append-Reopens short_codec collect [] [] empty_log empty_log-IsClean nine_record [] batch-IsJson
      13 (refl, tt) partly

collected : apply_batch short_codec collect [] (handed (nine_record ∷ []) 0) ≡ some (9 ∷ [])
unfolding apply_batch collect
collected = refl

append-IsClean_example :
    ((append_records short_codec synced (nine_record ∷ []) empty_log).0 ≡ true)
    × IsClean short_codec collect []
        (9 ∷ [])
        (append_records short_codec synced (nine_record ∷ []) empty_log).1
append-IsClean_example =
    append-IsClean short_codec collect [] [] empty_log empty_log-IsClean nine_record [] batch-IsJson
      (9 ∷ []) (refl, tt) collected

one_job-IsClean :
    IsClean short_codec collect []
      (9 ∷ [])
      (append_records short_codec synced (nine_record ∷ []) empty_log).1
one_job-IsClean =
    (append-IsClean short_codec collect [] [] empty_log empty_log-IsClean nine_record []
      batch-IsJson (9 ∷ []) (refl, tt) collected).1

open_log-Reopens_example :
    Reopens short_codec collect []
      (append_records short_codec synced (nine_record ∷ []) empty_log).1.file
      (append_records short_codec synced (nine_record ∷ []) empty_log).1.file
      (9 ∷ [])
open_log-Reopens_example =
    open_log-Reopens short_codec collect [] (9 ∷ [])
      (append_records short_codec synced (nine_record ∷ []) empty_log).1 one_job-IsClean
