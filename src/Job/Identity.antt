-- ===== src/Job/Identity.antt =====
-- The identity of a job in internal/job/job.go: `DeriveID` and `Fingerprint`.
use waterfall.Prelude.{ℕ, ◌/◌, ◌%◌, ◌^◌, ℤ, String, List, [], ◌∷◌, ◌++◌, Dict, get, or_else, length}
use waterfall.Domain.Requests.{EnrichmentRequest, Strings, keys, sort_keys}

-- What the two functions use of packages `strconv`, `hex` and `sha256`: the digits of an integer
-- and of a float, as bytes, and the digest cut to its first 16 bytes after the prefix "job_".
pub record Formats (C : Type 0) : Type 0 where
  pub format_int : ℤ → List ℕ
  pub format_float : C → List ℕ
  pub job_digest : List ℕ → String

-- `writePart`: four bytes of length, the lowest first, then the bytes.
unfoldable pub write_part : List ℕ → List ℕ
write_part s =
    length s % 256 ∷ length s / 2 ^ 8 % 256 ∷ length s / 2 ^ 16 % 256 ∷ length s / 2 ^ 24 % 256 ∷ s

module _ {C : Type 0} (s : Strings) (f : Formats C) where
  -- `DeriveID`.
  unfoldable pub derive_id : String → String → String
  derive_id tenant idempotency_key = f.job_digest (s.bytes tenant ++ (31 ∷ s.bytes idempotency_key))

  write_fields : List String → List ℕ
  write_fields [] = []
  write_fields (w ∷ ws) = write_part (s.bytes w) ++ write_fields ws

  write_known : Dict String → List String → List ℕ
  write_known known [] = []
  write_known known (k ∷ ks) =
      write_part (s.bytes k ++ (b'=' ∷ s.bytes (or_else "" (get known k)))) ++ write_known known ks

  -- `Fingerprint`.
  unfoldable pub fingerprint_of : EnrichmentRequest C → String
  unfolding write_fields write_known write_part
  fingerprint_of r = s.sha256_hex (
      write_part (s.bytes r.subject.id)
      ++ (write_fields r.want
          ++ (write_part (s.bytes r.config_version)
              ++ (write_part (f.format_int r.cost_ceiling)
                  ++ (write_part (f.format_float r.confidence_target)
                      ++ write_known r.subject.known (sort_keys s (keys r.subject.known)))))))
