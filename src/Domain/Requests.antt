-- ===== src/Domain/Requests.antt =====
-- internal/domain/request.go: requests, and the idempotency key of a provider call (gate G2).
pub mod Keys
use waterfall.Prelude.{
  ℕ, zero, suc, ◌/◌, ◌%◌, String, Bool, List, [], ◌∷◌, ◌++◌, Dict, get, or_else, length,
  if◌then◌else◌,
}
use waterfall.Domain.Fields.{Field, Credits}

pub record Subject : Type 0 where
  pub id : String
  pub known : Dict String

pub record EnrichmentRequest (C : Type 0) : Type 0 where
  pub job_id : String
  pub subject : Subject
  pub want : List Field
  pub confidence_target : C
  pub cost_ceiling : Credits
  pub config_version : String
  pub workflow_key : String
  pub country : String

-- What the code uses of Go's strings and of the hash: the bytes of a string, the order that
-- `sort.Strings` sorts by, the two functions of package `strings`, and the hexadecimal SHA-256.
pub record Strings : Type 0 where
  pub bytes : String → List ℕ
  pub less : String → String → Bool
  pub to_lower : String → String
  pub trim_space : String → String
  pub sha256_hex : List ℕ → String

-- `n` bytes of a number, the lowest first; each is cut to eight bits.
unfoldable pub little_endian : ℕ → ℕ → List ℕ
little_endian zero n = []
little_endian (suc k) n = n % 256 ∷ little_endian k (n / 256)

-- `writeLenPrefixed`: eight bytes of length, then the bytes.
unfoldable pub write_len_prefixed : List ℕ → List ℕ
unfolding little_endian
write_len_prefixed s = little_endian 8 (length s) ++ s

-- What the hash is fed with, part by part.
unfoldable pub write_parts : List (List ℕ) → List ℕ
unfolding write_len_prefixed
write_parts [] = []
write_parts (part ∷ parts) = write_len_prefixed part ++ write_parts parts

unfoldable pub keys : {V : Type 0} → Dict V → List String
keys [] = []
keys ((k, v) ∷ m) = k ∷ keys m

module _ (s : Strings) where
  insert_key : String → List String → List String
  insert_key k [] = k ∷ []
  insert_key k (j ∷ js) = if s.less j k then j ∷ insert_key k js else k ∷ j ∷ js

  -- `sort.Strings`, by insertion.
  unfoldable pub sort_keys : List String → List String
  unfolding insert_key
  sort_keys [] = []
  sort_keys (k ∷ ks) = insert_key k (sort_keys ks)

  -- One line of `normalizeParams`: key, '=', value, the unit separator.
  normal_line : Dict String → String → List ℕ
  normal_line known k =
      s.bytes k ++ b'=' ∷ s.bytes (s.to_lower (s.trim_space (or_else "" (get known k)))) ++ 31 ∷ []

  normal_lines : Dict String → List String → List ℕ
  unfolding normal_line
  normal_lines known [] = []
  normal_lines known (k ∷ ks) = normal_line known k ++ normal_lines known ks

  -- `normalizeParams`, as bytes.
  unfoldable pub normalize_params : Dict String → List ℕ
  unfolding normal_lines sort_keys keys
  normalize_params known = normal_lines known (sort_keys (keys known))

  module _ {C : Type 0} (r : EnrichmentRequest C) where
    -- The six parts that the key is made of.
    unfoldable pub key_parts : String → Field → String → List (List ℕ)
    unfolding normalize_params
    key_parts tenant field provider =
        s.bytes tenant
        ∷ s.bytes r.subject.id
        ∷ s.bytes field
        ∷ s.bytes provider
        ∷ normalize_params r.subject.known
        ∷ s.bytes r.config_version
        ∷ []

    -- `IdempotencyKey`.
    unfoldable pub idempotency_key : String → Field → String → String
    unfolding key_parts write_parts
    idempotency_key tenant field provider =
        s.sha256_hex (write_parts (key_parts tenant field provider))
