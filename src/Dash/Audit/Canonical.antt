-- ===== src/Dash/Audit/Canonical.antt =====
-- internal/dash/audit/canonical.go: the bytes of an entry that the chain hashes.
use waterfall.Prelude.{
  ℕ, String, Bool, true, false, Option, none, some, List, [], ◌∷◌, ◌++◌, Dict, get, or_else,
}
use waterfall.Domain.Errors.{Result, ok, err, other}
use waterfall.Domain.Requests.{Strings, keys, sort_keys}

-- A JSON value as `decodeRaw` gives it: its numbers keep their text.
mutual
  pub data Json : Type 0 where
    null : Json
    bool : Bool → Json
    text : String → Json
    number : String → Json
    integer : ℕ → Json
    array : Items → Json
    object : Members → Json

  pub data Items : Type 0 where
    no_items : Items
    item : Json → Items → Items

  pub data Members : Type 0 where
    no_members : Members
    member : String → Json → Members → Members

-- What is used of packages encoding/json, strconv, time, crypto/sha256 and of the jsonb column:
-- `quote` is `json.Marshal` of a string, `jsonb` the text in which a column gives back a value.
pub record Formats : Type 0 where
  pub strings : Strings
  pub quote : String → List ℕ
  pub decode : List ℕ → Option Json
  pub format_int : ℕ → List ℕ
  pub rfc3339 : ℕ → String
  pub sha256 : List ℕ → List ℕ
  pub jsonb : List ℕ → List ℕ

-- `Entry`; `before` and `after` are JSON texts, empty for none.
pub record Entry : Type 0 where
  pub action : String
  pub object_kind : String
  pub object_id : String
  pub actor_user_id : String
  pub actor_role : String
  pub ip : String
  pub before : List ℕ
  pub after : List ℕ

module _ (f : Formats) where
  open f use {strings, quote, decode, format_int, rfc3339}

  -- The members in the order of their keys.
  unfoldable pub joined : Bool → List String → Dict (List ℕ) → List ℕ
  joined comma [] d = []
  joined comma (k ∷ ks) d =
      elim comma [ true ↦ b',' ∷ [] | false ↦ [] ]
      ++ (quote k ++ (b':' ∷ (or_else [] (get d k) ++ joined true ks d)))

  -- `writeCanonical`.
  unfoldable mutual
    pub write_canonical : Json → List ℕ
    write_canonical null = strings.bytes "null"
    write_canonical (bool true) = strings.bytes "true"
    write_canonical (bool false) = strings.bytes "false"
    write_canonical (text s) = quote s
    write_canonical (number s) = strings.bytes s
    write_canonical (integer n) = format_int n
    write_canonical (array items) = b'[' ∷ (write_items false items ++ b']' ∷ [])
    write_canonical (object members) =
        let d = written_members members in
        b'{' ∷ (joined false (sort_keys strings (keys d)) d ++ b'}' ∷ [])

    pub write_items : Bool → Items → List ℕ
    write_items comma no_items = []
    write_items comma (item v items) =
        elim comma [ true ↦ b',' ∷ [] | false ↦ [] ]
        ++ (write_canonical v ++ write_items true items)

    pub written_members : Members → Dict (List ℕ)
    written_members no_members = []
    written_members (member k v members) = (k, write_canonical v) ∷ written_members members

  decoded : Option Json → Result Json
  decoded none = err (other "audit: canonical")
  decoded (some v) = ok v

  -- `decodeRaw`.
  unfoldable pub decode_raw : List ℕ → Result Json
  unfolding decoded
  decode_raw [] = ok null
  decode_raw (b ∷ raw) = decoded (decode (b ∷ raw))

  -- The document that is hashed; `created` counts microseconds.
  unfoldable pub document : String → ℕ → ℕ → Entry → Json → Json → Json
  document tenant seq created e before after = object (
      member "tenant_id" (text tenant) (
        member "seq" (integer seq) (
          member "actor_user_id" (text e.actor_user_id) (
            member "actor_role" (text e.actor_role) (
              member "action" (text e.action) (
                member "object_kind" (text e.object_kind) (
                  member "object_id" (text e.object_id) (
                    member "before" before (
                      member "after" after (
                        member "ip" (text e.ip)
                          (member "created_at" (text (rfc3339 created)) no_members)))))))))))

  with_snapshots : String → ℕ → ℕ → Entry → Result Json → Result Json → Result (List ℕ)
  unfolding document
  with_snapshots tenant seq created e (err x) after = err x
  with_snapshots tenant seq created e (ok before) (err x) = err x
  with_snapshots tenant seq created e (ok before) (ok after) =
      ok (write_canonical (document tenant seq created e before after))

  -- `canonicalize`.
  unfoldable pub canonicalize : String → ℕ → ℕ → Entry → Result (List ℕ)
  unfolding with_snapshots decode_raw
  canonicalize tenant seq created e =
      with_snapshots tenant seq created e (decode_raw e.before) (decode_raw e.after)

  -- `computeHash`.
  unfoldable pub compute_hash : List ℕ → List ℕ → List ℕ
  compute_hash prev_hash canonical = f.sha256 (prev_hash ++ canonical)
