-- ===== src/Dash/Audit/Chain.antt =====
-- internal/dash/audit/audit.go: `appendOn` and `Verify`, over the rows of the tables.
use waterfall.Prelude.{
  equal_bytes, ℕ, suc, String, ◌==◌, ◌&&◌, Option, none, some, List, [], ◌∷◌, ◌++◌, Dict, get, put,
  or_else, if◌then◌else◌,
}
use waterfall.Domain.Errors.{Result, ok, err}
use waterfall.Tenant.{Context, Principal, from_context}
use waterfall.Dash.Audit.Canonical.{Formats, Entry, canonicalize, compute_hash}

-- A row of `audit_log`; a NULL is `none`. The bytea and timestamp columns hold what was stored.
pub record Row : Type 0 where
  pub seq : ℕ
  pub actor_user_id : Option String
  pub actor_role : Option String
  pub action : String
  pub object_kind : Option String
  pub object_id : Option String
  pub before : Option (List ℕ)
  pub after : Option (List ℕ)
  pub ip : Option String
  pub prev_hash : List ℕ
  pub hash : List ℕ
  pub created_at : ℕ

-- The rows of a tenant, and its row of `audit_chain_heads`: the last number and hash.
pub record Chain : Type 0 where
  pub rows : List Row
  pub head : Option (ℕ × List ℕ)

abbrev pub no_chain : Chain
no_chain = record { rows = []; head = none }

-- Before the first row: 32 zero bytes.
abbrev pub genesis : List ℕ
genesis =
    0 ∷ 0 ∷ 0 ∷ 0 ∷ 0 ∷ 0 ∷ 0 ∷ 0 ∷ 0 ∷ 0 ∷ 0 ∷ 0 ∷ 0 ∷ 0 ∷ 0 ∷ 0 ∷ 0 ∷ 0 ∷ 0 ∷ 0 ∷ 0 ∷ 0 ∷ 0 ∷ 0
    ∷ 0 ∷ 0 ∷ 0 ∷ 0 ∷ 0 ∷ 0 ∷ 0 ∷ 0 ∷ []

-- `nullIf` and `str`.
unfoldable pub null_if : String → Option String
null_if s = if s == "" then none else some s

unfoldable pub str : Option String → String
str none = ""
str (some s) = s

-- `rawFromPtr`.
unfoldable pub raw_from_ptr : Option (List ℕ) → List ℕ
raw_from_ptr none = []
raw_from_ptr (some b) = b

-- The entry of a row, as `Verify` reads it.
unfoldable pub entry_of : Row → Entry
unfolding str raw_from_ptr
entry_of r = record {
  action = r.action;
  object_kind = str r.object_kind;
  object_id = str r.object_id;
  actor_user_id = str r.actor_user_id;
  actor_role = str r.actor_role;
  ip = str r.ip;
  before = raw_from_ptr r.before;
  after = raw_from_ptr r.after;
}

module _ (f : Formats) where
  -- `jsonbOrNull`, into a jsonb column.
  unfoldable pub jsonb_or_null : List ℕ → Option (List ℕ)
  jsonb_or_null [] = none
  jsonb_or_null (b ∷ raw) = some (f.jsonb (b ∷ raw))

  unfoldable pub row_of : ℕ → ℕ → Entry → List ℕ → List ℕ → Row
  unfolding null_if jsonb_or_null
  row_of seq created e prev_hash hash = record {
    seq = seq;
    actor_user_id = null_if e.actor_user_id;
    actor_role = null_if e.actor_role;
    action = e.action;
    object_kind = null_if e.object_kind;
    object_id = null_if e.object_id;
    before = jsonb_or_null e.before;
    after = jsonb_or_null e.after;
    ip = null_if e.ip;
    prev_hash = prev_hash;
    hash = hash;
    created_at = created;
  }

  module _ (tenant : String) where
    unfoldable pub chained :
        ℕ → ℕ → Entry → List ℕ → Chain → Result (List ℕ) → Result (Unit {0}) × Chain
    chained seq created e prev_hash c (err x) = (err x, c)
    chained seq created e prev_hash c (ok canon) =
        let hash = compute_hash f prev_hash canon in
        (
          ok tt,
          record {
            rows = c.rows ++ row_of seq created e prev_hash hash ∷ [];
            head = some (seq, hash);
          },
        )

    -- `appendOn`, where the database answers.
    unfoldable pub append_on : ℕ → Entry → Chain → Result (Unit {0}) × Chain
    unfolding chained
    append_on created e c =
        let (last_seq, prev_hash) = or_else (0, genesis) c.head in
        chained (suc last_seq) created e prev_hash c
          (canonicalize f tenant (suc last_seq) created e)

    -- One turn of the loop of `Verify`, given what the rows after it come to.
    unfoldable pub compared : List ℕ → Row → Result (List ℕ) → Result (Option ℕ) → Result (Option ℕ)
    compared prev_hash r (err x) rest = err x
    compared prev_hash r (ok canon) rest =
        if equal_bytes r.prev_hash prev_hash && equal_bytes r.hash (compute_hash f prev_hash canon)
        then rest
        else ok (some r.seq)

    -- The loop, from the hash before the rows: the number of the first row that breaks the chain,
    -- if one does.
    unfoldable pub verify_from : List ℕ → List Row → Result (Option ℕ)
    unfolding compared
    verify_from prev_hash [] = ok none
    verify_from prev_hash (r ∷ rs) =
        let rest = verify_from r.hash rs in
        compared prev_hash r (canonicalize f tenant r.seq r.created_at (entry_of r)) rest

    -- `Verify`.
    unfoldable pub verify : Chain → Result (Option ℕ)
    verify c = verify_from genesis c.rows

  appended : String → Dict Chain → Result (Unit {0}) × Chain → Result (Unit {0}) × Dict Chain
  appended t book (r, c) = (r, put book t c)

  append_for : Result Principal → ℕ → Entry → Dict Chain → Result (Unit {0}) × Dict Chain
  unfolding appended
  append_for (err x) created e book = (err x, book)
  append_for (ok p) created e book =
      appended p.tenant_id book
        (append_on p.tenant_id created e (or_else no_chain (get book p.tenant_id)))

  -- `Append` and `AppendConn`: the tenant is that of the context.
  unfoldable pub append_entry : Context → ℕ → Entry → Dict Chain → Result (Unit {0}) × Dict Chain
  unfolding append_for
  append_entry ctx created e book = append_for (from_context ctx) created e book
