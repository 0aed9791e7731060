-- ===== src/Examples/Evidence.antt =====
-- The theorems on internal/dash/audit, applied, with a few texts for JSON and the identity for the
-- hash.
use waterfall.Prelude.{equal_bytes, ◌≡◌, ◌⊎◌, refl, none, some, List, [], ◌∷◌, get}
use waterfall.Domain.Errors.{GoError, ok, err}
use waterfall.Dash.Audit.Canonical.{
  Formats, Entry, text, canonicalize, compute_hash, decode_raw, document, write_canonical,
  written_members, joined,
}
use waterfall.Dash.Audit.Chain.{
  Row, genesis, no_chain, append_on, verify_from, verify, entry_of, jsonb_or_null, raw_from_ptr,
  row_of,
}
use waterfall.Dash.Audit.Intact.{last_hash, IsStable, IsIntact, append_on-IsIntact}
use waterfall.Dash.Audit.Tamper.{Apart, ends, goes, documents, verify_from-documents}
use waterfall.Domain.Requests.{sort_keys, keys}
use waterfall.Examples.Data.{texts}

abbrev formats : Formats
formats = record {
  strings = texts;
  quote = λ s. 34 ∷ texts.bytes s;
  decode = λ raw. some (text "x");
  format_int = λ n. n ∷ [];
  rfc3339 = λ t. "now";
  sha256 = λ b. b;
  jsonb = λ raw. 32 ∷ raw;
}

abbrev entry : Entry
entry = record {
  action = "login";
  object_kind = "";
  object_id = "";
  actor_user_id = "ann";
  actor_role = "";
  ip = "";
  before = [];
  after = 1 ∷ [];
}

before-IsStable : IsStable formats entry.before
unfolding decode_raw raw_from_ptr jsonb_or_null
before-IsStable = refl

after-IsStable : IsStable formats entry.after
unfolding decode_raw raw_from_ptr jsonb_or_null
after-IsStable = refl

no_chain-IsIntact : IsIntact formats "acme" no_chain
unfolding verify verify_from
no_chain-IsIntact = record { verifies = refl; head = refl }

append_on-IsIntact_example :
    let out = append_on formats "acme" 7 entry no_chain in
    IsIntact formats "acme" out.1
    × (((x : Unit {0}) × (out.0 ≡ ok x) × ((r : Row) × (out.1.rows ≡ r ∷ []) × (r.seq ≡ 1)))
        ⊎ ((x : GoError) × (out.0 ≡ err x) × (out.1 ≡ no_chain)))
append_on-IsIntact_example =
    append_on-IsIntact formats "acme" 7 entry no_chain before-IsStable after-IsStable
      no_chain-IsIntact

abbrev rows : List Row
rows = (append_on formats "acme" 7 entry no_chain).1.rows

rows_verify : verify_from formats "acme" genesis rows ≡ ok none
unfolding verify
rows_verify =
    (append_on-IsIntact formats "acme" 7 entry no_chain before-IsStable after-IsStable
      no_chain-IsIntact).0.verifies

-- The same row, with an empty text for the NULL of the role.
respell : List Row → List Row
respell [] = []
respell (r ∷ rs) = record r { actor_role = some "" } ∷ rs

respelled_verify : verify_from formats "acme" genesis (respell rows) ≡ ok none
unfolding respell append_on canonicalize compute_hash verify_from entry_of row_of equal_bytes
    decode_raw document write_canonical written_members joined sort_keys keys get
respelled_verify = refl

apart : Apart formats "acme" genesis genesis rows (respell rows)
unfolding respell append_on compute_hash canonicalize
apart = goes refl (λ a b p q e. e) ends

same_hash : last_hash genesis rows ≡ last_hash genesis (respell rows)
unfolding respell append_on canonicalize
same_hash = refl

verify_from-documents_example :
    documents formats "acme" rows ≡ documents formats "acme" (respell rows)
verify_from-documents_example =
    verify_from-documents formats "acme" apart rows_verify respelled_verify same_hash
