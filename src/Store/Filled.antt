-- ===== src/Store/Filled.antt =====
-- The methods of internal/store/memory.go never leave an empty slice behind, so `Current` has a
-- first observation wherever it looks for one.
use waterfall.Prelude.{
  ◌≡◌, ◌≢◌, refl, String, Bool, List, [], ◌∷◌, ◌++◌, inl, inr, Dict, get, Each, Each-put,
  Each-or_else, Bool-cases,
}
use waterfall.Domain.Errors.{Result-cases, ok}
use waterfall.Domain.Fields.{Field}
use waterfall.Domain.Values.{FieldValue, field_value_valid}
use waterfall.Tenant.{Context, tenant_id}
use waterfall.Store.Memory.{Memory, append, history_of, current, new_memory}
use waterfall.Store.Memory.Best.{IsUsed, IsFilled, IsOrder, IsBest, current_of-IsBest}
use waterfall.Store.Isolation.{Operation, perform, after, op_append}
use waterfall.Store.Provenance.{versions-perform}

module _ {C : Type 0} where
  append-ne-nil : (xs : List (FieldValue C)) (v : FieldValue C) → xs ++ v ∷ [] ≢ []
  append-ne-nil [] v e = cc
  append-ne-nil (x ∷ xs) v e = cc

  append-IsFilled :
      (lt : C → C → Bool) (ctx : Context) (subject : String) (v : FieldValue C) (m : Memory C)
      → IsFilled lt m
      → IsFilled lt (append ctx subject v m).1
  unfolding append
  append-IsFilled lt ctx subject v m h = elim (Result-cases (tenant_id ctx)) [
    | inl (e, q) ↦ rw q h
    | inr (t, q) ↦ elim (Bool-cases (field_value_valid v)) [
      | inr k ↦ rw (q, k) h
      | inl k ↦
          let subjects = Each-or_else (Each (Each (IsUsed lt))) [] m.versions t tt h.used in
          let fields = Each-or_else (Each (IsUsed lt)) [] _ subject tt subjects in
          rw (q, k)
            (record {
              used = Each-put _ m.versions t _ h.used (
                  Each-put _ _ subject _ subjects
                    (Each-put _ _ v.field _ fields (append-ne-nil _ v)));
            })
    ]
  ]

module _ {C : Type 0} (lt : C → C → Bool) where
  perform-IsFilled :
      (ctx : Context) (op : Operation C) (m : Memory C)
      → IsFilled lt m
      → IsFilled lt (perform lt ctx op m).1
  unfolding perform
  perform-IsFilled ctx (op_append subject v) m h = append-IsFilled lt ctx subject v m h
  perform-IsFilled ctx op m h = record { used = rw (versions-perform lt ctx op m refl) h.used }

  after-IsFilled :
      (calls : List (Context × Operation C)) (m : Memory C)
      → IsFilled lt m
      → IsFilled lt (after lt calls m)
  unfolding after
  after-IsFilled [] m h = h
  after-IsFilled ((ctx, op) ∷ rest) m h =
      after-IsFilled rest (perform lt ctx op m).1 (perform-IsFilled ctx op m h)

  -- After any calls on a new store, by any tenants, `Current` returns without a panic; for each
  -- field it returns an observation of the history that no other one beats, and nothing for a
  -- field without observations. The order of confidences is one of numbers, with no NaN.
  pub current-IsBest :
      IsOrder lt
      → (calls : List (Context × Operation C)) (ctx : Context) (t subject : String)
      → tenant_id ctx ≡ ok t
      → (out : Dict (FieldValue C)) × ((current lt ctx subject (after lt calls new_memory)).0
          ≡ ok out)
        × ((f : Field) → IsBest lt (get out f) (history_of (after lt calls new_memory) t subject f))
  current-IsBest order calls ctx t subject p =
      current_of-IsBest lt order ctx t subject (after lt calls new_memory) p
        (after-IsFilled calls new_memory (record { used = tt }))
