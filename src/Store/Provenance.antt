-- ===== src/Store/Provenance.antt =====
-- The versions of internal/store/memory.go (gate G5): only valid values are kept, and all of them.
use mathlib.Core.List.{append-nil, append_assoc}
use waterfall.Prelude.{
  ◌≡◌, refl, ap, sym, ◌∙◌, String, Bool, true, false, List, [], ◌∷◌, ◌++◌, ◌&&◌, ◌==◌, eq_iff,
  arith, inl, inr, Dict, get, put, get-put, get2, put2, get2-put2, or_else, All, All-append,
  Bool-cases, Option-cases, if◌then◌else◌,
}
use waterfall.Domain.Errors.{GoError, Result, Result-cases, ok, err}
use waterfall.Domain.Fields.{Field}
use waterfall.Domain.Values.{FieldValue, field_value_valid}
use waterfall.Tenant.{Context, tenant_id}
use waterfall.Store.Memory.{
  Memory, lookup, record_result, reserve, release, committed, append, history, history_of, current,
}
use waterfall.Store.Isolation.{
  Operation, perform, after, op_lookup, op_record, op_reserve, op_release, op_append,
}

module _ {C : Type 0} where
  abbrev pub IsValid : FieldValue C → Type 0
  IsValid v = field_value_valid v ≡ true

  -- Every retained observation is valid.
  pub record IsProven (m : Memory C) : Type 0 where
    pub at : (t subject : String) (f : Field) → All IsValid (history_of m t subject f)

  module _ (m : Memory C) (t subject : String) (v : FieldValue C) where
    abbrev fields_of : Dict (List (FieldValue C))
    fields_of = or_else [] (get2 m.versions t subject)

    abbrev with_value : Memory C
    with_value = record m {
      versions =
          put2 m.versions t subject
            (put fields_of v.field (or_else [] (get fields_of v.field) ++ v ∷ []));
    }

    history_of-with_value :
        (s j : String) (f : Field)
        → history_of with_value s j f ≡ (
            if t == s && (subject == j && v.field == f)
            then history_of m s j f ++ v ∷ []
            else history_of m s j f)
    unfolding history_of
    history_of-with_value s j f = ground (
      arith,
      get2-put2 m.versions t subject
          (put fields_of v.field (or_else [] (get fields_of v.field) ++ v ∷ [])) s j,
      get-put fields_of v.field (or_else [] (get fields_of v.field) ++ v ∷ []) f,
      eq_iff t s,
      eq_iff subject j,
      eq_iff v.field f,
    )

  abbrev pub is_append : Operation C → Bool
  is_append (op_append subject v) = true
  is_append _ = false

  if-versions :
      {A : Type 0} (b : Bool) (p q : A × Memory C) (m : Memory C)
      → p.1.versions ≡ m.versions
      → q.1.versions ≡ m.versions
      → (if b then p else q).1.versions ≡ m.versions
  if-versions true p q m h k = h
  if-versions false p q m h k = k

module _ {C : Type 0} (lt : C → C → Bool) (ctx : Context) where
  pub versions-perform :
      (op : Operation C) (m : Memory C)
      → is_append op ≡ false
      → (perform lt ctx op m).1.versions ≡ m.versions
  unfolding perform lookup record_result reserve release committed append history current
  versions-perform op m h = elim (Result-cases (tenant_id ctx)) [
    | inl (e, q) ↦ refused op e q h
    | inr (s, q) ↦ found op s q h
  ]
    where
      refused :
          (op : Operation C) (e : GoError)
          → tenant_id ctx ≡ err e
          → is_append op ≡ false
          → (perform lt ctx op m).1.versions ≡ m.versions
      refused (op_lookup key) e q h = rw q
      refused _ e q h = rw q

      found :
          (op : Operation C) (s : String)
          → tenant_id ctx ≡ ok s
          → is_append op ≡ false
          → (perform lt ctx op m).1.versions ≡ m.versions
      found (op_record key res) s q h = elim (Option-cases (get2 m.idempotency s key)) [
        | inl k ↦ rw (q, k)
        | inr (old, k) ↦ rw (q, k)
      ]
      found (op_release job amount) s q h = elim (Option-cases (get m.committed s)) [
        | inl k ↦ rw (q, k)
        | inr (jobs, k) ↦ rw (q, k)
      ]
      found (op_reserve job amount ceiling) s q h = rw q (if-versions _ _ _ m refl refl)
      found (op_append subject v) s q h = cc
      found _ s q h = rw q

history_of-eq :
    {C : Type 0} (m n : Memory C)
    → m.versions ≡ n.versions
    → (t j : String) (f : Field) → history_of m t j f ≡ history_of n t j f
unfolding history_of
history_of-eq m n h t j f = rw h

-- The tenant that a context runs under is `t`.
abbrev pub runs_as : Result String → String → Bool
runs_as (err e) t = false
runs_as (ok s) t = s == t

module _ {C : Type 0} (lt : C → C → Bool) where
  -- What one call adds to the history of field `f` of a subject of tenant `t`.
  abbrev pub added : Context → Operation C → String → String → Field → List (FieldValue C)
  added ctx (op_append subject v) t j f =
      if runs_as (tenant_id ctx) t && (field_value_valid v && (subject == j && v.field == f))
      then v ∷ []
      else []
  added ctx _ t j f = []

  abbrev pub added_by : List (Context × Operation C) → String → String → Field → List (FieldValue C)
  added_by [] t j f = []
  added_by ((ctx, op) ∷ rest) t j f = added ctx op t j f ++ added_by rest t j f

  if-added :
      (b : Bool) (xs : List (FieldValue C)) (v : FieldValue C)
      → (if b then xs ++ v ∷ [] else xs) ≡ xs ++ (if b then v ∷ [] else [])
  if-added true xs v = refl
  if-added false xs v = sym (append-nil xs)

  if_false :
      (b : Bool) (xs : List (FieldValue C)) (v : FieldValue C)
      → xs ≡ xs ++ (if b && false then v ∷ [] else [])
  if_false true xs v = sym (append-nil xs)
  if_false false xs v = sym (append-nil xs)

  pub history_of-append :
      (ctx : Context) (subject : String) (v : FieldValue C) (m : Memory C) (t j : String)
      (f : Field)
      → history_of (append ctx subject v m).1 t j f
        ≡ history_of m t j f ++ added ctx (op_append subject v) t j f
  unfolding append
  history_of-append ctx subject v m t j f = elim (Result-cases (tenant_id ctx)) [
    | inl (e, q) ↦ rw q (sym (append-nil _))
    | inr (s, q) ↦ elim (Bool-cases (field_value_valid v)) [
      | inl k ↦
          rw (q, k)
            (rw history_of-with_value
              (if-added (s == t && (subject == j && v.field == f)) (history_of m t j f) v))
      | inr k ↦ rw (q, k) (if_false (s == t) (history_of m t j f) v)
    ]
  ]

  -- A call adds to a history what `added` says, behind what is there, and takes nothing away.
  pub history_of-perform :
      (ctx : Context) (op : Operation C) (m : Memory C) (t j : String) (f : Field)
      → history_of (perform lt ctx op m).1 t j f ≡ history_of m t j f ++ added ctx op t j f
  unfolding perform
  history_of-perform ctx (op_append subject v) m t j f = history_of-append ctx subject v m t j f
  history_of-perform ctx op m t j f =
      history_of-eq (perform lt ctx op m).1 m (versions-perform lt ctx op m refl) t j f
      ∙ sym (append-nil _)

  -- The history of a field of a subject is what was there, and then every valid value that its
  -- tenant appended for it, in order: no call takes anything away, changes or reorders it.
  pub history_of-after :
      (calls : List (Context × Operation C)) (m : Memory C) (t j : String) (f : Field)
      → history_of (after lt calls m) t j f ≡ history_of m t j f ++ added_by calls t j f
  unfolding after
  history_of-after [] m t j f = sym (append-nil _)
  history_of-after ((ctx, op) ∷ rest) m t j f =
      history_of-after rest (perform lt ctx op m).1 t j f
      ∙ ap (λ xs. xs ++ added_by rest t j f) (history_of-perform ctx op m t j f)
      ∙ append_assoc (history_of m t j f) (added ctx op t j f) (added_by rest t j f)

  added-IsValid :
      (ctx : Context) (op : Operation C) (t j : String) (f : Field)
      → All IsValid (added ctx op t j f)
  added-IsValid ctx (op_append subject v) t j f =
      if_valid (runs_as (tenant_id ctx) t) (field_value_valid v) (subject == j && v.field == f) refl
    where
      if_valid :
          (a b c : Bool)
          → field_value_valid v ≡ b
          → All IsValid (if a && (b && c) then v ∷ [] else [])
      if_valid true true true h = (h, tt)
      if_valid true true false h = tt
      if_valid true false c h = tt
      if_valid false b c h = tt
  added-IsValid ctx (op_lookup key) t j f = tt
  added-IsValid ctx _ t j f = tt

  -- Whatever methods are called, under whatever contexts, a store whose observations are all valid
  -- keeps only valid ones.
  pub perform-IsProven :
      (ctx : Context) (op : Operation C) (m : Memory C)
      → IsProven m
      → IsProven (perform lt ctx op m).1
  perform-IsProven ctx op m h = record {
    at = λ t j f. rw history_of-perform (
        All-append IsValid (history_of m t j f) (added ctx op t j f) (h.at t j f)
          (added-IsValid ctx op t j f));
  }
