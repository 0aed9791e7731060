-- ===== src/Store/Postgres/Rows.antt =====
-- The rows that the selects of internal/pgstore/store.go return.
use waterfall.Prelude.{
  ◌||◌, String, ◌==◌, eq_iff, ℤ, ◌≡◌, refl, sym, ap, ◌∙◌, Bool, false, Bool-cases, Option, none,
  some, List, [], ◌∷◌, ◌++◌, Dict, get, put, get-put, All, All-Permᴰ, IsSorted, All-append, inl,
  inr, arith, if◌then◌else◌,
}
use mathlib.Core.Path.{subst}
use mathlib.Core.List.{map, Permᴰ}
use mathlib.Core.List.Permᴰ
use waterfall.Domain.Fields.{Field}
use waterfall.Domain.Values.{Time, FieldValue, Values}
use waterfall.Domain.Errors.{ok}
use waterfall.Store.Memory.Best.{Among, IsOrder, IsBest}
use waterfall.Store.Postgres.Tables.{Columns}
use waterfall.Store.Postgres.Versions.{
  stored, of_field, columns_of, parse_ts, scan_field_value, scan_all, top, has_field, fields_of,
  distinct_on_field, by_field, current_rows,
}

module _ {A : Type 0} where
  Among-Permᴰ : (a : A) {xs ys : List A} → Permᴰ xs ys → Among a xs → Among a ys
  Among-Permᴰ a Permᴰ.nil h = h
  Among-Permᴰ a (Permᴰ.cons e d) (inl q) = inl (q ∙ e)
  Among-Permᴰ a (Permᴰ.cons e d) (inr h) = inr (Among-Permᴰ a d h)
  Among-Permᴰ a (Permᴰ.swap e e') (inl q) = inr (inl (q ∙ e))
  Among-Permᴰ a (Permᴰ.swap e e') (inr (inl q)) = inl (q ∙ e')
  Among-Permᴰ a (Permᴰ.swap e e') (inr (inr h)) = inr (inr h)
  Among-Permᴰ a (Permᴰ.trans d d') h = Among-Permᴰ a d' (Among-Permᴰ a d h)

  nil-Permᴰ : (xs : List A) → Permᴰ [] xs → xs ≡ []
  nil-Permᴰ [] d = refl
  nil-Permᴰ (x ∷ xs) d = absurd ((All-Permᴰ (λ a. ⊥) d tt).0)

  first : List A → Option A
  first [] = none
  first (x ∷ xs) = some x

module _ {C : Type 0} (lt : C → C → Bool) where
  -- Each value is beaten by none behind it.
  abbrev pub IsFalling : List (FieldValue C) → Type 0
  IsFalling vs = IsSorted (λ v w. lt w.confidence v.confidence) vs

  -- What the columns keep: JSON, numbers and stored times come back as they were, and the database
  -- orders the rows that it was given.
  pub record IsColumnar (lib : Columns C) : Type 0 where
    pub json :
        (res : Values C) (text : String)
        → lib.marshal res ≡ ok text
        → lib.unmarshal (lib.jsonb text) ≡ ok res
    pub floats : (c : C) → lib.parse_float (lib.float_text c) ≡ c
    pub ints : (n : ℤ) → lib.parse_int (lib.int_text n) ≡ n
    pub times :
        (t : Time)
        → parse_ts lib.parse_layouts (lib.time_text (lib.timestamptz t)) ≡ lib.timestamptz t
    pub rearranged : (vs : List (FieldValue C)) → Permᴰ (lib.by_confidence vs) vs
    pub falling : (vs : List (FieldValue C)) → IsFalling (lib.by_confidence vs)

  module _ (order : IsOrder lt) where
    first-IsBest :
        (vs obs : List (FieldValue C)) → Permᴰ vs obs → IsFalling vs → IsBest lt (first vs) obs
    unfolding first
    first-IsBest [] obs d h = nil-Permᴰ obs d
    first-IsBest (v ∷ vs) obs d (h, hs) = (
      Among-Permᴰ v d (inl refl),
      All-Permᴰ (λ w. lt v.confidence w.confidence ≡ false) d (order.irreflexive v.confidence, h),
    )

  module _ (lib : Columns C) (laws : IsColumnar lib) where
    -- A row that is read as it is.
    abbrev IsReadable : FieldValue C → Type 0
    IsReadable v = scan_field_value lib (columns_of lib v) ≡ v

    stored-IsReadable : (v : FieldValue C) → IsReadable (stored lib v)
    unfolding scan_field_value columns_of stored
    stored-IsReadable v =
        rw
          (
            laws.floats v.confidence,
            laws.floats v.prov.confidence,
            laws.ints v.prov.cost_credits,
            laws.times v.prov.observed_at,
          )
          refl

    stored_all-IsReadable : (vs : List (FieldValue C)) → All IsReadable (map (stored lib) vs)
    stored_all-IsReadable [] = tt
    stored_all-IsReadable (v ∷ vs) = (stored-IsReadable v, stored_all-IsReadable vs)

    scan_all_id : (vs : List (FieldValue C)) → All IsReadable vs → scan_all lib vs ≡ vs
    unfolding scan_all
    scan_all_id [] h = refl
    scan_all_id (v ∷ vs) (h, hs) = rw (h, scan_all_id vs hs) refl

    pub scan_ordered :
        (vs : List (FieldValue C))
        → scan_all lib (lib.by_confidence (map (stored lib) vs))
          ≡ lib.by_confidence (map (stored lib) vs)
    scan_ordered vs = scan_all_id _ (
        All-Permᴰ IsReadable (Permᴰ.symm (laws.rearranged (map (stored lib) vs)))
          (stored_all-IsReadable vs))

    -- `first_of o p` is `o` where there is one.
    abbrev first_of : {A : Type 0} → Option A → Option A → Option A
    first_of (some a) p = some a
    first_of none p = p

    abbrev OfField : Field → List (FieldValue C) → Type 0
    OfField f vs = All (λ v. v.field ≡ f) vs

    of_field-OfField : (f : Field) (vs : List (FieldValue C)) → OfField f (of_field f vs)
    unfolding of_field
    of_field-OfField f [] = tt
    of_field-OfField f (v ∷ vs) = elim (Bool-cases (v.field == f)) [
      | inl q ↦ rw q ((eq_iff v.field f).0 q, of_field-OfField f vs)
      | inr q ↦ rw q (of_field-OfField f vs)
    ]

    ordered-OfField :
        (f : Field) (vs : List (FieldValue C)) → OfField f (lib.by_confidence (of_field f vs))
    ordered-OfField f vs =
        All-Permᴰ (λ v. v.field ≡ f) (Permᴰ.symm (laws.rearranged (of_field f vs)))
          (of_field-OfField f vs)

    -- A row of field `g` on top of the others decides what is found under `g`, and nothing else.
    by_field-top :
        (g f : Field) (vs rest : List (FieldValue C)) (out : Dict (FieldValue C)) (has : Bool)
        (mine : Option (FieldValue C))
        → OfField g vs
        → (g ≡ f → first vs ≡ mine)
        → ((o : Dict (FieldValue C))
            → get (by_field rest o) f ≡ (if has then first_of mine (get o f) else get o f))
        → get (by_field (top vs ++ rest) out) f
          ≡ (if g == f || has then first_of mine (get out f) else get out f)
    unfolding by_field top first
    by_field-top g f [] rest out has mine h same ih = elim (Bool-cases (g == f)) [
      | inl q ↦
          rw (q, ih out, sym (same ((eq_iff g f).0 q)))
            (elim (Bool-cases has) [ inl k ↦ rw k refl | inr k ↦ rw k refl ])
      | inr q ↦ rw q (ih out)
    ]
    by_field-top g f (v ∷ vs) rest out has mine (e, h) same ih =
        let put_it =
          get-put out v.field v f ∙ ap (λ (k : Field). if k == f then some v else get out f) e in
        elim (Bool-cases (g == f)) [
          | inl q ↦
              rw (q, ih (put out v.field v), put_it, q, sym (same ((eq_iff g f).0 q)))
                (elim (Bool-cases has) [ inl k ↦ rw k refl | inr k ↦ rw k refl ])
          | inr q ↦ rw (q, ih (put out v.field v), put_it, q) refl
        ]

    by_field-distinct :
        (f : Field) (fs : List Field) (rows : List (FieldValue C)) (out : Dict (FieldValue C))
        → get (by_field (distinct_on_field lib fs rows) out) f ≡ (
            if has_field f fs
            then first_of (first (lib.by_confidence (of_field f rows))) (get out f)
            else get out f)
    unfolding distinct_on_field has_field by_field
    by_field-distinct f [] rows out = refl
    by_field-distinct f (g ∷ fs) rows out =
        by_field-top g f (lib.by_confidence (of_field g rows)) (distinct_on_field lib fs rows) out
          (has_field f fs) (first (lib.by_confidence (of_field f rows))) (ordered-OfField g rows)
          (λ e. ap (λ (h : Field). first (lib.by_confidence (of_field h rows))) e)
          (by_field-distinct f fs rows)

    has_field-cons :
        (f : Field) (v : FieldValue C) (rows : List (FieldValue C))
        → has_field f (fields_of (v ∷ rows)) ≡ false
        → (has_field f (fields_of rows) ≡ false) × (v.field == f ≡ false)
    unfolding fields_of has_field
    has_field-cons f v rows h = elim (Bool-cases (has_field v.field (fields_of rows))) [
      | inl k ↦
          let same : (v.field == f) ≡ false = elim (Bool-cases (v.field == f)) [
            | inl q ↦ ground (
              arith,
              h,
              k,
              ap (λ (g : Field). has_field g (fields_of rows)) ((eq_iff v.field f).0 q),
            )
            | inr q ↦ q
          ] in
          (ground (arith, h, k), same)
      | inr k ↦ ground (arith, h, k)
    ]

    fields_of_none :
        (f : Field) (rows : List (FieldValue C))
        → has_field f (fields_of rows) ≡ false
        → of_field f rows ≡ []
    unfolding of_field
    fields_of_none f [] h = refl
    fields_of_none f (v ∷ rows) h =
        let (less, other) = has_field-cons f v rows h in rw other (fields_of_none f rows less)

    -- What `Current` finds for a field, where the rows read back as they are.
    current_rows-get :
        (f : Field) (rows : List (FieldValue C))
        → scan_all lib (distinct_on_field lib (fields_of rows) rows)
          ≡ distinct_on_field lib (fields_of rows) rows
        → get (current_rows lib rows) f ≡ first (lib.by_confidence (of_field f rows))
    unfolding current_rows get first
    current_rows-get f rows h =
        ap (λ (vs : List (FieldValue C)). get (by_field vs []) f) h
        ∙ by_field-distinct f (fields_of rows) rows []
        ∙ elim (Bool-cases (has_field f (fields_of rows))) [
          | inl k ↦ rw k (or_none _)
          | inr k ↦
              rw (k, fields_of_none f rows k)
                (sym (ap first (nil-Permᴰ _ (Permᴰ.symm (laws.rearranged [])))))
        ]
      where
        or_none : {A : Type 0} (o : Option A) → first_of o none ≡ o
        or_none none = refl
        or_none (some a) = refl

    top-IsReadable : (vs : List (FieldValue C)) → All IsReadable vs → All IsReadable (top vs)
    unfolding top
    top-IsReadable [] h = tt
    top-IsReadable (v ∷ vs) (h, hs) = (h, tt)

    distinct-IsReadable :
        (rows : List (FieldValue C))
        → ((f : Field) → All IsReadable (of_field f rows))
        → (fs : List Field) → All IsReadable (distinct_on_field lib fs rows)
    unfolding distinct_on_field
    distinct-IsReadable rows h [] = tt
    distinct-IsReadable rows h (f ∷ fs) =
        All-append IsReadable _ _
          (top-IsReadable _
            (All-Permᴰ IsReadable (Permᴰ.symm (laws.rearranged (of_field f rows))) (h f)))
          (distinct-IsReadable rows h fs)

    -- `Current` on rows that are stored observations finds the best of each field.
    pub current_rows-IsBest :
        IsOrder lt
        → (rows : List (FieldValue C)) (obs : Field → List (FieldValue C))
        → ((f : Field) → of_field f rows ≡ map (stored lib) (obs f))
        → (f : Field) → IsBest lt (get (current_rows lib rows) f) (map (stored lib) (obs f))
    current_rows-IsBest order rows obs h f =
        let readable =
          λ (g : Field). subst (All IsReadable) (sym (h g)) (stored_all-IsReadable (obs g)) in
        subst (λ o. IsBest lt o (map (stored lib) (obs f)))
          (sym (
            current_rows-get f rows
              (scan_all_id _ (distinct-IsReadable rows readable (fields_of rows)))))
          (subst (λ vs. IsBest lt (first (lib.by_confidence (of_field f rows))) vs) (h f)
            (first-IsBest order _ _ (laws.rearranged (of_field f rows))
              (laws.falling (of_field f rows))))
