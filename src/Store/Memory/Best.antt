-- ===== src/Store/Memory/Best.antt =====
-- `Current` of internal/store/memory.go: the best observation of each field, without a panic.
use mathlib.Core.Path.{subst}
use waterfall.Prelude.{
  ◌≡◌, ◌≢◌, refl, sym, String, Bool, true, false, Option, none, some, List, [], ◌∷◌, ◌==◌, inl, inr,
  ◌⊎◌, Dict, get, put, get-put, get2, or_else, Each, Each-or_else, All, Bool-cases, if◌then◌else◌,
}
use waterfall.Domain.Errors.{ok}
use waterfall.Domain.Fields.{Field}
use waterfall.Domain.Values.{FieldValue}
use waterfall.Tenant.{Context, tenant_id}
use waterfall.Store.Memory.{Memory, history_of, best_from, best_of, current_fields, current}

-- The values that a loop over a slice has seen.
abbrev pub Among : {A : Type 0} → A → List A → Type 0
Among a [] = ⊥
Among a (x ∷ xs) = (a ≡ x) ⊎ Among a xs

module _ {C : Type 0} (lt : C → C → Bool) where
  abbrev pub IsUsed : List (FieldValue C) → Type 0
  IsUsed obs = obs ≢ []

  pub best_or_nothing : Option (List (FieldValue C)) → Option (FieldValue C)
  best_or_nothing o = best_of lt (or_else [] o)

  current_fields_total :
      (d : Dict (List (FieldValue C)))
      → Each IsUsed d
      → (out : Dict (FieldValue C)) × (current_fields lt d ≡ ok out)
        × ((f : Field) → get out f ≡ best_of lt (or_else [] (get d f)))
  unfolding current_fields best_of get
  current_fields_total [] h = ([], refl, λ f. refl)
  current_fields_total ((g, []) ∷ rest) h = absurd (h.0 refl)
  current_fields_total ((g, o ∷ os) ∷ rest) h =
      let (out, e, at) = current_fields_total rest h.1 in
      (put out g (best_from lt o os), rw e, λ f. rw get-put (field_case g o os rest f (at f)))
    where
      field_case :
          (g : Field) (o : FieldValue C) (os : List (FieldValue C))
          (rest : Dict (List (FieldValue C))) (f : Field) {found : Option (FieldValue C)}
          → found ≡ best_of lt (or_else [] (get rest f))
          → (if g == f then some (best_from lt o os) else found)
            ≡ best_of lt (or_else [] (if g == f then some (o ∷ os) else get rest f))
      field_case g o os rest f e = elim (Bool-cases (g == f)) [ inl q ↦ rw q | inr q ↦ rw q e ]

  -- The laws of `<` that the loop relies on; with no NaN they hold of floats.
  pub record IsOrder : Type 0 where
    pub irreflexive : (a : C) → lt a a ≡ false
    pub transitive : (a b c : C) → lt a b ≡ true → lt b c ≡ true → lt a c ≡ true
    pub cotransitive : (a b c : C) → lt a c ≡ true → lt a b ≡ false → lt b c ≡ true

  -- No value of the list has a higher confidence than `b`.
  abbrev pub IsUnbeaten : FieldValue C → List (FieldValue C) → Type 0
  IsUnbeaten b obs = All (λ v. lt b.confidence v.confidence ≡ false) obs

  module _ (o v : FieldValue C) (os : List (FieldValue C)) where
    best_from-higher :
        lt o.confidence v.confidence ≡ true → best_from lt o (v ∷ os) ≡ best_from lt v os
    unfolding best_from
    best_from-higher q = rw q

    best_from-other :
        lt o.confidence v.confidence ≡ false → best_from lt o (v ∷ os) ≡ best_from lt o os
    unfolding best_from
    best_from-other q = rw q

  best_from-nil : (o : FieldValue C) → best_from lt o [] ≡ o
  unfolding best_from
  best_from-nil o = refl

  module _ (order : IsOrder) where
    best_from-IsUnbeaten :
        (o : FieldValue C) (os : List (FieldValue C)) → IsUnbeaten (best_from lt o os) (o ∷ os)
    best_from-IsUnbeaten o [] = rw (best_from-nil o) (order.irreflexive o.confidence, tt)
    best_from-IsUnbeaten o (v ∷ os) = elim (Bool-cases (lt o.confidence v.confidence)) [
      | inl q ↦
          let (head, tail) = best_from-IsUnbeaten v os in
          let b = best_from lt v os in
          let lower : lt b.confidence o.confidence ≡ false =
            elim (Bool-cases (lt b.confidence o.confidence)) [
              | inl r ↦ cc (order.transitive b.confidence o.confidence v.confidence r q)
              | inr r ↦ r
            ] in
          subst (λ (x : FieldValue C). IsUnbeaten x (o ∷ v ∷ os)) (sym (best_from-higher o v os q))
            (lower, (head, tail))
      | inr q ↦
          let (head, tail) = best_from-IsUnbeaten o os in
          let b = best_from lt o os in
          let lower : lt b.confidence v.confidence ≡ false =
            elim (Bool-cases (lt b.confidence v.confidence)) [
              | inl r ↦ cc (order.cotransitive b.confidence o.confidence v.confidence r head)
              | inr r ↦ r
            ] in
          subst (λ (x : FieldValue C). IsUnbeaten x (o ∷ v ∷ os)) (sym (best_from-other o v os q))
            (head, (lower, tail))
    ]

  best_from-Among :
      (o : FieldValue C) (os : List (FieldValue C)) → Among (best_from lt o os) (o ∷ os)
  best_from-Among o [] = inl (best_from-nil o)
  best_from-Among o (v ∷ os) = elim (Bool-cases (lt o.confidence v.confidence)) [
    | inl q ↦
        subst (λ (x : FieldValue C). Among x (o ∷ v ∷ os)) (sym (best_from-higher o v os q))
          (inr (best_from-Among v os))
    | inr q ↦
        subst (λ (x : FieldValue C). Among x (o ∷ v ∷ os)) (sym (best_from-other o v os q))
          (elim (best_from-Among o os) [ inl r ↦ inl r | inr r ↦ inr (inr r) ])
  ]

  -- The best of the observations of a field: one of them, and beaten by none; none if there are
  -- no observations.
  abbrev pub IsBest : Option (FieldValue C) → List (FieldValue C) → Type 0
  IsBest none obs = obs ≡ []
  IsBest (some b) obs = Among b obs × IsUnbeaten b obs

  best_of-IsBest : IsOrder → (obs : List (FieldValue C)) → IsBest (best_of lt obs) obs
  unfolding best_of
  best_of-IsBest order [] = refl
  best_of-IsBest order (o ∷ os) = (best_from-Among o os, best_from-IsUnbeaten order o os)

  -- No slice of the store is empty.
  pub record IsFilled (m : Memory C) : Type 0 where
    pub used : Each (Each (Each IsUsed)) m.versions

  -- `Current` does not panic on such a store; for each field it returns an observation of the
  -- history that no other one beats, and nothing for a field without observations.
  pub current_of-IsBest :
      IsOrder
      → (ctx : Context) (t subject : String) (m : Memory C) → tenant_id ctx ≡ ok t
      → IsFilled m
      → (out : Dict (FieldValue C)) × ((current lt ctx subject m).0 ≡ ok out)
        × ((f : Field) → IsBest (get out f) (history_of m t subject f))
  unfolding current history_of
  current_of-IsBest order ctx t subject m p h =
      let used =
        Each-or_else (Each IsUsed) [] _ subject tt
          (Each-or_else (Each (Each IsUsed)) [] m.versions t tt h.used) in
      let (out, e, at) = current_fields_total (or_else [] (get2 m.versions t subject)) used in
      (out, rw p e, λ f. rw (at f) (best_of-IsBest order _))
