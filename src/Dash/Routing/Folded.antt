-- ===== src/Dash/Routing/Folded.antt =====
-- The most specific level that defines a setting supplies it, whole.
use waterfall.Prelude.{
  String, ◌==◌, eq_iff, true, Bool-cases, ◌≡◌, refl, sym, ap, ◌∙◌, inl, Option-cases, inr, Option,
  none, some, List, [], ◌∷◌, Dict, get, get-put, if◌then◌else◌,
}
use waterfall.Dash.Routing.Resolve.{
  ScopeLevel, tenant_product_country, tenant_product, tenant_country, tenant_default,
  platform_product_country, platform_product, platform_country, platform_default, Override, Policy,
  Resolved, Effective, settle, non_empty, is_transparent, settle_modes, settle_mode, settle_level,
  settle_levels, undecided, resolve,
}

-- The levels, from the most specific to the least.
abbrev pub precedence : List ScopeLevel
precedence =
    tenant_product_country ∷ tenant_product ∷ tenant_country ∷ tenant_default
    ∷ platform_product_country ∷ platform_product ∷ platform_country ∷ platform_default ∷ []

-- A value with the level that it is from.
abbrev pub labelled : {A : Type 0} → ScopeLevel → Option A → Option (Resolved A)
labelled l none = none
labelled l (some a) = some (record { value = a; source = l })

-- The reference: look at the levels in order and take what the first one defines.
abbrev pub defined_at :
    {A P : Type 0} → ScopeLevel → (P → Option A) → Option P → Option (Resolved A)
defined_at l setting none = none
defined_at l setting (some p) = labelled l (setting p)

-- What is decided stays so.
abbrev pub either : {A : Type 0} → Option A → Option A → Option A
either (some a) o = some a
either none o = o

unfoldable pub first_defined :
    {A P : Type 0}
    → (P → Option A)
    → (ScopeLevel → Option P)
    → List ScopeLevel
    → Option (Resolved A)
first_defined setting active [] = none
first_defined setting active (l ∷ ls) =
    let rest = first_defined setting active ls in either (defined_at l setting (active l)) rest

-- An override that says something.
abbrev pub spoken : Option Override → Option Override
spoken none = none
spoken (some o) = if o.mode == "" then none else if o.mode == "inherit" then none else some o

-- An order that lists a provider.
abbrev pub listed : List String → Option (List String)
listed [] = none
listed (id ∷ ids) = some (id ∷ ids)

non_empty-listed : (ids : List String) → non_empty ids ≡ listed ids
unfolding non_empty
non_empty-listed [] = refl
non_empty-listed (id ∷ ids) = refl

abbrev heard : Option Override → Option Override
heard none = none
heard (some o) = if is_transparent o then none else some o

heard-spoken : (o : Option Override) → heard o ≡ spoken o
unfolding is_transparent
heard-spoken none = refl
heard-spoken (some o) = elim (Bool-cases (o.mode == "")) [
  | inl q ↦ rw q refl
  | inr q ↦ elim (Bool-cases (o.mode == "inherit")) [
    | inl k ↦ rw (q, k) refl
    | inr k ↦ rw (q, k) refl
  ]
]

-- Every key is there once, as in a Go map.
abbrev pub IsMap : {V : Type 0} → Dict V → Type 0
IsMap [] = Unit
IsMap ((k, v) ∷ m) = (get m k ≡ none) × IsMap m

settle_mode-get :
    (l : ScopeLevel) (key : String) (o : Override) (modes : Dict (Resolved Override)) (id : String)
    → get (settle_mode l key o (get modes key) modes) id
      ≡ (if key == id then settle l (get modes id) (heard (some o)) else get modes id)
unfolding settle_mode settle
settle_mode-get l key o modes id =
    let same = λ (e : key == id ≡ true). ap (get modes) (sym ((eq_iff key id).0 e)) in
    elim (Option-cases (get modes key)) [
      | inr (r, q) ↦ elim (Bool-cases (key == id)) [
        | inl e ↦ rw (q, e, same e ∙ q) refl
        | inr e ↦ rw (q, e) refl
      ]
      | inl q ↦ elim (Bool-cases (is_transparent o)) [
        | inl silent ↦ elim (Bool-cases (key == id)) [
          | inl e ↦ rw (q, silent, e, same e ∙ q) refl
          | inr e ↦ rw (q, silent, e) refl
        ]
        | inr speaks ↦ elim (Bool-cases (key == id)) [
          | inl e ↦
              rw (q, speaks, get-put modes key (record { value = o; source = l }) id, e, same e ∙ q)
                refl
          | inr e ↦ rw (q, speaks, get-put modes key (record { value = o; source = l }) id, e) refl
        ]
      ]
    ]

settle-none : {A : Type 0} (l : ScopeLevel) (o : Option (Resolved A)) → settle l o none ≡ o
unfolding settle
settle-none l none = refl
settle-none l (some r) = refl

settle_modes-get :
    (l : ScopeLevel) (os : Dict Override) (modes : Dict (Resolved Override)) (id : String)
    → IsMap os
    → get (settle_modes l os modes) id ≡ settle l (get modes id) (heard (get os id))
unfolding settle_modes settle get
settle_modes-get l [] modes id h = sym (settle-none l (get modes id))
settle_modes-get l ((key, o) ∷ os) modes id (fresh, h) =
    settle_modes-get l os (settle_mode l key o (get modes key) modes) id h
    ∙ ap (λ s. settle l s (heard (get os id))) (settle_mode-get l key o modes id)
    ∙ elim (Bool-cases (key == id)) [
      | inl e ↦
          rw (e, ap (get os) (sym ((eq_iff key id).0 e)) ∙ fresh)
            (settle-none l (settle l (get modes id) (heard (some o))))
      | inr e ↦ rw e refl
    ]

module _ {C : Type 0} (active : ScopeLevel → Option (Policy C))
    (maps : (l : ScopeLevel) (p : Policy C) → active l ≡ some p → IsMap p.provider_overrides) where
  module _ {A : Type 0} (view : Effective C → Option (Resolved A)) (setting : Policy C → Option A)
      (law : (l : ScopeLevel) (p : Policy C) (e : Effective C)
        → IsMap p.provider_overrides
        → view (settle_level l (some p) e) ≡ settle l (view e) (setting p)) where
    either-settle :
        (l : ScopeLevel) (o : Option (Resolved A)) (s : Option A) (rest : Option (Resolved A))
        → either (settle l o s) rest ≡ either o (either (labelled l s) rest)
    unfolding settle
    either-settle l (some r) s rest = refl
    either-settle l none none rest = refl
    either-settle l none (some a) rest = refl

    settle_levels-first_defined :
        (ls : List ScopeLevel) (e : Effective C)
        → view (settle_levels active ls e) ≡ either (view e) (first_defined setting active ls)
    unfolding settle_levels first_defined settle_level
    settle_levels-first_defined [] e = elim (Option-cases (view e)) [
      | inl q ↦ rw q refl
      | inr (r, q) ↦ rw q refl
    ]
    settle_levels-first_defined (l ∷ ls) e = elim (Option-cases (active l)) [
      | inl q ↦ rw q (settle_levels-first_defined ls e)
      | inr (p, q) ↦ rw q (
          settle_levels-first_defined ls (settle_level l (some p) e)
          ∙ ap (λ o. either o (first_defined setting active ls)) (law l p e (maps l p q))
          ∙ either-settle l (view e) (setting p) (first_defined setting active ls))
    ]

  -- `Resolve` agrees with the reference at every setting: it takes each, whole, from the first level
  -- that defines it, and with it that level; and for each provider the first override that is
  -- neither empty nor "inherit".
  pub resolve-first_defined :
      (id : String)
      → let e = resolve active in
        (e.confidence_target ≡ first_defined (λ p. p.confidence_target) active precedence)
        × (e.min_confidence ≡ first_defined (λ p. p.min_confidence) active precedence)
        × (e.max_cost_per_field ≡ first_defined (λ p. p.max_cost_per_field) active precedence)
        × (e.max_cost_per_record ≡ first_defined (λ p. p.max_cost_per_record) active precedence)
        × (e.order ≡ first_defined (λ p. listed p.order) active precedence)
        × (get e.provider_modes id
            ≡ first_defined (λ p. spoken (get p.provider_overrides id)) active precedence)
  unfolding resolve settle_level get
  resolve-first_defined id = (
    settle_levels-first_defined (λ e. e.confidence_target) (λ p. p.confidence_target)
        (λ l p e h. refl) precedence undecided,
    settle_levels-first_defined (λ e. e.min_confidence) (λ p. p.min_confidence) (λ l p e h. refl)
        precedence undecided,
    settle_levels-first_defined (λ e. e.max_cost_per_field) (λ p. p.max_cost_per_field)
        (λ l p e h. refl) precedence undecided,
    settle_levels-first_defined (λ e. e.max_cost_per_record) (λ p. p.max_cost_per_record)
        (λ l p e h. refl) precedence undecided,
    settle_levels-first_defined (λ e. e.order) (λ p. listed p.order)
        (λ l p e h. ap (settle l e.order) (non_empty-listed p.order)) precedence undecided,
    settle_levels-first_defined (λ e. get e.provider_modes id)
        (λ p. spoken (get p.provider_overrides id))
        (λ l p e h.
          settle_modes-get l p.provider_overrides e.provider_modes id h
          ∙ ap (settle l (get e.provider_modes id)) (heard-spoken (get p.provider_overrides id)))
        precedence undecided,
  )
