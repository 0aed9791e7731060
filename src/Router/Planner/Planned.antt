-- ===== src/Router/Planner/Planned.antt =====
-- What `Plan` of internal/router/plan.go may propose.
use mathlib.Core.List.Permᴰ
use waterfall.Prelude.{
  All-Permᴰ, sort_by-Permᴰ, String, true, ◌≡◌, refl, inl, inr, Option, none, some, List, [], ◌∷◌,
  Dict, All, All-append, Each, Each-put, Bool-cases,
}
use waterfall.Domain.Fields.{Field, Float, field_valid}
use waterfall.Domain.Requests.{Strings}
use waterfall.Provider.Env.{Adapter, Capability, can}
use waterfall.Router.Types.{Step, Plan}
use waterfall.Router.Planner.{
  offers, step_of, goes_before, sort_steps, scores, plan_field, plan_fields, make_plan,
}

module _ {W : Type 0} (fl : Float) (s : Strings) (all : List (Adapter fl.F W)) where
  open fl use {F}

  pub data Among : Adapter F W → List (Adapter F W) → Type 0 where
    here : {a : Adapter F W} {as' : List (Adapter F W)} → Among a (a ∷ as')
    there : {a b : Adapter F W} {as' : List (Adapter F W)} → Among a as' → Among a (b ∷ as')

  -- A step for a canonical field that one of the adapters advertises, at the cost and the
  -- confidence that it advertises.
  pub record IsOffered (step : Step F) : Type 0 where
    pub adapter : Adapter F W
    pub among : Among adapter all
    pub capability : Capability F
    pub advertised : can adapter step.field ≡ some capability
    pub cost : step.cost ≡ capability.cost
    pub confidence : step.expected_confidence ≡ capability.expected_confidence
    pub provider : step.provider ≡ adapter.name
    pub canonical : field_valid step.field ≡ true

  step_of-IsOffered :
      (f : Field) (a : Adapter F W) (o : Option (Capability F))
      → Among a all
      → field_valid f ≡ true
      → can a f ≡ o
      → All IsOffered (step_of fl s f a o)
  unfolding step_of
  step_of-IsOffered f a none m v e = tt
  step_of-IsOffered f a (some c) m v e = (
    record {
      adapter = a;
      among = m;
      capability = c;
      advertised = e;
      cost = refl;
      confidence = refl;
      provider = refl;
      canonical = v;
    },
    tt,
  )

  weaken :
      (as' : List (Adapter F W)) (b : Adapter F W)
      → ((a : Adapter F W) → Among a (b ∷ as') → Among a all)
      → (a : Adapter F W) → Among a as'
      → Among a all
  weaken as' b h a m = h a (there m)

  offers-IsOffered :
      (f : Field) (as' : List (Adapter F W))
      → field_valid f ≡ true
      → ((a : Adapter F W) → Among a as' → Among a all)
      → All IsOffered (offers fl s f as')
  unfolding offers
  offers-IsOffered f [] v h = tt
  offers-IsOffered f (a ∷ as') v h =
      All-append IsOffered (step_of fl s f a (can a f)) (offers fl s f as')
        (step_of-IsOffered f a (can a f) (h a here) v refl)
        (offers-IsOffered f as' v (weaken as' a h))

  module _ {R : Type 0} (scorer : Option (String → Field → F → R → F × R)) where
    sort_steps-IsOffered :
        (known : Dict F) (steps : List (Step F))
        → All IsOffered steps
        → All IsOffered (sort_steps fl s scorer known steps)
    unfolding sort_steps
    sort_steps-IsOffered known steps h =
        All-Permᴰ IsOffered (Permᴰ.symm (sort_by-Permᴰ (goes_before fl s scorer known) steps)) h

    plan_field-IsOffered :
        (f : Field) (steps : List (Step F)) (p : Plan F) (r : R)
        → All IsOffered steps
        → Each (All IsOffered) p.by_field
        → Each (All IsOffered) (plan_field fl s scorer f steps p r).0.by_field
    unfolding plan_field
    plan_field-IsOffered f [] p r h k = k
    plan_field-IsOffered f (step ∷ steps) p r h k =
        Each-put (All IsOffered) p.by_field f _ k
          (sort_steps-IsOffered (scores fl s scorer (step ∷ steps) f [] r).0 (step ∷ steps) h)

    plan_fields-IsOffered :
        (want : List Field) (p : Plan F) (r : R)
        → Each (All IsOffered) p.by_field
        → Each (All IsOffered) (plan_fields fl s scorer all want p r).0.by_field
    unfolding plan_fields
    plan_fields-IsOffered [] p r k = k
    plan_fields-IsOffered (f ∷ fs) p r k = elim (Bool-cases (field_valid f)) [
      | inr q ↦ rw (q, plan_fields) (plan_fields-IsOffered fs p r k)
      | inl q ↦
          let (p', r') = plan_field fl s scorer f (offers fl s f all) p r in
          rw (q, plan_fields)
            (plan_fields-IsOffered fs p' r' (
              plan_field-IsOffered f (offers fl s f all) p r (offers-IsOffered f all q (λ a m. m))
                k))
    ]

    -- Every step of a plan is for a canonical field, and names a provider that advertises that
    -- field, at the cost and the confidence that it advertises, whatever the scorer says.
    pub make_plan-IsOffered :
        (want : List Field) (r : R)
        → Each (All IsOffered) (make_plan fl s scorer all want r).0.by_field
    unfolding make_plan
    make_plan-IsOffered want r = plan_fields-IsOffered want _ r tt
