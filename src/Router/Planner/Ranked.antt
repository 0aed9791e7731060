-- ===== src/Router/Planner/Ranked.antt =====
-- The order of the steps in a plan of internal/router/plan.go.
use mathlib.Core.List.{Perm}
use waterfall.Prelude.{
  ltb_ℤ, ℤ, pos, leb_ℤ, String, ◌≡◌, Bool, true, false, not, ◌&&◌, Option, some, All, if◌then◌else◌,
  List, [], ◌∷◌, Dict, get, or_else, ◌⊎◌, IsWeakOrder,
}
use waterfall.Domain.Fields.{Field, Float}
use waterfall.Domain.Requests.{Strings}
use waterfall.Provider.Env.{Adapter}
use waterfall.Router.Types.{Step, Plan}
use waterfall.Router.Planner.{density, offers, score_of, scores}

module _ (fl : Float) (s : Strings) where
  open fl use {F, lt, eq}

  -- No NaN: floats are ordered and `==` tells where the order does not; texts are ordered.
  pub record IsOrdered : Type 0 where
    pub floats : IsWeakOrder lt
    pub equal : (a b : F) → eq a b ≡ (not (lt b a) && not (lt a b))
    pub texts : IsWeakOrder s.less

  module _ {R : Type 0} (scorer : Option (String → Field → F → R → F × R)) (known : Dict F) where
    abbrev worth : Step F → F
    worth a = density fl s a (or_else fl.float_zero (get known a.provider))

    abbrev denser : Step F → Step F → Bool
    denser a b = lt (worth b) (worth a)

    abbrev cheaper : Step F → Step F → Bool
    cheaper a b = ltb_ℤ a.cost b.cost

    abbrev named_before : Step F → Step F → Bool
    named_before a b = s.less a.provider b.provider

  -- What an expected confidence is worth at a price, per credit; what is free is worth a million
  -- times as much as for one.
  abbrev pub per_credit : F → ℤ → F
  per_credit score cost =
      if leb_ℤ cost (pos 0) then fl.mul score fl.million else fl.div score (fl.of_int cost)

  -- A step ahead of another, where the providers have these scores: more per credit, or as much at a
  -- lower cost, or as much at the same cost under the lesser name.
  abbrev pub Outranks : (String → F) → Step F → Step F → Type 0
  Outranks score a b =
      let x = per_credit (score a.provider) a.cost in
      let y = per_credit (score b.provider) b.cost in
      (lt y x ≡ true)
      ⊎ ((lt y x ≡ false)
          × (lt x y ≡ false)
          × ((ltb_ℤ a.cost b.cost ≡ true)
              ⊎ ((a.cost ≡ b.cost) × (s.less a.provider b.provider ≡ true))))

  -- No step outranks an earlier one.
  abbrev pub IsRanking : (String → F) → List (Step F) → Type 0
  IsRanking score [] = Unit
  IsRanking score (a ∷ later) = All (λ b. ¬ Outranks score b a) later × IsRanking score later

  module _ {R : Type 0} (scorer : Option (String → Field → F → R → F × R)) where
    -- A state of the scorer that was reached by consulting it.
    pub data IsReached (r : R) : R → Type 0 where
      unasked : IsReached r r
      asked :
          (r' : R) (step : Step F) (f : Field)
          → IsReached r r'
          → IsReached r (score_of fl s scorer scorer step f r').1

    module _ (laws : IsOrdered) (known : Dict F) where
      abbrev score_in : String → F
      score_in provider = or_else fl.float_zero (get known provider)

  module _ {W R : Type 0} (all : List (Adapter F W))
      (scorer : Option (String → Field → F → R → F × R)) (laws : IsOrdered) (r0 : R) where
    -- The steps of a field: those of the adapters that advertise it, ranked by the scores, which were
    -- taken in a state that consulting the scorer has led to.
    abbrev pub IsRanked : Field → List (Step F) → Type 0
    IsRanked f steps =
        Perm steps (offers fl s f all)
        × ((r : R) × IsReached scorer r0 r
            × IsRanking (score_in scorer laws (scores fl s scorer (offers fl s f all) f [] r).0)
                steps)

    -- The plan has such steps for the field.
    abbrev pub Ranks : Plan F → Field → Type 0
    Ranks p f = (steps : List (Step F)) × (get p.by_field f ≡ some steps) × IsRanked f steps

    -- A field of the list.
    abbrev pub IsWanted : Field → List Field → Type 0
    IsWanted f [] = ⊥
    IsWanted f (g ∷ gs) = (g ≡ f) ⊎ IsWanted f gs
