-- ===== src/Examples/Plans.antt =====
-- The theorem on internal/router/plan.go, applied.
use waterfall.Prelude.{
  ℕ, ap, Bool, true, false, arith, ◌≢◌, Option, none, List, [], ◌∷◌, String, Each, All,
}
use waterfall.Domain.Fields.{Field}
use waterfall.Provider.Env.{Adapter, can}
use waterfall.Router.Planner.{make_plan, offers}
use waterfall.Router.Planner.Planned.{IsOffered, make_plan-IsOffered}
use waterfall.Examples.Data.{percent, texts, answering, failing}

abbrev vendors : List (Adapter ℕ ℕ)
vendors = failing ∷ answering ∷ []

abbrev static : Option (String → Field → ℕ → Unit {0} → ℕ × Unit {0})
static = none

make_plan-IsOffered_example :
    Each
      (All (IsOffered percent texts vendors))
      (make_plan percent texts static vendors ("work_email" ∷ "shoe_size" ∷ []) tt).0.by_field
make_plan-IsOffered_example =
    make_plan-IsOffered percent texts vendors static ("work_email" ∷ "shoe_size" ∷ []) tt

abbrev is_empty : {A : Type 0} → List A → Bool
is_empty [] = true
is_empty (x ∷ xs) = false

offered : offers percent texts "work_email" vendors ≢ []
unfolding offers can
offered e = ground (arith, ap is_empty e)
