-- ===== src/Dash/Routing/Resolve.antt =====
-- `Resolve` of internal/dash/routing/resolve.go: up to eight policies, the most specific first.
use waterfall.Prelude.{
  ℤ, String, ◌==◌, ◌||◌, Bool, Option, none, some, List, [], ◌∷◌, Dict, get, put, if◌then◌else◌,
}

-- `ScopeLevel`.
pub data ScopeLevel : Type 0 where
  tenant_product_country tenant_product tenant_country tenant_default platform_product_country
        platform_product platform_country platform_default :
      ScopeLevel

-- `levelOrder`.
abbrev pub level_order : List ScopeLevel
level_order =
    tenant_product_country ∷ tenant_product ∷ tenant_country ∷ tenant_default
    ∷ platform_product_country ∷ platform_product ∷ platform_country ∷ platform_default ∷ []

-- `Override`.
pub record Override : Type 0 where
  pub mode : String
  pub priority : Option ℤ
  pub key_pool : String

-- What `Resolve` reads of a `Policy`: the thresholds, the order, and the overrides by provider.
pub record Policy (C : Type 0) : Type 0 where
  pub confidence_target : Option C
  pub min_confidence : Option C
  pub max_cost_per_field : Option ℤ
  pub max_cost_per_record : Option ℤ
  pub order : List String
  pub provider_overrides : Dict Override

-- `Resolved`, and `ResolvedMode` with an override for its value.
pub record Resolved (A : Type 0) : Type 0 where
  pub value : A
  pub source : ScopeLevel

-- `Effective`.
pub record Effective (C : Type 0) : Type 0 where
  pub confidence_target : Option (Resolved C)
  pub min_confidence : Option (Resolved C)
  pub max_cost_per_field : Option (Resolved ℤ)
  pub max_cost_per_record : Option (Resolved ℤ)
  pub order : Option (Resolved (List String))
  pub provider_modes : Dict (Resolved Override)

-- A setting that is open yet is taken from the level, where the level defines it.
unfoldable pub settle :
    {A : Type 0} → ScopeLevel → Option (Resolved A) → Option A → Option (Resolved A)
settle l (some r) o = some r
settle l none none = none
settle l none (some a) = some (record { value = a; source = l })

-- A list that is not empty.
unfoldable pub non_empty : List String → Option (List String)
non_empty [] = none
non_empty (x ∷ xs) = some (x ∷ xs)

unfoldable pub is_transparent : Override → Bool
is_transparent o = o.mode == "" || o.mode == "inherit"

unfoldable pub settle_mode :
    ScopeLevel
    → String
    → Override
    → Option (Resolved Override)
    → Dict (Resolved Override)
    → Dict (Resolved Override)
settle_mode l id o (some r) modes = modes
settle_mode l id o none modes =
    if is_transparent o then modes else put modes id (record { value = o; source = l })

-- The loop over the overrides of a level.
unfoldable pub settle_modes :
    ScopeLevel → Dict Override → Dict (Resolved Override) → Dict (Resolved Override)
unfolding settle_mode
settle_modes l [] modes = modes
settle_modes l ((id, o) ∷ os) modes = settle_modes l os (settle_mode l id o (get modes id) modes)

module _ {C : Type 0} where
  -- One turn of the loop over the levels.
  unfoldable pub settle_level : ScopeLevel → Option (Policy C) → Effective C → Effective C
  unfolding settle non_empty settle_modes
  settle_level l none e = e
  settle_level l (some p) e = record {
    confidence_target = settle l e.confidence_target p.confidence_target;
    min_confidence = settle l e.min_confidence p.min_confidence;
    max_cost_per_field = settle l e.max_cost_per_field p.max_cost_per_field;
    max_cost_per_record = settle l e.max_cost_per_record p.max_cost_per_record;
    order = settle l e.order (non_empty p.order);
    provider_modes = settle_modes l p.provider_overrides e.provider_modes;
  }

  unfoldable pub settle_levels :
      (ScopeLevel → Option (Policy C)) → List ScopeLevel → Effective C → Effective C
  unfolding settle_level
  settle_levels active [] e = e
  settle_levels active (l ∷ ls) e = settle_levels active ls (settle_level l (active l) e)

  abbrev pub undecided : Effective C
  undecided = record {
    confidence_target = none;
    min_confidence = none;
    max_cost_per_field = none;
    max_cost_per_record = none;
    order = none;
    provider_modes = [];
  }

  -- `Resolve`; the map of the active policies is a function.
  unfoldable pub resolve : (ScopeLevel → Option (Policy C)) → Effective C
  unfolding settle_levels
  resolve active = settle_levels active level_order undecided
