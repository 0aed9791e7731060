-- ===== src/Examples/Policies.antt =====
-- The theorem on internal/dash/routing/resolve.go, applied.
use waterfall.Prelude.{ℕ, pos, refl, arith, String, ◌≡◌, Option, none, some, [], ◌∷◌, get}
use mathlib.Core.Path.{subst}
use mathlib.Core.Option.{some-injective}
use waterfall.Dash.Routing.Resolve.{
  ScopeLevel, tenant_product_country, tenant_product, tenant_country, tenant_default,
  platform_product_country, platform_product, platform_country, platform_default, Override, Policy,
  resolve,
}
use waterfall.Dash.Routing.Folded.{
  precedence, listed, first_defined, spoken, IsMap, resolve-first_defined,
}

abbrev mode_only : String → Override
mode_only m = record { mode = m; priority = none; key_pool = "" }

-- A tenant that leaves "acme" to the platform and turns "zeta" off.
abbrev of_tenant : Policy ℕ
of_tenant = record {
  confidence_target = none;
  min_confidence = some 60;
  max_cost_per_field = none;
  max_cost_per_record = some (pos 90);
  order = [];
  provider_overrides = ("acme", mode_only "inherit") ∷ ("zeta", mode_only "off") ∷ [];
}

abbrev of_platform : Policy ℕ
of_platform = record {
  confidence_target = some 85;
  min_confidence = some 50;
  max_cost_per_field = some (pos 10);
  max_cost_per_record = some (pos 40);
  order = "zeta" ∷ "acme" ∷ [];
  provider_overrides = ("zeta", mode_only "on") ∷ ("acme", mode_only "on") ∷ [];
}

abbrev two_levels : ScopeLevel → Option (Policy ℕ)
two_levels tenant_product_country = none
two_levels tenant_product = none
two_levels tenant_country = none
two_levels tenant_default = some of_tenant
two_levels platform_product_country = none
two_levels platform_product = none
two_levels platform_country = none
two_levels platform_default = some of_platform

-- A level without a policy has none.
no_policy : (p : Policy ℕ) → none ≡ some p → IsMap p.provider_overrides
no_policy p h = absurd (ground (arith, h))

moved : (q p : Policy ℕ) → some q ≡ some p → IsMap q.provider_overrides → IsMap p.provider_overrides
moved q p h m = subst (λ r. IsMap r.provider_overrides) (some-injective q p h) m

two_levels-IsMap :
    (l : ScopeLevel) (p : Policy ℕ) → two_levels l ≡ some p → IsMap p.provider_overrides
unfolding get
two_levels-IsMap tenant_product_country p h = no_policy p h
two_levels-IsMap tenant_product p h = no_policy p h
two_levels-IsMap tenant_country p h = no_policy p h
two_levels-IsMap tenant_default p h = moved of_tenant p h (refl, (refl, tt))
two_levels-IsMap platform_product_country p h = no_policy p h
two_levels-IsMap platform_product p h = no_policy p h
two_levels-IsMap platform_country p h = no_policy p h
two_levels-IsMap platform_default p h = moved of_platform p h (refl, (refl, tt))

resolve-first_defined_example :
    let e = resolve two_levels in
    (e.confidence_target ≡ first_defined (λ p. p.confidence_target) two_levels precedence)
    × (e.min_confidence ≡ first_defined (λ p. p.min_confidence) two_levels precedence)
    × (e.max_cost_per_field ≡ first_defined (λ p. p.max_cost_per_field) two_levels precedence)
    × (e.max_cost_per_record ≡ first_defined (λ p. p.max_cost_per_record) two_levels precedence)
    × (e.order ≡ first_defined (λ p. listed p.order) two_levels precedence)
    × (get e.provider_modes "zeta"
        ≡ first_defined (λ p. spoken (get p.provider_overrides "zeta")) two_levels precedence)
resolve-first_defined_example = resolve-first_defined two_levels two_levels-IsMap "zeta"
