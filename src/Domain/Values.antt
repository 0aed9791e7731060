-- ===== src/Domain/Values.antt =====
-- internal/domain/provenance.go, and the observations of internal/provider/provider.go.
use waterfall.Prelude.{ℕ, String, Bool, not, ◌&&◌, ◌||◌, ◌==◌, eqb, Dict}
use waterfall.Domain.Fields.{Field, Credits, field_valid}

-- Times are nanoseconds after Go's zero time, which `IsZero` tests for.
abbrev pub Time : Type 0
Time = ℕ

module _ (C : Type 0) where
  pub record Provenance : Type 0 where
    pub provider : String
    pub observed_at : Time
    pub cost_credits : Credits
    pub confidence : C
    pub idempotency_key : String

  pub record FieldValue : Type 0 where
    pub field : Field
    pub value : String
    pub confidence : C
    pub prov : Provenance

  pub record Observation : Type 0 where
    pub value : String
    pub confidence : C

  -- `provider.Result`, by its one field `Values`.
  abbrev pub Values : Type 0
  Values = Dict Observation

module _ {C : Type 0} where
  unfoldable pub provenance_zero : Provenance C → Bool
  provenance_zero p = p.provider == "" || p.idempotency_key == "" || eqb p.observed_at 0

  unfoldable pub field_value_valid : FieldValue C → Bool
  unfolding provenance_zero
  field_value_valid v = field_valid v.field && not (v.value == "") && not (provenance_zero v.prov)
