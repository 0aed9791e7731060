-- ===== src/Router/Types.antt =====
-- The types of internal/router/plan.go.
use waterfall.Prelude.{String, List, Dict}
use waterfall.Domain.Fields.{Field, Credits}

pub record Step (C : Type 0) : Type 0 where
  pub field : Field
  pub provider : String
  pub cost : Credits
  pub expected_confidence : C

pub record Plan (C : Type 0) : Type 0 where
  pub by_field : Dict (List (Step C))
  pub order : List Field
