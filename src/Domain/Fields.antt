-- ===== src/Domain/Fields.antt =====
-- internal/domain/field.go: the canonical field vocabulary, confidences and credits.
use waterfall.Prelude.{ℤ, String, Bool, true, false, List, [], ◌∷◌, ◌==◌, if◌then◌else◌}

-- `Field` is a named string.
abbrev pub Field : Type 0
Field = String

-- `Credits` is an `int64`.
abbrev pub Credits : Type 0
Credits = ℤ

-- `canonicalFields`, in the order of the source.
abbrev pub canonical_fields : List Field
canonical_fields =
    "work_email" ∷ "personal_email" ∷ "email_status" ∷ "mobile_phone" ∷ "direct_dial"
    ∷ "office_phone" ∷ "phone_status" ∷ "linkedin_url" ∷ "job_title" ∷ "seniority" ∷ "department"
    ∷ "company_domain" ∷ "company_name" ∷ "employee_count" ∷ "industry" ∷ "company_revenue"
    ∷ "funding_stage" ∷ "company_founded_year" ∷ "company_hq_country" ∷ "company_hq_city"
    ∷ "company_type" ∷ "company_linkedin_url" ∷ "company_phone" ∷ "naics" ∷ "sic" ∷ "duns_number"
    ∷ "technographics" ∷ "intent_topics" ∷ "intent_score" ∷ "buying_signal" ∷ "first_name"
    ∷ "last_name" ∷ "full_name" ∷ "twitter_url" ∷ "facebook_url" ∷ "github_url" ∷ "crunchbase_url"
    ∷ "company_ticker" ∷ "total_funding_usd" ∷ []

unfoldable pub contains : List String → String → Bool
contains [] f = false
contains (g ∷ gs) f = if g == f then true else contains gs f

unfoldable pub field_valid : Field → Bool
field_valid f = contains canonical_fields f

-- IEEE floats are not modelled by a type of their own: the operations that the code uses of them
-- are a parameter. `lt`, `le` and `eq` are the comparisons, false where an operand is NaN.
pub record Float : Type 1 where
  pub F : Type 0
  pub float_zero : F
  pub float_one : F
  pub million : F
  pub neg_inf : F
  pub pos_inf : F
  pub lt : F → F → Bool
  pub le : F → F → Bool
  pub eq : F → F → Bool
  pub add : F → F → F
  pub sub : F → F → F
  pub mul : F → F → F
  pub div : F → F → F
  pub log : F → F
  pub exp : F → F
  pub neg : F → F
  pub of_int : ℤ → F

-- `Clamp`.
module _ (fl : Float) where
  open fl use {F, float_zero, float_one, lt}

  unfoldable pub clamp : F → F
  clamp c = if lt c float_zero then float_zero else if lt float_one c then float_one else c
