-- ===== src/Domain/Errors.antt =====
-- internal/domain/errors.go: the error classes, and Go errors as chains of wrapped values.
use waterfall.Prelude.{
  arith, ap, String, Bool, true, false, Option, none, some, ◌≡◌, refl, ◌⊎◌, inl, inr,
}

pub data ErrorClass : Type 0 where
  unknown auth rate_limit transient not_found bad_request quota provider_down : ErrorClass

unfoldable pub class_name : ErrorClass → String
class_name auth = "AUTH"
class_name rate_limit = "RATE_LIMIT"
class_name transient = "TRANSIENT"
class_name not_found = "NOT_FOUND"
class_name bad_request = "BAD_REQUEST"
class_name quota = "QUOTA"
class_name provider_down = "PROVIDER_DOWN"
class_name unknown = "UNKNOWN"

unfoldable pub retryable : ErrorClass → Bool
retryable rate_limit = true
retryable transient = true
retryable provider_down = true
retryable _ = false

-- A Go error. `provider_error` is a `*ProviderError`; `breaker_open` is the package's one shared
-- `ErrBreakerOpen`, itself a `*ProviderError`; `wrapped` is any other value with an `Unwrap`;
-- `panicked` stands for a panic, which ends the call as an error would.
pub data GoError : Type 0 where
  provider_error : String → ErrorClass → GoError → GoError
  breaker_open : GoError
  wrapped : String → GoError → GoError
  no_principal : GoError
  ceiling_exceeded : GoError
  invalid_field_value : GoError
  deadline_exceeded : GoError
  ssrf_blocked : GoError
  panicked : GoError
  other : String → GoError

-- `errors.As(err, &pe)`: the first `*ProviderError` of the chain.
unfoldable pub find_provider_error : GoError → Option GoError
find_provider_error (provider_error n c e) = some (provider_error n c e)
find_provider_error breaker_open = some breaker_open
find_provider_error (wrapped s e) = find_provider_error e
find_provider_error _ = none

-- `errors.Is(err, context.DeadlineExceeded)`.
unfoldable pub is_deadline : GoError → Bool
is_deadline (provider_error n c e) = is_deadline e
is_deadline (wrapped s e) = is_deadline e
is_deadline deadline_exceeded = true
is_deadline _ = false

-- The class that a `*ProviderError` carries; `ErrBreakerOpen` was made with PROVIDER_DOWN.
unfoldable pub class_field : GoError → ErrorClass
class_field (provider_error n c e) = c
class_field breaker_open = provider_down
class_field _ = transient

class_found : Option GoError → ErrorClass
class_found none = transient
class_found (some pe) = class_field pe

-- `ClassOf`; a nil error is `none`.
unfoldable pub class_of : Option GoError → ErrorClass
unfolding class_found class_field find_provider_error
class_of none = unknown
class_of (some e) = class_found (find_provider_error e)

-- A call that returns a value or an error.
pub data Result {ℓ} (A : Type ℓ) : Type ℓ where
  ok : A → Result A
  err : GoError → Result A

pub Result-cases {ℓ} :
    {A : Type ℓ} (r : Result A) → ((e : GoError) × (r ≡ err e)) ⊎ ((a : A) × (r ≡ ok a))
Result-cases (ok a) = inr (a, refl)
Result-cases (err e) = inl (e, refl)

-- `if err != nil { return err }`, and go on with the value.
unfoldable pub and_then {ℓ κ} : {A : Type ℓ} {B : Type κ} → Result A → (A → Result B) → Result B
and_then (err e) k = err e
and_then (ok a) k = k a

-- `if !test { return err }`.
unfoldable pub require : Bool → GoError → Result (Unit {0})
require true e = ok tt
require false e = err e

pub and_then-ok {ℓ κ} :
    {A : Type ℓ} {B : Type κ} (r : Result A) (k : A → Result B) (b : B)
    → and_then r k ≡ ok b
    → (a : A) × (r ≡ ok a) × (k a ≡ ok b)
unfolding and_then
and_then-ok (err e) k b h = absurd (ground (arith, h))
and_then-ok (ok a) k b h = (a, refl, h)

pub require-ok : (t : Bool) (e : GoError) (u : Unit {0}) → require t e ≡ ok u → t ≡ true
unfolding require
require-ok true e u h = refl
require-ok false e u h = absurd (ground (arith, h))

pub ok-injective {ℓ} : {A : Type ℓ} (a b : A) → ok a ≡ ok b → a ≡ b
ok-injective {A = A} a b h = ap value h
  where
    value : Result A → A
    value (ok x) = x
    value (err e) = a
