-- ===== src/Provider/Call/Errors.antt =====
-- The backoff of internal/provider/call.go, and the provider that its errors name.
use waterfall.Prelude.{
  ℕ, ◌-◌, ◌*◌, ◌^◌, ◌<◌, ◌≡◌, ◌≢◌, refl, ap, ◌∙◌, pos, ◌≤ℤ◌, pos_part, wrap64_id, String, eq_iff,
  false, some, arith,
}
use waterfall.Domain.Errors.{GoError, provider_error, breaker_open, Result, err}
use waterfall.Domain.Values.{Values}
use waterfall.Tenant.{Context}
use waterfall.Provider.Env.{Env, CallPolicy, Request, Adapter}
use waterfall.Provider.Breaker.{Breaker, allow}
use waterfall.Provider.Call.{CallState, call, backoff_delay, prov_err, named}
use waterfall.Provider.Call.Bounds.{call-rejected}

-- Where the doubled delay is representable and the cap is above 0, the wait before a retry lies
-- between 0 and the cap.
pub backoff_delay_bounds :
    (pol : CallPolicy) (attempt : ℕ)
    → pos 1 ≤ℤ pol.max_backoff
    → pos_part pol.backoff * 2 ^ (attempt - 1) < 2 ^ 63
    → (pos 0 ≤ℤ backoff_delay pol attempt) × (backoff_delay pol attempt ≤ℤ pol.max_backoff)
unfolding backoff_delay
backoff_delay_bounds pol attempt cap small =
    let exact = wrap64_id (pos (pos_part pol.backoff * 2 ^ (attempt - 1))) (small, omega arith) in
    (ground (arith, exact), ground arith)

-- The field `Provider` of the error, as a reader finds it while `ErrBreakerOpen` names `sentinel`.
pub provider_field : String → GoError → String
provider_field sentinel (provider_error n c e) = n
provider_field sentinel breaker_open = sentinel
provider_field sentinel _ = ""

module _ {C W : Type 0} (env : Env W) (ctx : Context) (req : Request) (pol : CallPolicy) where
  -- The first provider whose breaker rejects a call writes its name into the shared
  -- `ErrBreakerOpen`. From then on the same error of any other provider names that first one.
  pub breaker_open_misnamed :
      (a b : Adapter C W) (sa sb : CallState W) (ba bb : Breaker)
      → sa.breaker ≡ some ba
      → (allow env ba sa.world).0 ≡ false
      → sa.sentinel ≡ ""
      → a.name ≢ ""
      → sb.breaker ≡ some bb
      → (allow env bb sb.world).0 ≡ false
      → sb.sentinel ≡ (call env ctx a req pol sa).1.sentinel
      → (e : GoError) × ((call env ctx b req pol sb).0 ≡ err e)
        × (provider_field (call env ctx b req pol sb).1.sentinel e ≡ a.name)
  unfolding prov_err named provider_field
  breaker_open_misnamed a b sa sb ba bb ha ra empty name hb rb passed =
      let first = call-rejected env ctx a req pol sa ba ha ra in
      let second = call-rejected env ctx b req pol sb bb hb rb in
      let written = passed ∙ ap (λ (p : Result (Values C) × CallState W). p.1.sentinel) first in
      rw second (
        breaker_open,
        refl,
        ground (arith, written, eq_iff sa.sentinel "", eq_iff sb.sentinel "", eq_iff a.name ""),
      )
