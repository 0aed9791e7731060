-- ===== src/Examples/Runs.antt =====
-- The theorems on `Run` of internal/engine/engine.go, applied.
use waterfall.Prelude.{
  ℕ, refl, ap, ◌==◌, arith, ◌≡◌, ◌≢◌, String, Bool, true, false, ltb, get, ◌+ℤ◌, [], ◌∷◌, Each, All,
}
use waterfall.Domain.Errors.{Result, ok, err}
use waterfall.Domain.Requests.{idempotency_key}
use waterfall.Tenant.{tenant_id}
use waterfall.Store.Memory.{history_of, committed_of}
use waterfall.Store.Isolation.{op_lookup, perform}
use waterfall.Store.Provenance.{IsProven}
use waterfall.Engine.Types.{RunState}
use waterfall.Engine.Fill.Account.{IsCap, IsPriced, IsWithin}
use waterfall.Engine.Fill.Replay.{IsReplay}
use waterfall.Engine.Run.{run_plan}
use waterfall.Engine.Run.Cost.{Accounts, run_plan-Accounts}
use waterfall.Engine.Run.Replay.{AllOnRecord, run_plan-IsReplay}
use waterfall.Engine.Gates.{run_plan-isolated, run_plan-IsProven}
use waterfall.Examples.Data.{
  percent, ticking, texts, engine, request, plan, as_tenant, start, emails,
}

capped : IsCap request.cost_ceiling
capped = (omega arith, (omega arith, omega arith))

priced : Each (All (IsPriced request.cost_ceiling)) plan.by_field
unfolding ◌+ℤ◌
priced = (
  ((omega arith, (omega arith, omega arith)), ((omega arith, (omega arith, omega arith)), tt)),
  tt,
)

within : IsWithin "t1" request.job_id request.cost_ceiling start
unfolding committed_of get
within = record { nonneg = omega arith; capped = omega arith }

is_t1 : tenant_id (as_tenant "t1") ≡ ok "t1"
unfolding tenant_id
is_t1 = refl

run_plan-Accounts_example :
    Accounts percent ticking texts engine request plan capped priced "t1" start
      (run_plan percent ticking texts engine (as_tenant "t1") request plan start).1
run_plan-Accounts_example =
    run_plan-Accounts percent ticking texts engine request plan capped priced "t1" (as_tenant "t1")
      start is_t1 within

abbrev recorded : RunState ℕ ℕ
recorded = record start {
  store = record {
    idempotency = ("t1", ("digest", emails) ∷ []) ∷ [];
    committed = [];
    versions = [];
  };
}

on_record : AllOnRecord percent ticking texts engine request plan "t1" recorded plan.order
unfolding idempotency_key get
on_record = (((emails, refl), ((emails, refl), tt)), tt)

run_plan-IsReplay_example :
    IsReplay recorded
      (run_plan percent ticking texts engine (as_tenant "t1") request plan recorded).1
run_plan-IsReplay_example =
    run_plan-IsReplay percent ticking texts engine request plan "t1" (as_tenant "t1") recorded is_t1
      on_record

start-IsProven : IsProven start.store
unfolding history_of get
start-IsProven = record { at = λ t j f. tt }

run_plan-IsProven_example :
    IsProven (run_plan percent ticking texts engine (as_tenant "t1") request plan start).1.store
run_plan-IsProven_example =
    run_plan-IsProven percent ticking texts engine request plan (as_tenant "t1") start
      start-IsProven

names_t2 : Result String → Bool
names_t2 (ok t) = t == "t2"
names_t2 (err e) = false

not_t2 : tenant_id (as_tenant "t1") ≢ ok "t2"
unfolding tenant_id names_t2
not_t2 e = let clash : false ≡ true = ap names_t2 e in ground arith

is_t2 : tenant_id (as_tenant "t2") ≡ ok "t2"
unfolding tenant_id
is_t2 = refl

run_plan-isolated_example :
    (perform ltb
      (as_tenant "t2")
      (op_lookup "digest")
      (run_plan percent ticking texts engine (as_tenant "t1") request plan start).1.store).0
    ≡ (perform ltb (as_tenant "t2") (op_lookup "digest") start.store).0
run_plan-isolated_example =
    run_plan-isolated percent ticking texts engine request plan (as_tenant "t1") start
      (as_tenant "t2") "t2" (op_lookup "digest") is_t2 not_t2
