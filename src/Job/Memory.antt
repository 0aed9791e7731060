-- ===== src/Job/Memory.antt =====
-- `MemoryStore` of internal/job/store.go. A method is one step; `Put` and `Get` copy the job.
use waterfall.Prelude.{String, Option, Dict, get2, put2}
use waterfall.Domain.Errors.{Result, ok, err}
use waterfall.Tenant.{Context, tenant_id}
use waterfall.Job.Types.{Job, JobStore}

abbrev pub Jobs : Type 0 → Type 0
Jobs C = Dict (Dict (Job C))

module _ {C : Type 0} where
  put_as : Result String → Job C → Jobs C → Result (Unit {0}) × Jobs C
  put_as (err e) j m = (err e, m)
  put_as (ok t) j m = (ok tt, put2 m t j.id j)

  unfoldable pub memory_put : Context → Job C → Jobs C → Result (Unit {0}) × Jobs C
  unfolding put_as
  memory_put ctx j m = put_as (tenant_id ctx) j m

  get_as : Result String → String → Jobs C → Result (Option (Job C)) × Jobs C
  get_as (err e) id m = (err e, m)
  get_as (ok t) id m = (ok (get2 m t id), m)

  unfoldable pub memory_get : Context → String → Jobs C → Result (Option (Job C)) × Jobs C
  unfolding get_as
  memory_get ctx id m = get_as (tenant_id ctx) id m

  abbrev pub memory_store : JobStore C (Jobs C)
  memory_store = record { put_job = memory_put; get_job = memory_get }
