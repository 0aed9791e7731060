-- ===== src/Engine/Fill/Cost.antt =====
-- The cost of a turn of `fillField` (gate G4): reserved before the call, kept only for a value.
use waterfall.Prelude.{
  ℤ, pos, ◌+ℤ◌, ◌-ℤ◌, ◌≤ℤ◌, IsInt64, int_laws, ◌≡◌, sym, ◌∙◌, ap, ◌⊎◌, inl, inr, String, none, some,
  List, [], ◌∷◌, ◌++◌, get, Option-cases, arith,
}
use waterfall.Domain.Errors.{Result, ok, err}
use waterfall.Domain.Fields.{Field, Credits, Float}
use waterfall.Domain.Values.{Values, Observation}
use waterfall.Domain.Requests.{EnrichmentRequest, Strings}
use waterfall.Tenant.{Context, tenant_id}
use waterfall.Store.Memory.{committed_of}
use waterfall.Store.Ceiling.{release_spend, released}
use waterfall.Store.Spend.{committed_of-record, committed_of-append, record_result-ok}
use waterfall.Provider.Env.{Env, Adapter}
use waterfall.Router.Types.{Step}
use waterfall.Engine.Types.{Engine, Fill, Event, called, learned, filled}
use waterfall.Engine.Fill.{
  integrate, integrate_found, integrate_option, refund, bill, after_call, paid_call, spend,
}

-- The credits of the values that a run reports as filled.
pub billed : List Event → ℤ
billed [] = pos 0
billed (filled field provider cost ∷ es) = cost +ℤ billed es
billed (called provider field error has ∷ es) = billed es
billed (learned provider field success ∷ es) = billed es

+ℤ_nil : (a : ℤ) → pos 0 +ℤ a ≡ a
+ℤ_nil a = omega int_laws

+ℤ_cancel : (a b : ℤ) → a +ℤ b -ℤ b ≡ a
+ℤ_cancel a b = omega int_laws

+ℤ_regroup : (a b c : ℤ) → a +ℤ (b +ℤ c) ≡ a +ℤ b +ℤ c
+ℤ_regroup a b c = omega int_laws

pub billed-append : (xs ys : List Event) → billed (xs ++ ys) ≡ billed xs +ℤ billed ys
unfolding billed
billed-append [] ys = sym (+ℤ_nil (billed ys))
billed-append (filled field provider cost ∷ es) ys =
    ap (λ t. cost +ℤ t) (billed-append es ys) ∙ +ℤ_regroup cost (billed es) (billed ys)
billed-append (called provider field error has ∷ es) ys = billed-append es ys
billed-append (learned provider field success ∷ es) ys = billed-append es ys

module _ {W : Type 0} (fl : Float) (env : Env W) (s : Strings) (e : Engine fl.F W) (ctx : Context)
    (tenant : String) (req : EnrichmentRequest fl.F) (field : Field)
    (as_tenant : tenant_id ctx ≡ ok tenant) where
  -- The spend of the job.
  abbrev spent : Fill fl.F W → ℤ
  spent f = committed_of f.run.store tenant req.job_id

  pub integrate-some :
      (provider key : String) (cost : Credits) (f : Fill fl.F W) (res : Values fl.F)
      (obs : Observation fl.F)
      → get res field ≡ some obs
      → integrate fl env s e ctx tenant req field provider res key cost f
        ≡ integrate_found fl env s e ctx tenant req field provider obs key cost f
  unfolding integrate integrate_option
  integrate-some provider key cost f res obs q = rw q

  pub integrate-none :
      (provider key : String) (cost : Credits) (f : Fill fl.F W) (res : Values fl.F)
      → get res field ≡ none
      → integrate fl env s e ctx tenant req field provider res key cost f ≡ (ok tt, f)
  unfolding integrate integrate_option
  integrate-none provider key cost f res q = rw q

  -- From a reservation of `cost` over a spend of `base`: the spend ends at `base` with nothing
  -- more billed, or stays at the sum with `cost` more billed.
  module _ (base bills cost : ℤ) where
    abbrev Reserved : Fill fl.F W → Type 0
    Reserved f = (spent f ≡ base +ℤ cost) × (billed f.run.events ≡ bills)

    abbrev Settled : Fill fl.F W → Type 0
    Settled f =
        ((spent f ≡ base) × (billed f.run.events ≡ bills))
        ⊎ ((spent f ≡ base +ℤ cost) × (billed f.run.events ≡ bills +ℤ cost))

    release_settles : pos 0 ≤ℤ base → pos 0 ≤ℤ cost → released cost (base +ℤ cost) ≡ base
    unfolding ◌+ℤ◌ ◌-ℤ◌
    release_settles h k = ground arith

    -- The base is a spend within a ceiling, and the cost is no refund.
    abbrev IsReservable : Type 0
    IsReservable = (pos 0 ≤ℤ base) × (pos 0 ≤ℤ cost) × (IsInt64 base)

    module _ (range : IsReservable) where
      refund-Settled :
          (f : Fill fl.F W) → Reserved f → Settled (refund fl env s e ctx tenant req field cost f).1
      unfolding refund
      refund-Settled f (h, b) =
          let settles = release_settles range.0 range.1 in
          let fits : IsInt64 (spent f -ℤ cost) = rw (h, +ℤ_cancel base cost) range.2 in
          inl (
            release_spend f.run.store tenant req.job_id cost ctx as_tenant range.1 fits
                ∙ ap (released cost) h
                ∙ settles,
            b,
          )

      -- A value that is integrated at a cost is billed at that cost.
      pub integrate_found-Settled :
          (provider key : String) (obs : Observation fl.F) (f : Fill fl.F W)
          → Reserved f
          → Settled (integrate_found fl env s e ctx tenant req field provider obs key cost f).1
      unfolding integrate_found billed
      integrate_found-Settled provider key obs f (h, b) = inr (
        committed_of-append ctx f.run.store req.subject.id _ tenant req.job_id ∙ h,
        billed-append f.run.events (filled field provider cost ∷ []) ∙ rw b (omega int_laws),
      )

      bill-Settled :
          (step : Step fl.F) (key : String) (res : Values fl.F) (f : Fill fl.F W)
          → step.cost ≡ cost
          → Reserved f
          → Settled (bill fl env s e ctx tenant req field step key res f (ok tt)).1
      unfolding bill
      bill-Settled step key res f same r = elim (Option-cases (get res field)) [
        | inl q ↦ rw (q, same, bill) (refund-Settled f r)
        | inr (obs, q) ↦
            rw (q, same, bill)
              (rw (integrate-some step.provider key cost f res obs q)
                (integrate_found-Settled step.provider key obs f r))
      ]

      after_call-Settled :
          (step : Step fl.F) (key : String) (r : Result (Values fl.F)) (f : Fill fl.F W)
          → step.cost ≡ cost
          → Reserved f
          → Settled (after_call fl env s e ctx tenant req field step key r f).1
      unfolding after_call
      after_call-Settled step key (err x) f same r = rw same (refund-Settled f r)
      after_call-Settled step key (ok res) f same (h, b) =
          rw (record_result-ok ctx f.run.store tenant key res as_tenant) (
            bill-Settled step key res _ same
              (committed_of-record ctx f.run.store key res tenant req.job_id ∙ h, b))

      pub paid_call-Settled :
          (step : Step fl.F) (a : Adapter fl.F W) (key : String) (f : Fill fl.F W)
          → step.cost ≡ cost
          → Reserved f
          → Settled (paid_call fl env s e ctx tenant req field step a key f).1
      unfolding paid_call spend billed
      paid_call-Settled step a key f same (h, b) =
          after_call-Settled step key _ _ same
            (h, billed-append f.run.events _ ∙ rw b (omega int_laws))
