-- ===== src/Dash/Rotation/Parked.antt =====
-- What becomes of a key that was stopped in its row alone: internal/dash/rotation.
use waterfall.Prelude.{ℕ, ◌≡◌, refl, Bool, true, false, [], ◌∷◌, none}
use waterfall.Domain.Errors.{quota}
use waterfall.Dash.Rotation.Triggers.{
  active, probing, Key, mark_status, apply_edge, record_outcome, reactivate, reports, reactivates,
  act, acts, legal, by_row, persist_cols,
}

module _ {W : Type 0} (sql_ok : W → Bool × W) (threshold : ℕ) where
  activated :
      ((w : W) → (sql_ok w).0 ≡ true)
      → (k : Key W)
      → (apply_edge sql_ok threshold probing active none false k).1.row.status ≡ active
  unfolding apply_edge legal persist_cols
  activated works k = rw (works k.world) refl

  -- A key that was stopped in its row alone does not stay so: while the pool still holds it as
  -- active, a call that reports an ended quota and a reactivation make its row active, whatever the
  -- row said. All writes work.
  pub stale_status_revives :
      (k : Key W)
      → ((w : W) → (sql_ok w).0 ≡ true)
      → k.status ≡ active
      → (acts sql_ok threshold
          (reports (record { works = false; class = quota }) ∷ reactivates ∷ [])
          k).row.status
        ≡ active
  unfolding acts act record_outcome apply_edge legal mark_status persist_cols reactivate by_row
  stale_status_revives k works e = rw (e, works, works, works) (activated works _)
