-- ===== src/Engine/Fuse.antt =====
-- internal/engine/fuse.go: fusion of agreeing confidences in log-odds, and the stop threshold.
use waterfall.Prelude.{Bool, false, [], ◌∷◌, Dict, if◌then◌else◌}
use waterfall.Domain.Fields.{Float, clamp}

module _ (fl : Float) where
  open fl use {F, float_zero, float_one, neg_inf, pos_inf, lt, le, add, sub, div, log, exp, neg}

  unfoldable pub logit : F → F
  logit p =
      if le p float_zero
      then neg_inf
      else if le float_one p
      then pos_inf
      else log (div p (sub float_one p))

  unfoldable pub sigmoid : F → F
  sigmoid x = div float_one (add float_one (exp (neg x)))

  -- `math.IsInf(x, -1)`.
  abbrev pub is_neg_inf : F → Bool
  is_neg_inf x = le x neg_inf

  -- `fuseAgreeing`.
  unfoldable pub fuse_agreeing : F → F → F
  unfolding logit sigmoid
  fuse_agreeing prior obs =
      let lp = logit (clamp fl prior) in
      let lo = logit (clamp fl obs) in
      if is_neg_inf lp
      then clamp fl obs
      else if is_neg_inf lo
      then clamp fl prior
      else clamp fl (sigmoid (add lp lo))

  unfoldable pub met : F → F → Bool
  met fused target = if le target float_zero then false else le target fused

  -- `bestConfidence`, from engine.go: the loop over the values of the map.
  best_above : F → Dict F → F
  best_above best [] = best
  best_above best ((k, c) ∷ rest) = best_above (if lt best c then c else best) rest

  unfoldable pub best_confidence : Dict F → F
  unfolding best_above
  best_confidence values = best_above float_zero values
