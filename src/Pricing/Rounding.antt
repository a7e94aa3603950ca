-- ===== src/Pricing/Rounding.antt =====
-- `round_to_step` of src/core/pricing.py: a size on the grid of the instrument's step.
use sibilla.Base.{Text, text, ◌=?◌, if◌then◌else◌}
use sibilla.Base.Int.{ℤ, neg_ℤ}
use sibilla.Float.{Float, ◌⊗◌, ◌⊘◌, ◌≤?◌, nought}

module _ {W : Type 0} ⦃F : Float W⦄ where
  -- The number of whole steps, by the direction.
  unfoldable pub truncated_units : W → Text → ℤ
  truncated_units ratio direction =
      if direction =? text "down"
      then F.trunc ratio
      else (if direction =? text "up" then neg_ℤ (F.floor (F.neg ratio)) else F.nearest ratio)

  unfoldable pub round_to_step : W → W → Text → W
  unfolding truncated_units
  round_to_step value step direction =
      if step ≤? nought
      then value
      else F.round 10 (F.of_int (truncated_units (value ⊘ step) direction) ⊗ step)
