-- ===== src/Pricing/Laws.antt =====
-- src/core/pricing.py: bounds of the rounded sizes and of the Kelly fraction.
use sibilla.Base.{text, refl, ◌≡◌, subst, Bool-cases, inl, inr, arith}
use sibilla.Base.Int.{ℤ, pos}
use sibilla.Float.{Float, IsFloat, ◌⊖◌, ◌⊗◌, ◌⊘◌, ◌≤?◌, ◌≼◌, ◌≺◌, nought, one, fmin, fmax, fabs}
use sibilla.Float.Laws.{
  le_refl, le_of_lt, le-fmax_left, fmax-le, mul_nonneg, div_nonneg, fabs-of_nonneg, nought-le-one,
  sub-le, sub_nonneg, fmin-le_right, mul-le_left,
}
use sibilla.Pricing.{size_from_risk, round_to_step, truncated_units, kelly_fraction}

module _ {W : Type 0} ⦃F : Float W⦄ where
  -- A value down to the step: as it is where there is no step, and otherwise a whole number of steps,
  -- not more of them than the quotient, whose product is rounded to ten places.
  pub record IsStepped (value step size : W) : Type 0 where
    pub units : ℤ
    pub free : step ≼ nought → size ≡ value
    pub few : nought ≺ step → F.of_int units ≼ value ⊘ step
    pub whole : nought ≺ step → size ≡ F.round 10 (F.of_int units ⊗ step)

module _ {W : Type 0} ⦃F : Float W⦄ (L : IsFloat W) where
  pub size_from_risk_nonneg :
      (budget stop vpp : W) → nought ≼ budget → nought ≼ size_from_risk budget stop vpp
  unfolding size_from_risk
  size_from_risk_nonneg budget stop vpp h =
      ground (arith, div_nonneg L budget (fabs stop ⊗ vpp) h, le_refl L nought)

  -- The raw size of what loses something at its stop.
  pub size_from_risk-quotient :
      (budget stop vpp : W)
      → nought ≼ stop
      → nought ≺ stop ⊗ vpp
      → size_from_risk budget stop vpp ≡ budget ⊘ (stop ⊗ vpp)
  unfolding size_from_risk
  size_from_risk-quotient budget stop vpp h k = rw (fabs-of_nonneg L stop h) (rw (k) refl)

  pub round_to_step-IsStepped :
      (value step : W)
      → nought ≼ value
      → IsStepped value step (round_to_step value step (text "down"))
  unfolding round_to_step truncated_units
  round_to_step-IsStepped value step h = record {
    units = F.trunc (value ⊘ step);
    free = λ k. rw (k) refl;
    few = λ k. L.of_int-trunc-le (value ⊘ step) (div_nonneg L value step h k);
    whole = λ k. rw (k) refl;
  }

  pub round_to_step_nonneg :
      (value step : W) → nought ≼ value → nought ≼ round_to_step value step (text "down")
  unfolding round_to_step truncated_units
  round_to_step_nonneg value step h = elim (Bool-cases (step ≤? nought)) [
    | inl free ↦ rw free h
    | inr positive ↦
        let ratio = value ⊘ step in
        let up : nought ≼ ratio = div_nonneg L value step h positive in
        let units : nought ≼ F.of_int (F.trunc ratio) =
          subst (λ t. t ≼ F.of_int (F.trunc ratio)) L.of_int-zero
            (L.of_int_mono (pos 0) (F.trunc ratio) (L.trunc_nonneg ratio up)) in
        let product : nought ≼ F.of_int (F.trunc ratio) ⊗ step =
          mul_nonneg L (F.of_int (F.trunc ratio)) step units (le_of_lt L nought step positive) in
        let none_lost : F.round 10 nought ≡ nought =
          subst (λ t. F.round 10 t ≡ t) L.of_int-zero (L.round-of_int 10 (pos 0)) in
        rw positive (
          subst (λ t. t ≼ F.round 10 (F.of_int (F.trunc ratio) ⊗ step)) none_lost
            (L.round_mono 10 nought (F.of_int (F.trunc ratio) ⊗ step) product))
  ]

  -- The Kelly fraction is a fraction, whatever the probability and the ratio are.
  pub kelly_fraction_bounds :
      (p rr : W) → (nought ≼ kelly_fraction p rr) × (kelly_fraction p rr ≼ one)
  unfolding kelly_fraction
  kelly_fraction_bounds p rr = elim (Bool-cases (rr ≤? nought)) [
    | inl none_won ↦ rw none_won (le_refl L nought, nought-le-one L)
    | inr won ↦
        let prob = fmin (fmax p nought) one in
        let edge = rr ⊗ prob ⊖ (one ⊖ prob) in
        let rr_nonneg : nought ≼ rr = le_of_lt L nought rr won in
        let edge_le : edge ≼ rr =
          L.le_trans edge (rr ⊗ prob) rr
            (sub-le L (rr ⊗ prob) (one ⊖ prob)
              (sub_nonneg L one prob (fmin-le_right L (fmax p nought) one)))
            (mul-le_left L rr prob rr_nonneg (fmin-le_right L (fmax p nought) one)) in
        rw won (
          le-fmax_left L nought (edge ⊘ rr),
          fmax-le L nought (edge ⊘ rr) one (nought-le-one L)
              (subst (λ t. edge ⊘ rr ≼ t) (L.div_self rr won) (L.div_mono edge rr rr won edge_le)),
        )
  ]
