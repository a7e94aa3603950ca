-- ===== src/Risk/Sizing/Laws.antt =====
-- What src/risk/sizing.py computes, for any rounding that keeps the laws of `IsFloat`.
use sibilla.Base.{◌≡◌, refl, arith, ◌⊎◌, inl, inr, Bool-cases, subst, text, ok}
use sibilla.Float.{Float, IsFloat, ◌⊗◌, ◌⊘◌, ◌<?◌, ◌≼◌, ◌≺◌, nought}
use sibilla.Float.Laws.{le_refl, le_of_lt}
use sibilla.Config.{RiskLimits}
use sibilla.Pricing.{size_from_risk, round_to_step}
use sibilla.Pricing.Laws.{
  IsStepped, size_from_risk_nonneg, size_from_risk-quotient, round_to_step-IsStepped,
  round_to_step_nonneg,
}
use sibilla.Risk.Sizing.{
  SizingRequest, SizingResult, risk_budget, stepped_size, final_size, sized, value_per_point_eur,
  compute_size,
}
use sibilla.Risk.Sizing.Caps.{IsNonneg, Within, risk_budget_bounds}

module _ {W : Type 0} ⦃F : Float W⦄ where
  -- What a unit loses at the stop.
  abbrev pub loss_of : SizingRequest W → W
  loss_of r = r.stop_distance ⊗ (r.instrument.value_per_point ⊗ r.fx_rate_to_eur)

  -- A size for a budget: nothing, or at least the minimum and the quotient of the budget by the loss,
  -- down to the step.
  abbrev pub IsSize : SizingRequest W → W → W → Type 0
  IsSize r budget size =
      (size ≡ nought)
      ⊎ ((r.instrument.min_size ≼ size)
          × IsStepped (budget ⊘ loss_of r) r.instrument.size_step size)

  -- A budget under the share of the equity, the absolute cap and the requested risk.
  pub record IsCapped (limits : RiskLimits W) (r : SizingRequest W) (budget : W) : Type 0 where
    pub nonneg : nought ≼ budget
    pub share : budget ≼ r.equity ⊗ limits.max_risk_per_trade
    pub stake : budget ≼ limits.max_stake_abs
    pub requested : Within budget r.requested_risk_eur

  -- What a call that returned has computed.
  pub compute_size-ok :
      (limits : RiskLimits W) (r : SizingRequest W) (s : SizingResult W)
      → compute_size limits r ≡ ok s
      → (nought ≺ r.stop_distance) × (sized (risk_budget limits r) r ≡ s)
  unfolding compute_size
  compute_size-ok limits r s h = ground arith

module _ {W : Type 0} ⦃F : Float W⦄ (L : IsFloat W) where
  stepped_size-IsStepped :
      (budget : W) (r : SizingRequest W)
      → nought ≼ budget
      → nought ≼ r.stop_distance
      → nought ≺ loss_of r
      → (nought ≼ stepped_size budget r)
        × IsStepped (budget ⊘ loss_of r) r.instrument.size_step (stepped_size budget r)
  unfolding stepped_size value_per_point_eur
  stepped_size-IsStepped budget r b s v =
      let unit_value = value_per_point_eur r in
      let raw = size_from_risk budget r.stop_distance unit_value in
      let raw_nonneg : nought ≼ raw = size_from_risk_nonneg L budget r.stop_distance unit_value b in
      let step = r.instrument.size_step in
      (
        round_to_step_nonneg L raw step raw_nonneg,
        subst (λ x. IsStepped x step (round_to_step raw step (text "down")))
            (size_from_risk-quotient L budget r.stop_distance unit_value s v)
            (round_to_step-IsStepped L raw step raw_nonneg),
      )

  -- The size on the grid, or zero below the minimum.
  final_size-IsSize :
      (budget : W) (r : SizingRequest W)
      → nought ≼ budget
      → nought ≼ r.stop_distance
      → nought ≺ loss_of r
      → (nought ≼ final_size budget r) × IsSize r budget (final_size budget r)
  unfolding final_size
  final_size-IsSize budget r b s v =
      let (nonneg, stepped) = stepped_size-IsStepped budget r b s v in
      elim (Bool-cases (stepped_size budget r <? r.instrument.min_size)) [
        | inl small ↦ rw (small, final_size) (le_refl L nought, inl refl)
        | inr enough ↦ rw (enough, final_size) (nonneg, inr (ground arith, stepped))
      ]

  -- A computed size is not negative. It is zero, or at least the instrument's minimum and, of the
  -- budget over the loss at the stop, that quotient itself where there is no step, and otherwise a
  -- whole number of steps, not more than the quotient has, rounded to ten places. The budget exceeds
  -- neither the share of the equity, nor the absolute cap, nor the requested risk, and the risk is
  -- the loss of the size. The limits and the equity are not negative, and a unit loses something at
  -- the stop.
  pub compute_size_bounds :
      (limits : RiskLimits W) (r : SizingRequest W) {s : SizingResult W}
      → IsNonneg limits
      → nought ≼ r.equity
      → nought ≺ loss_of r
      → compute_size limits r ≡ ok s
      → (nought ≼ s.size)
        × IsSize r s.risk_budget_eur s.size
        × (s.risk_eur ≡ s.size ⊗ loss_of r)
        × IsCapped limits r s.risk_budget_eur
  unfolding sized value_per_point_eur
  compute_size_bounds limits r {s} n e v h =
      let (set, same) = compute_size-ok limits r s h in
      let budget = (risk_budget limits r).amount in
      let (nonneg, share, stake, within) = risk_budget_bounds L limits r n e in
      let (size_nonneg, size) =
        final_size-IsSize budget r nonneg (le_of_lt L nought r.stop_distance set) v in
      subst
        (λ s.
          (nought ≼ s.size)
          × IsSize r s.risk_budget_eur s.size
          × (s.risk_eur ≡ s.size ⊗ loss_of r)
          × IsCapped limits r s.risk_budget_eur)
        same
        (
          size_nonneg,
          size,
          refl,
          record { nonneg = nonneg; share = share; stake = stake; requested = within },
        )
