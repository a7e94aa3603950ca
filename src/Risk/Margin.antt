-- ===== src/Risk/Margin.antt =====
-- src/risk/margin.py: the margin after a trade and in the stress scenarios. A scenario is its ratio,
-- in the order of the source; the names of the scenarios are left out.
pub mod Laws
use sibilla.Base.{List, [], ◌∷◌, ◌++◌, map, all, Bool, ◌&&◌, if◌then◌else◌}
use sibilla.Float.{Float, ◌⊕◌, ◌⊖◌, ◌⊗◌, ◌⊘◌, ◌≤?◌, ◌<?◌, nought, one}
use sibilla.Config.{RiskLimits}
use sibilla.Schemas.Trade.{AccountState, MarginStress}

pub record StressRequest (W : Type 0) : Type 0 where
  pub account : AccountState W
  pub new_margin : W
  pub new_risk_eur : W
  pub open_risk_eur : W
  pub correlated_risk_eur : W

module _ {W : Type 0} ⦃F : Float W⦄ where
  -- `(eq - margin_after) / eq if eq > 0 else -1.0`
  abbrev pub stressed_ratio : W → W → W
  stressed_ratio margin_after eq = if nought <? eq then (eq ⊖ margin_after) ⊘ eq else F.neg one

  abbrev pub margin_after : StressRequest W → W
  margin_after r = r.account.margin_used ⊕ r.new_margin

  unfoldable pub free_ratio_after : StressRequest W → W
  free_ratio_after r =
      if nought <? r.account.equity
      then (r.account.equity ⊖ margin_after r) ⊘ r.account.equity
      else nought

  unfoldable pub usage_after : StressRequest W → W
  usage_after r = if nought <? r.account.equity then margin_after r ⊘ r.account.equity else one

  -- The ratios of the scenarios, before they are rounded for the report. The source keeps them under names;
  -- here two multiples whose names agree, by their six digits, both count.
  unfoldable pub scenarios : RiskLimits W → StressRequest W → List W
  scenarios limits r =
      let equity = r.account.equity in
      map (λ x. stressed_ratio (margin_after r) (equity ⊖ r.new_risk_eur ⊗ x))
        limits.stress_scenarios_r
      ++ (stressed_ratio (margin_after r) (equity ⊖ (r.new_risk_eur ⊕ r.correlated_risk_eur))
          ∷ stressed_ratio (margin_after r) (equity ⊖ (r.new_risk_eur ⊕ r.open_risk_eur))
          ∷ [])

  unfoldable pub stress_passes : RiskLimits W → StressRequest W → Bool
  stress_passes limits r =
      usage_after r ≤? limits.max_margin_usage
      && limits.min_free_margin ≤? free_ratio_after r
      && all (λ ratio. limits.stress_min_free_margin ≤? ratio) (scenarios limits r)

  unfoldable pub margin_stress_test : RiskLimits W → StressRequest W → MarginStress W
  margin_stress_test limits r = record {
    equity = r.account.equity;
    margin_used_before = r.account.margin_used;
    margin_required = r.new_margin;
    margin_used_after = margin_after r;
    free_margin_after = r.account.equity ⊖ margin_after r;
    free_margin_ratio_after = free_ratio_after r;
    margin_usage_after = usage_after r;
    scenarios = map (λ v. F.round 4 v) (scenarios limits r);
    passes = stress_passes limits r;
  }
