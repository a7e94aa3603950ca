-- ===== src/Examples/Exposure.antt =====
-- The margin test, the exposure report, the Kelly fraction and the sizes, src/risk and
-- src/core/pricing.py.
use sibilla.Base.{text, List, [], ◌∷◌, map, Dict, get, text_key, ◌≡◌, refl}
use sibilla.Base.Int.{◌+ℤ◌}
use sibilla.Float.{◌⊕◌, ◌⊖◌, ◌⊗◌, ◌⊘◌, ◌≼◌, ◌≺◌, nought}
use sibilla.Float.Fixed.{Fixed, fixed, lit, div, mul}
use sibilla.Float.Fixed.Laws.{Fixed-IsFloat}
use sibilla.Enums.Market.{Direction, Factor}
use sibilla.Market.Registry.{fsum}
use sibilla.Risk.Margin.{
  StressRequest, stress_passes, usage_after, free_ratio_after, margin_after, scenarios,
}
use sibilla.Risk.Margin.Laws.{stress_passes-survives}
use sibilla.Risk.Correlation.{OpenExposure, build_exposure, correlated_risk}
use sibilla.Risk.Correlation.Laws.{total_risk, correlated_risk-le}
use sibilla.Risk.Correlation.Totals.{notional_of, build_exposure-totals}
use sibilla.Risk.Sizing.{risk_budget, compute_size, sized}
use sibilla.Risk.Sizing.Laws.{loss_of, IsSize, IsCapped, compute_size_bounds}
use sibilla.Risk.Engine.{sizing_request}
use sibilla.Examples.Fixture.{account, gas_position, limits, oil_trade, registry, whole, cents}

abbrev stress : StressRequest Fixed
stress = record {
  account = account;
  new_margin = whole 150;
  new_risk_eur = whole 40;
  open_risk_eur = whole 20;
  correlated_risk_eur = whole 20;
}

stress_passes-survives_example :
    (usage_after stress ≼ limits.max_margin_usage)
    × (limits.min_free_margin ≼ free_ratio_after stress)
    × (nought ≺ whole 10000 ⊖ (whole 40 ⊕ whole 20))
    × (nought ≺ whole 10000 ⊖ (whole 40 ⊕ whole 20))
    × (limits.stress_min_free_margin
        ≼ (whole 10000 ⊖ (whole 40 ⊕ whole 20) ⊖ margin_after stress)
          ⊘ (whole 10000 ⊖ (whole 40 ⊕ whole 20)))
    × (limits.stress_min_free_margin
        ≼ (whole 10000 ⊖ (whole 40 ⊕ whole 20) ⊖ margin_after stress)
          ⊘ (whole 10000 ⊖ (whole 40 ⊕ whole 20)))
unfolding lit stress_passes usage_after div ◌+ℤ◌ free_ratio_after scenarios mul
stress_passes-survives_example = stress_passes-survives Fixed-IsFloat limits stress refl refl

abbrev loadings : Dict Factor Fixed
loadings = (Factor.oil, cents 90) ∷ (Factor.usd, cents 30) ∷ []

correlated_risk-le_example :
    correlated_risk
      (fixed.lit 4 1)
      registry
      (text "OIL")
      Direction.buy
      (gas_position ∷ gas_position ∷ [])
    ≼ total_risk (gas_position ∷ gas_position ∷ [])
unfolding lit
correlated_risk-le_example =
    correlated_risk-le Fixed-IsFloat (fixed.lit 4 1) registry (text "OIL") Direction.buy
      (gas_position ∷ gas_position ∷ []) (refl, (refl, tt))

build_exposure-totals_example :
    let ps : List (OpenExposure Fixed) =
      gas_position ∷ record gas_position { epic = text "EUR" } ∷ gas_position ∷ [] in
    let r = build_exposure ps in
    (get (text "GAS") nought r.by_epic ≡ notional_of (λ p. p.epic) (text "GAS") ps)
    × (get (text "GAS") nought r.by_asset_class ≡ notional_of (λ p. p.asset_class) (text "GAS") ps)
    × (get (text "GAS") nought r.by_currency ≡ notional_of (λ p. p.currency) (text "GAS") ps)
    × (r.total_notional ≡ fsum (map (λ p. p.notional) ps))
build_exposure-totals_example =
    build_exposure-totals (text "GAS")
      (gas_position ∷ record gas_position { epic = text "EUR" } ∷ gas_position ∷ [])

compute_size_bounds_example :
    let r = sizing_request oil_trade (whole 10000) (whole 1) in
    let s = sized (risk_budget limits r) r in
    (nought ≼ s.size)
    × IsSize r s.risk_budget_eur s.size
    × (s.risk_eur ≡ s.size ⊗ loss_of r)
    × IsCapped limits r s.risk_budget_eur
unfolding lit compute_size mul
compute_size_bounds_example =
    compute_size_bounds Fixed-IsFloat limits (sizing_request oil_trade (whole 10000) (whole 1))
      (refl, refl, refl) refl refl refl
