-- ===== src/Examples/Engine.antt =====
-- Decisions of `evaluate`, src/risk/engine.py.
use sibilla.Base.{◌≡◌, refl, true, false, ok}
use sibilla.Float.{◌⊘◌, ◌⊗◌, ◌≼◌, ◌≺◌}
use sibilla.Float.Fixed.{Fixed, fixed}
use sibilla.Float.Fixed.Laws.{Fixed-IsFloat}
use sibilla.Pricing.Laws.{IsStepped}
use sibilla.Risk.Sizing.Laws.{loss_of, IsCapped}
use sibilla.Risk.Engine.Funded.{evaluate-IsFunded, IsFunded}
use sibilla.Risk.Engine.{sizing_request}
use sibilla.Risk.Engine.Decision.{evaluate-all_passed}
use sibilla.Risk.Engine.Approved.{evaluate-safe, IsTradable, HasRoom, IsBounded}
use sibilla.Risk.Engine.Terms.{evaluate-HasTerms, HasTerms, evaluate-risk}
use sibilla.Examples.Fixture.{engine, oil_trade, context, whole}
use sibilla.Risk.Engine.{conclude, decide, checks_before, checks_after, evaluate}
use sibilla.Risk.Sizing.{
  SizingResult, compute_size, base_budget, cap_kelly, cap_requested, final_reason, final_size,
  max_risk_eur, risk_budget, sized, stepped_size, value_per_point_eur,
}
use sibilla.Float.Fixed.{lit, div, mul, round, trunc, of_int, sqrt}
use sibilla.Risk.Engine.Checks.{
  market_checks, order_checks, min_stop_checks, max_stop_checks, return_checks, broker_min_stop,
  loss_checks,
}
use sibilla.Risk.KillSwitch.{guard, active, paused}
use sibilla.Enums.Market.{is_tradeable, sign}
use sibilla.Schemas.Market.{age_seconds, price_for, quote_mid}
use sibilla.Base.Int.{◌+ℤ◌}
use sibilla.Enums.State.{uses_real_money}
use sibilla.Schemas.Trade.{proposal_reward_risk}
use sibilla.Market.Registry.{correlation_proxy, cosine, dot, factor_vector, find, norm}
use sibilla.Pricing.{
  round_to_step, truncated_units, effective_leverage, kelly_fraction, limit_level,
  loss_per_unit_at_stop, margin_required, notional, size_from_risk, stop_level, worse_price,
}
use sibilla.Risk.Correlation.{
  build_exposure, build_from, correlated_from, correlated_risk, effective_correlation,
}
use sibilla.Risk.Engine.Context.{all_passed, open_risk_eur}
use sibilla.Risk.Engine.Exposure.{
  exposure_checks, margin_checks, requested_checks, risk_checks, size_checks, stress_of,
}
use sibilla.Risk.Margin.{
  free_ratio_after, margin_stress_test, scenarios, stress_passes, usage_after,
}

pub approved_oil : (evaluate engine (whole 1002) oil_trade context (whole 1)).approved ≡ true
unfolding conclude compute_size lit decide checks_before market_checks guard is_tradeable
    age_seconds ◌+ℤ◌ uses_real_money order_checks min_stop_checks max_stop_checks return_checks
    proposal_reward_risk div mul round trunc of_int sqrt sign correlation_proxy cosine dot
    factor_vector find norm round_to_step truncated_units effective_leverage kelly_fraction
    limit_level loss_per_unit_at_stop margin_required notional size_from_risk stop_level worse_price
    build_exposure build_from correlated_from correlated_risk effective_correlation broker_min_stop
    loss_checks open_risk_eur exposure_checks margin_checks requested_checks risk_checks size_checks
    stress_of checks_after evaluate active paused free_ratio_after margin_stress_test scenarios
    stress_passes usage_after base_budget cap_kelly cap_requested final_reason final_size
    max_risk_eur risk_budget sized stepped_size value_per_point_eur price_for quote_mid
approved_oil = refl

size_oil : (evaluate engine (whole 1002) oil_trade context (whole 1)).size ≡ whole 20
unfolding conclude compute_size lit decide checks_before market_checks guard is_tradeable
    age_seconds ◌+ℤ◌ uses_real_money order_checks min_stop_checks max_stop_checks return_checks
    proposal_reward_risk div mul round trunc of_int sqrt sign correlation_proxy cosine dot
    factor_vector find norm round_to_step truncated_units effective_leverage kelly_fraction
    limit_level loss_per_unit_at_stop margin_required notional size_from_risk stop_level worse_price
    build_exposure build_from correlated_from correlated_risk effective_correlation broker_min_stop
    loss_checks open_risk_eur exposure_checks margin_checks requested_checks risk_checks size_checks
    stress_of checks_after evaluate active paused free_ratio_after margin_stress_test scenarios
    stress_passes usage_after base_budget cap_kelly cap_requested final_reason final_size
    max_risk_eur risk_budget sized stepped_size value_per_point_eur price_for quote_mid
size_oil = refl

evaluate-all_passed_example :
    (evaluate engine (whole 1002) oil_trade context (whole 1)).approved
    ≡ all_passed (evaluate engine (whole 1002) oil_trade context (whole 1)).checks
evaluate-all_passed_example = evaluate-all_passed engine (whole 1002) oil_trade context (whole 1)

-- The same trade ten minutes later, on a price that is too old.
refused_late : (evaluate engine (whole 1600) oil_trade context (whole 1)).approved ≡ false
unfolding conclude compute_size lit decide checks_before market_checks guard is_tradeable
    age_seconds ◌+ℤ◌ uses_real_money order_checks min_stop_checks max_stop_checks return_checks
    proposal_reward_risk div mul round trunc of_int sqrt sign correlation_proxy cosine dot
    factor_vector find norm round_to_step truncated_units effective_leverage kelly_fraction
    limit_level loss_per_unit_at_stop margin_required notional size_from_risk stop_level worse_price
    build_exposure build_from correlated_from correlated_risk effective_correlation broker_min_stop
    loss_checks open_risk_eur exposure_checks margin_checks requested_checks risk_checks size_checks
    stress_of checks_after evaluate active paused free_ratio_after margin_stress_test scenarios
    stress_passes usage_after base_budget cap_kelly cap_requested final_reason final_size
    max_risk_eur risk_budget sized stepped_size value_per_point_eur price_for quote_mid
refused_late = refl

evaluate-safe_example :
    let d = evaluate engine (whole 1002) oil_trade context (whole 1) in
    IsTradable engine (whole 1002) oil_trade
    × HasRoom engine.limits oil_trade.instrument.epic context
    × IsBounded engine oil_trade context d.size d.risk_eur
evaluate-safe_example = evaluate-safe engine (whole 1002) oil_trade context (whole 1) approved_oil

evaluate-HasTerms_example : HasTerms engine oil_trade
evaluate-HasTerms_example =
    evaluate-HasTerms engine (whole 1002) oil_trade context (whole 1) approved_oil

evaluate-IsFunded_example :
    (s : SizingResult Fixed) × (compute_size engine.limits
        (sizing_request oil_trade context.account.equity (whole 1))
      ≡ ok s)
    × (s.size ≡ (evaluate engine (whole 1002) oil_trade context (whole 1)).size)
    × IsFunded engine oil_trade context s
unfolding lit
evaluate-IsFunded_example =
    evaluate-IsFunded Fixed-IsFloat engine (whole 1002) oil_trade context (whole 1) refl
      approved_oil

evaluate-risk_example :
    let d = evaluate engine (whole 1002) oil_trade context (whole 1) in
    let r = sizing_request oil_trade context.account.equity (whole 1) in
    (whole 0 ≺ d.size)
    × (d.risk_eur ≡ d.size ⊗ loss_of r)
    × (oil_trade.instrument.min_size ≼ d.size)
    × (budget : Fixed) × IsCapped engine.limits r budget
    × IsStepped (budget ⊘ loss_of r) oil_trade.instrument.size_step d.size
unfolding lit mul
evaluate-risk_example =
    evaluate-risk Fixed-IsFloat engine (whole 1002) oil_trade context (whole 1) (refl, refl, refl)
      refl refl approved_oil
