-- ===== src/Examples/Cycle.antt =====
-- The momentum loop on a favoured candidate, src/workers/etoro_runner.py.
use sibilla.Base.{map, [], ◌∷◌, ◌≡◌, refl}
use sibilla.Base.Int.{pos}
use sibilla.Float.Fixed.{fixed}
use sibilla.Examples.Etoro.{outside, patient, mover, runner, account}
use sibilla.Risk.Engine.{conclude, decide, checks_before, checks_after, evaluate}
use sibilla.Risk.Sizing.{
  compute_size, base_budget, cap_kelly, cap_requested, final_reason, final_size, max_risk_eur,
  risk_budget, sized, stepped_size, value_per_point_eur,
}
use sibilla.Float.Fixed.{lit, div, mul, round, trunc, of_int, sqrt, floor}
use sibilla.Risk.Engine.Checks.{
  market_checks, order_checks, min_stop_checks, max_stop_checks, return_checks, broker_min_stop,
  loss_checks,
}
use sibilla.Risk.KillSwitch.{guard, active, paused}
use sibilla.Enums.Market.{is_tradeable, sign}
use sibilla.Schemas.Market.{age_seconds, price_for, quote_mid, total_pct}
use sibilla.Base.Int.{◌+ℤ◌}
use sibilla.Enums.State.{uses_real_money}
use sibilla.Schemas.Trade.{proposal_reward_risk, validate_proposal}
use sibilla.Market.Registry.{correlation_proxy, cosine, dot, factor_vector, find, norm}
use sibilla.Pricing.{
  round_to_step, truncated_units, effective_leverage, kelly_fraction, limit_level,
  loss_per_unit_at_stop, margin_required, notional, size_from_risk, stop_level, worse_price,
}
use sibilla.Risk.Correlation.{
  build_exposure, build_from, correlated_from, correlated_risk, effective_correlation,
}
use sibilla.Risk.Engine.Context.{open_risk_eur, new_context, peak_or}
use sibilla.Risk.Engine.Exposure.{
  exposure_checks, margin_checks, requested_checks, risk_checks, size_checks, stress_of,
}
use sibilla.Risk.Margin.{
  free_ratio_after, margin_stress_test, scenarios, stress_passes, usage_after,
}
use sibilla.Etoro.Runner.{
  momentum_loop, momentum_step, with_news, with_quote, judged, propose, act_on, send,
}
use sibilla.Etoro.Gateway.{open_market_order, payload_of, order_result, balances}
use sibilla.Etoro.Judge.{judge_catalyst}
use sibilla.Etoro.Proposal.{
  build_trade_proposal, proposal_of, share, costs_of, residual_of, size_from_decision,
}
use sibilla.Etoro.Runner.Context.{cycle_context, exposure_of}

-- Eleven shares are bought: what a stake of five pays for at a stop of 42 cents.
bought :
    map
      (λ x. x.units)
      (momentum_loop outside
        (cycle_context account [])
        ((patient, mover) ∷ [])
        runner).runner.orders
    ≡ pos 11 ∷ []
unfolding conclude compute_size lit decide checks_before market_checks guard is_tradeable
    age_seconds ◌+ℤ◌ uses_real_money order_checks min_stop_checks max_stop_checks return_checks
    proposal_reward_risk div mul round trunc of_int sqrt sign correlation_proxy cosine dot
    factor_vector find norm round_to_step truncated_units effective_leverage kelly_fraction
    limit_level loss_per_unit_at_stop margin_required notional size_from_risk stop_level worse_price
    build_exposure build_from correlated_from correlated_risk effective_correlation broker_min_stop
    loss_checks open_risk_eur exposure_checks margin_checks requested_checks risk_checks size_checks
    stress_of checks_after evaluate active paused free_ratio_after margin_stress_test scenarios
    stress_passes usage_after base_budget cap_kelly cap_requested final_reason final_size
    max_risk_eur risk_budget sized stepped_size value_per_point_eur price_for quote_mid
    momentum_loop momentum_step with_news with_quote judged propose act_on send open_market_order
    payload_of order_result balances judge_catalyst build_trade_proposal proposal_of share costs_of
    residual_of size_from_decision total_pct validate_proposal cycle_context exposure_of new_context
    peak_or floor
bought = refl
