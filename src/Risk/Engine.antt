-- ===== src/Risk/Engine.antt =====
-- src/risk/engine.py: the decision on a trade proposal. The checks stand in Engine/Checks and
-- Engine/Exposure, in the order in which `evaluate` records them.
pub mod Context
pub mod Checks
pub mod Exposure
pub mod Decision
pub mod Approved
pub mod Terms
pub mod Funded
use sibilla.Base.{
  Text, text, List, [], ◌∷◌, ◌++◌, map, select, Option, none, some, Bool, true, false, not, Result,
  ok, err, if◌then◌else◌,
}
use sibilla.Float.{Float, nought}
use sibilla.Pricing.{finite}
use sibilla.Schemas.Trade.{TradeProposal, RiskCheck, RiskDecision}
use sibilla.Risk.Sizing.{SizingRequest, SizingResult, SizingError, compute_size}
use sibilla.Risk.Engine.Context.{
  RiskEngine, PortfolioContext, check, all_passed, fraction_or_one, probability_or,
}
use sibilla.Risk.Engine.Checks.{market_checks, order_checks, return_checks, loss_checks}
use sibilla.Risk.Engine.Exposure.{
  size_checks, risk_checks, exposure_checks, stress_of, margin_checks, leverage_after,
}

module _ {W : Type 0} ⦃F : Float W⦄ where
  abbrev pub sizing_request : TradeProposal W → W → W → SizingRequest W
  sizing_request p equity fx = record {
    instrument = p.instrument;
    quote = p.quote;
    direction = p.direction;
    stop_distance = p.stop_distance;
    equity = equity;
    requested_risk_eur = p.requested_risk_eur;
    risk_fraction_of_max = fraction_or_one p.portfolio;
    limit_distance = p.limit_distance;
    probability = some (probability_or p.calibrated_probability p.probability);
    fx_rate_to_eur = fx;
  }

  -- The checks before the sizing.
  unfoldable pub checks_before :
      RiskEngine W → W → TradeProposal W → PortfolioContext W → List (RiskCheck W)
  checks_before e now p c =
      market_checks e now p
      ++ (order_checks e.limits p
          ++ (return_checks e.limits p ++ loss_checks e.limits p.instrument.epic c))

  -- The checks after the sizing.
  unfoldable pub checks_after :
      RiskEngine W → TradeProposal W → PortfolioContext W → SizingResult W → List (RiskCheck W)
  checks_after e p c s =
      size_checks e.limits c.account.equity p s
      ++ (risk_checks e p s c
          ++ (exposure_checks e.limits p s c ++ margin_checks e.limits (stress_of e p s c)))

  abbrev pub reasons : List (RiskCheck W) → List Text
  reasons cs = map (λ c. c.name) (select (λ c. not c.passed) cs)

  -- The decision that returns early, with the defaults of the model.
  unfoldable pub refused_sizing : List (RiskCheck W) → RiskDecision W
  refused_sizing checks = record {
    approved = false;
    size = nought;
    risk_eur = nought;
    stop_distance = nought;
    stop_level = none;
    limit_distance = none;
    limit_level = none;
    max_entry = nought;
    notional = nought;
    margin_required = nought;
    effective_leverage = finite nought;
    checks = checks;
    rejection_reasons = reasons checks;
    capped_by = none;
    stress = none;
  }

  -- The decision over all the checks.
  unfoldable pub decide :
      RiskEngine W
      → TradeProposal W
      → PortfolioContext W
      → SizingResult W
      → List (RiskCheck W)
      → RiskDecision W
  decide e p c s checks =
      let approved = all_passed checks in
      record {
        approved = approved;
        size = if approved then s.size else nought;
        risk_eur = if approved then s.risk_eur else nought;
        stop_distance = s.stop_distance;
        stop_level = some s.stop_level;
        limit_distance = s.limit_distance;
        limit_level = s.limit_level;
        max_entry = p.max_entry;
        notional = s.notional;
        margin_required = s.margin_required;
        effective_leverage = leverage_after p s c;
        checks = checks;
        rejection_reasons = reasons checks;
        capped_by = s.capped_by;
        stress = some (stress_of e p s c);
      }

  unfoldable pub conclude :
      RiskEngine W
      → TradeProposal W
      → PortfolioContext W
      → List (RiskCheck W)
      → Result SizingError (SizingResult W)
      → RiskDecision W
  conclude e p c before (err _) = refused_sizing (before ++ (check (text "sizing") false ∷ []))
  conclude e p c before (ok s) = decide e p c s (before ++ checks_after e p c s)

  -- `evaluate` at the time `now`.
  unfoldable pub evaluate :
      RiskEngine W → W → TradeProposal W → PortfolioContext W → W → RiskDecision W
  evaluate e now p c fx =
      conclude e p c (checks_before e now p c)
        (compute_size e.limits (sizing_request p c.account.equity fx))
