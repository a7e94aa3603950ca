-- ===== src/Etoro/Runner/Context.antt =====
-- The portfolio that a cycle of src/workers/etoro_runner.py hands to the risk engine.
use sibilla.Base.{text, List, [], map, Option, none, some}
use sibilla.Float.{Float, ◌⊖◌, ◌⊗◌, nought, fabs}
use sibilla.Schemas.Trade.{AccountState}
use sibilla.Risk.Correlation.{OpenExposure}
use sibilla.Risk.Engine.Context.{PortfolioContext, new_context}
use sibilla.Etoro.Gateway.{BrokerPosition}

module _ {W : Type 0} ⦃F : Float W⦄ where
  -- `(abs(level - stop_level) * size) if stop_level is not None else 0.0`
  abbrev pub stop_risk : W → W → Option W → W
  stop_risk level size none = nought
  stop_risk level size (some stop) = fabs (level ⊖ stop) ⊗ size

  unfoldable pub exposure_of : BrokerPosition W → OpenExposure W
  exposure_of p = record {
    epic = p.epic;
    direction = p.direction;
    notional = p.size ⊗ p.level;
    risk_eur = stop_risk p.level p.size p.stop_level;
    asset_class = text "EQUITY_CFD";
    currency = p.currency;
    event_id = none;
    factors = [];
  }

  unfoldable pub cycle_context : AccountState W → List (BrokerPosition W) → PortfolioContext W
  unfolding new_context exposure_of
  cycle_context account positions =
      new_context account (map exposure_of positions) nought nought (some account.equity) 0 0 none
