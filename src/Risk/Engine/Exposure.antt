-- ===== src/Risk/Engine/Exposure.antt =====
-- `RiskEngine.evaluate` of src/risk/engine.py after the sizing: the checks of the size, of the
-- aggregated risk and exposure, and of the margin.
use sibilla.Base.{text, List, [], ◌∷◌, ◌++◌, Option, none, some, Bool, false, get, text_key}
use sibilla.Float.{Float, ◌⊕◌, ◌⊗◌, ◌≤?◌, ◌<?◌, nought}
use sibilla.Enums.Market.{asset_class_value}
use sibilla.Config.{RiskLimits}
use sibilla.Pricing.{Extended, finite, infinite, effective_leverage}
use sibilla.Schemas.Trade.{TradeProposal, RiskCheck, MarginStress}
use sibilla.Risk.Correlation.{OpenExposure, ExposureReport, build_exposure, correlated_risk}
use sibilla.Risk.Margin.{margin_stress_test}
use sibilla.Risk.Sizing.{SizingResult}
use sibilla.Risk.Engine.Context.{
  RiskEngine, PortfolioContext, check, check_value, open_risk_eur, per_equity, least_or_one,
}

module _ {W : Type 0} ⦃F : Float W⦄ where
  -- The check of the requested risk, where one is requested.
  unfoldable pub requested_checks : W → Option W → List (RiskCheck W)
  requested_checks risk none = []
  requested_checks risk (some r) =
      check (text "requested_risk_not_exceeded") (risk ≤? r ⊕ F.lit 1 6) ∷ []

  -- Step 6, once the size is computed.
  unfoldable pub size_checks :
      RiskLimits W → W → TradeProposal W → SizingResult W → List (RiskCheck W)
  size_checks limits equity p s =
      (check_value (text "size_positive") (nought <? s.size) s.size p.instrument.min_size
        ∷ check_value (text "risk_per_trade")
            (s.risk_eur ≤? equity ⊗ limits.max_risk_per_trade ⊕ F.lit 1 9) s.risk_eur
            (equity ⊗ limits.max_risk_per_trade)
        ∷ check_value (text "risk_abs_cap") (s.risk_eur ≤? limits.max_stake_abs ⊕ F.lit 1 9)
            s.risk_eur limits.max_stake_abs
        ∷ [])
      ++ requested_checks s.risk_eur p.requested_risk_eur

  abbrev pub event_risk : TradeProposal W → PortfolioContext W → W
  event_risk p c = get p.event_id nought c.positions_for_event

  -- The call of `correlated_risk`, with its default threshold.
  abbrev pub corr_risk : RiskEngine W → TradeProposal W → PortfolioContext W → W
  corr_risk e p c =
      correlated_risk (F.lit 4 1) e.registry p.instrument.epic p.direction c.open_positions

  abbrev pub new_exposure : TradeProposal W → SizingResult W → OpenExposure W
  new_exposure p s = record {
    epic = p.instrument.epic;
    direction = p.direction;
    notional = s.notional;
    risk_eur = s.risk_eur;
    asset_class = asset_class_value p.instrument.asset_class;
    currency = p.instrument.currency;
    event_id = some p.event_id;
    factors = p.instrument.factors;
  }

  abbrev pub report_after : TradeProposal W → SizingResult W → PortfolioContext W → ExposureReport W
  report_after p s c = build_exposure (c.open_positions ++ (new_exposure p s ∷ []))

  abbrev pub leverage_within : W → Extended W → Bool
  leverage_within limit (finite x) = x ≤? limit
  leverage_within limit infinite = false

  -- Step 7, the aggregated risk: open, of the event, and correlated.
  unfoldable pub risk_checks :
      RiskEngine W → TradeProposal W → SizingResult W → PortfolioContext W → List (RiskCheck W)
  risk_checks e p s c =
      let equity = c.account.equity in
      let limits = e.limits in
      check_value (text "max_open_risk")
        (open_risk_eur c ⊕ s.risk_eur ≤? equity ⊗ limits.max_open_risk ⊕ F.lit 1 9)
        (open_risk_eur c ⊕ s.risk_eur) (equity ⊗ limits.max_open_risk)
      ∷ check (text "max_event_risk")
          (event_risk p c ⊕ s.risk_eur ≤? equity ⊗ limits.max_event_risk ⊕ F.lit 1 9)
      ∷ check_value (text "max_correlated_exposure")
          (corr_risk e p c ⊕ s.risk_eur ≤? equity ⊗ limits.max_correlated_exposure ⊕ F.lit 1 9)
          (corr_risk e p c ⊕ s.risk_eur) (equity ⊗ limits.max_correlated_exposure)
      ∷ []

  abbrev pub leverage_after : TradeProposal W → SizingResult W → PortfolioContext W → Extended W
  leverage_after p s c = effective_leverage (report_after p s c).total_notional c.account.equity

  -- Step 7, the notional exposure: the leverage, and the shares of instrument, class and currency.
  unfoldable pub exposure_checks :
      RiskLimits W → TradeProposal W → SizingResult W → PortfolioContext W → List (RiskCheck W)
  exposure_checks limits p s c =
      let equity = c.account.equity in
      let report = report_after p s c in
      let asset = per_equity (get p.instrument.epic nought report.by_epic) equity in
      let class =
        per_equity (get (asset_class_value p.instrument.asset_class) nought report.by_asset_class)
          equity in
      let currency = per_equity (get p.instrument.currency nought report.by_currency) equity in
      record {
        name = text "max_effective_leverage";
        passed = leverage_within limits.max_effective_leverage (leverage_after p s c);
        value = some (leverage_after p s c);
        limit = some limits.max_effective_leverage;
      }
      ∷ check_value (text "max_asset_exposure") (asset ≤? limits.max_asset_exposure) asset
          limits.max_asset_exposure
      ∷ check_value (text "max_asset_class_exposure") (class ≤? limits.max_asset_class_exposure)
          class limits.max_asset_class_exposure
      ∷ check_value (text "max_currency_exposure") (currency ≤? limits.max_currency_exposure)
          currency limits.max_currency_exposure
      ∷ []

  unfoldable pub stress_of :
      RiskEngine W → TradeProposal W → SizingResult W → PortfolioContext W → MarginStress W
  stress_of e p s c = margin_stress_test e.limits (record {
    account = c.account;
    new_margin = s.margin_required;
    new_risk_eur = s.risk_eur;
    open_risk_eur = open_risk_eur c;
    correlated_risk_eur = corr_risk e p c;
  })

  -- Step 8, the margin. The scenarios are compared as the report rounds them.
  unfoldable pub margin_checks : RiskLimits W → MarginStress W → List (RiskCheck W)
  margin_checks limits m =
      check_value (text "margin_usage") (m.margin_usage_after ≤? limits.max_margin_usage)
        m.margin_usage_after limits.max_margin_usage
      ∷ check_value (text "min_free_margin") (limits.min_free_margin ≤? m.free_margin_ratio_after)
          m.free_margin_ratio_after limits.min_free_margin
      ∷ check_value (text "margin_stress_scenarios")
          (limits.stress_min_free_margin ≤? least_or_one m.scenarios) (least_or_one m.scenarios)
          limits.stress_min_free_margin
      ∷ []
