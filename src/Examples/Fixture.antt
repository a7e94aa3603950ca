-- ===== src/Examples/Fixture.antt =====
-- An account, an instrument and a proposal in euro, for the runs of src/risk.
use sibilla.Base.{ℕ, text, [], ◌∷◌, none, some, true}
use sibilla.Float.Fixed.{Fixed, fixed}
use sibilla.Enums.Market.{Direction, EntryType, MarketStatus, Factor}
use sibilla.Enums.State.{ExecutionMode, SignalType, ReasonCode}
use sibilla.Config.{RiskLimits, default_limits}
use sibilla.Schemas.Market.{Instrument, Quote, CostEstimate, ResidualAlpha, new_instrument}
use sibilla.Schemas.Trade.{TradeProposal, AccountState}
use sibilla.Store.{World}
use sibilla.Market.Registry.{InstrumentRegistry}
use sibilla.Risk.KillSwitch.{new}
use sibilla.Risk.Correlation.{OpenExposure}
use sibilla.Risk.Engine.Context.{RiskEngine, PortfolioContext}

-- Whole units and hundredths.
abbrev pub whole : ℕ → Fixed
whole n = fixed.lit n 0

abbrev pub cents : ℕ → Fixed
cents n = fixed.lit n 2

abbrev pub limits : RiskLimits Fixed
limits = record default_limits { max_stake_abs = whole 100 }

abbrev pub oil : Instrument Fixed
oil = record (new_instrument (text "OIL") (text "Crude oil")) {
  min_size = whole 1;
  size_step = whole 1;
  factors = (Factor.oil, whole 1) ∷ [];
}

abbrev pub oil_quote : Quote Fixed
oil_quote = record {
  epic = text "OIL";
  bid = cents 7999;
  offer = whole 80;
  ts = whole 1000;
  market_status = MarketStatus.tradeable;
  source = text "ig";
  high = none;
  low = none;
  change_pct = none;
  delay_ms = 0;
}

abbrev pub costs : CostEstimate Fixed
costs = record {
  spread_pct = fixed.lit 1 4;
  commission_pct = whole 0;
  slippage_pct = fixed.lit 5 4;
  financing_pct = whole 0;
  market_impact_pct = whole 0;
}

abbrev pub residual : ResidualAlpha Fixed
residual = record {
  epic = text "OIL";
  direction = Direction.buy;
  expected_move_pct = cents 2;
  realized_move_pct = whole 0;
  residual_move_pct = cents 2;
  costs = costs;
  safety_margin_pct = fixed.lit 3 4;
  net_alpha_pct = cents 1;
  passes = true;
}

abbrev pub oil_trade : TradeProposal Fixed
oil_trade = record {
  trade_id = text "t1";
  event_id = text "opec";
  strategy_id = text "news";
  signal_type = SignalType.breaking_news_repricing;
  instrument = oil;
  epic = text "OIL";
  direction = Direction.buy;
  entry_type = EntryType.market;
  quote = oil_quote;
  max_entry = whole 80;
  max_slippage_pct = fixed.lit 5 4;
  stop_distance = whole 2;
  limit_distance = some (whole 4);
  stop_rationale = text "";
  time_horizon_seconds = 900;
  expected_return_pct = cents 5;
  expected_loss_pct = cents 2;
  probability = cents 60;
  calibrated_probability = none;
  confidence = cents 60;
  requested_risk_eur = some (whole 40);
  reason_code = ReasonCode.news_not_fully_priced;
  residual = some residual;
  invalidation_conditions = [];
  portfolio = none;
  explanation = [];
}

abbrev pub account : AccountState Fixed
account = record {
  account_id = text "a1";
  currency = text "EUR";
  balance = whole 10000;
  deposit = whole 0;
  profit_loss = whole 0;
  available = whole 10000;
  margin_used = whole 0;
  equity = whole 10000;
  source = text "ig";
}

abbrev pub gas_position : OpenExposure Fixed
gas_position = record {
  epic = text "GAS";
  direction = Direction.buy;
  notional = whole 500;
  risk_eur = whole 20;
  asset_class = text "COMMODITY";
  currency = text "EUR";
  event_id = none;
  factors = (Factor.oil, whole 1) ∷ [];
}

abbrev pub context : PortfolioContext Fixed
context = record {
  account = account;
  open_positions = gas_position ∷ [];
  realized_pnl_today = whole 0;
  realized_pnl_week = whole 0;
  peak_equity_week = whole 10000;
  trades_today = 1;
  rejected_streak = 0;
  positions_for_event = [];
}

abbrev pub registry : InstrumentRegistry Fixed
registry = record { by_epic = (text "OIL", oil) ∷ []; alias_index = [] }

abbrev pub engine : RiskEngine Fixed
engine = record {
  limits = limits;
  registry = registry;
  kill_switch = new;
  mode = ExecutionMode.demo;
  blocked_epics = [];
  blocked_asset_classes = [];
}

abbrev pub blank : World Fixed
blank = record { kill_switch_events = []; system_states = []; audit_log = []; emitted = [] }
