-- ===== src/Schemas/Market.antt =====
-- src/core/schemas.py: instruments, live quotes, the cost model and the residual return. A
-- `datetime` is its POSIX timestamp in seconds. The broker's opaque `raw` payload and
-- `trading_hours`, which no modelled code reads, are left out.
use sibilla.Base.{ℕ, Text, text, List, [], Option, none, Bool, true, false, Dict, if◌then◌else◌}
use sibilla.Float.{Float, ◌⊕◌, ◌⊖◌, ◌⊘◌, ◌<?◌, ◌=F◌, nought, one, fmax}
use sibilla.Enums.Market.{Direction, AssetClass, MarketStatus, Factor, is_tradeable}

pub record Instrument (W : Type 0) : Type 0 where
  pub epic : Text
  pub name : Text
  pub asset_class : AssetClass
  pub currency : Text
  pub market_status : MarketStatus
  pub min_size : W
  pub size_step : W
  pub lot_size : W
  pub contract_size : W
  pub value_per_point : W
  pub margin_factor : W
  pub spread : Option W
  pub controlled_risk_allowed : Bool
  pub min_stop_distance : Option W
  pub min_stop_distance_unit : Text
  pub max_stop_distance : Option W
  pub scaling_factor : W
  pub one_pip_means : Option Text
  pub expiry : Text
  pub streaming_available : Bool
  pub aliases : List Text
  pub factors : Dict Factor W
  pub fallback_symbol : Option Text
  pub commission_pct : W
  pub overnight_funding_pct_annual : W

pub record Quote (W : Type 0) : Type 0 where
  pub epic : Text
  pub bid : W
  pub offer : W
  pub ts : W
  pub market_status : MarketStatus
  pub source : Text
  pub high : Option W
  pub low : Option W
  pub change_pct : Option W
  pub delay_ms : ℕ

pub record CostEstimate (W : Type 0) : Type 0 where
  pub spread_pct : W
  pub commission_pct : W
  pub slippage_pct : W
  pub financing_pct : W
  pub market_impact_pct : W

-- `ResidualAlpha`, less the `reaction` that only the event study fills.
pub record ResidualAlpha (W : Type 0) : Type 0 where
  pub epic : Text
  pub direction : Direction
  pub expected_move_pct : W
  pub realized_move_pct : W
  pub residual_move_pct : W
  pub costs : CostEstimate W
  pub safety_margin_pct : W
  pub net_alpha_pct : W
  pub passes : Bool

module _ {W : Type 0} ⦃F : Float W⦄ where
  -- The instrument that the model builds from the five required values and its defaults.
  abbrev pub new_instrument : Text → Text → Instrument W
  new_instrument epic name = record {
    epic = epic;
    name = name;
    asset_class = AssetClass.other;
    currency = text "EUR";
    market_status = MarketStatus.unknown;
    min_size = F.lit 1 1;
    size_step = F.lit 1 1;
    lot_size = one;
    contract_size = one;
    value_per_point = one;
    margin_factor = F.lit 5 0;
    spread = none;
    controlled_risk_allowed = false;
    min_stop_distance = none;
    min_stop_distance_unit = text "POINTS";
    max_stop_distance = none;
    scaling_factor = one;
    one_pip_means = none;
    expiry = text "-";
    streaming_available = true;
    aliases = [];
    factors = [];
    fallback_symbol = none;
    commission_pct = nought;
    overnight_funding_pct_annual = F.lit 3 2;
  }

  unfoldable pub instrument_tradeable : Instrument W → Bool
  instrument_tradeable i = is_tradeable i.market_status

  unfoldable pub quote_mid : Quote W → W
  quote_mid q = (q.bid ⊕ q.offer) ⊘ F.lit 2 0

  unfoldable pub quote_spread : Quote W → W
  quote_spread q = fmax nought (q.offer ⊖ q.bid)

  unfoldable pub quote_spread_pct : Quote W → W
  unfolding quote_mid quote_spread
  quote_spread_pct q = if quote_mid q =F nought then nought else quote_spread q ⊘ quote_mid q

  -- The age at the time `now`.
  unfoldable pub age_seconds : W → Quote W → W
  age_seconds now q = now ⊖ q.ts

  unfoldable pub is_stale : W → W → Quote W → Bool
  unfolding age_seconds
  is_stale now max_age_s q = max_age_s <? age_seconds now q

  unfoldable pub price_for : Quote W → Direction → W
  price_for q Direction.buy = q.offer
  price_for q Direction.sell = q.bid

  unfoldable pub exit_price_for : Quote W → Direction → W
  exit_price_for q Direction.buy = q.bid
  exit_price_for q Direction.sell = q.offer

  unfoldable pub total_pct : CostEstimate W → W
  total_pct c =
      c.spread_pct ⊕ c.commission_pct ⊕ c.slippage_pct ⊕ c.financing_pct ⊕ c.market_impact_pct
