-- ===== src/Config.antt =====
-- `RiskLimits` of src/core/config.py: the hard limits, their defaults and the validators that every new
-- value passes. The fields that only the credentials of another venue use (`live`, `onchain`,
-- `private_key`, `clob_api_key`, `clob_api_secret`, `maker`) are left out.
use sibilla.Base.{ℕ, List, [], ◌∷◌, Bool, true, ◌&&◌}
use sibilla.Float.{Float, ◌⊕◌, ◌≤?◌, ◌<?◌, nought, one}

pub record RiskLimits (W : Type 0) : Type 0 where
  pub bankroll : W
  pub max_risk_per_trade : W
  pub max_open_risk : W
  pub max_daily_loss : W
  pub max_weekly_drawdown : W
  pub max_event_risk : W
  pub max_correlated_exposure : W
  pub max_margin_usage : W
  pub min_free_margin : W
  pub max_effective_leverage : W
  pub max_asset_exposure : W
  pub max_asset_class_exposure : W
  pub max_currency_exposure : W
  pub stress_scenarios_r : List W
  pub stress_min_free_margin : W
  pub require_stop : Bool
  pub min_reward_risk : W
  pub max_holding_time_s : ℕ
  pub default_holding_time_s : ℕ
  pub kelly_fraction : W
  pub min_net_alpha : W
  pub safety_margin_alpha : W
  pub max_slippage_pct : W
  pub max_stake_abs : W
  pub min_stake_abs : W
  pub max_order_latency_ms : ℕ
  pub max_data_staleness_s : W
  pub max_public_data_staleness_s : W
  pub max_open_positions : ℕ
  pub live_max_usdc_per_order : W
  pub max_positions_per_asset : ℕ
  pub max_rejected_orders_streak : ℕ
  pub max_trades_per_day : ℕ

module _ {W : Type 0} ⦃F : Float W⦄ where
  abbrev pub default_limits : RiskLimits W
  default_limits = record {
    bankroll = F.lit 500 0;
    max_risk_per_trade = F.lit 5 3;
    max_open_risk = F.lit 2 2;
    max_daily_loss = F.lit 2 2;
    max_weekly_drawdown = F.lit 5 2;
    max_event_risk = F.lit 1 2;
    max_correlated_exposure = F.lit 15 3;
    max_margin_usage = F.lit 20 2;
    min_free_margin = F.lit 70 2;
    max_effective_leverage = F.lit 4 0;
    max_asset_exposure = F.lit 3 0;
    max_asset_class_exposure = F.lit 4 0;
    max_currency_exposure = F.lit 4 0;
    stress_scenarios_r = F.lit 1 0 ∷ F.lit 2 0 ∷ [];
    stress_min_free_margin = F.lit 50 2;
    require_stop = true;
    min_reward_risk = F.lit 15 1;
    max_holding_time_s = 14_400;
    default_holding_time_s = 900;
    kelly_fraction = F.lit 15 2;
    min_net_alpha = F.lit 5 4;
    safety_margin_alpha = F.lit 3 4;
    max_slippage_pct = F.lit 5 4;
    max_stake_abs = F.lit 5 0;
    min_stake_abs = F.lit 5 1;
    max_order_latency_ms = 5000;
    max_data_staleness_s = F.lit 5 0;
    max_public_data_staleness_s = F.lit 150 0;
    max_open_positions = 10;
    live_max_usdc_per_order = F.lit 2 0;
    max_positions_per_asset = 1;
    max_rejected_orders_streak = 8;
    max_trades_per_day = 20;
  }

  -- `0 < v <= bound`, as the field validators test it.
  abbrev pub in_range : W → W → Bool
  in_range bound v = nought <? v && v ≤? bound

  -- `RiskLimits.model_validate`: `false` is the validation error.
  unfoldable pub is_valid : RiskLimits W → Bool
  is_valid l =
      in_range (F.lit 25 2) l.kelly_fraction
      && in_range (F.lit 25 2) l.max_risk_per_trade
      && in_range (F.lit 25 2) l.max_open_risk
      && in_range (F.lit 25 2) l.max_daily_loss
      && in_range (F.lit 25 2) l.max_weekly_drawdown
      && in_range (F.lit 25 2) l.max_event_risk
      && in_range (F.lit 25 2) l.max_correlated_exposure
      && in_range one l.max_margin_usage
      && in_range one l.min_free_margin
      && in_range one l.stress_min_free_margin
      && in_range (F.lit 10 0) l.max_effective_leverage
      && in_range (F.lit 10 0) l.max_asset_exposure
      && in_range (F.lit 10 0) l.max_asset_class_exposure
      && in_range (F.lit 10 0) l.max_currency_exposure
      && one ≤? l.min_reward_risk
      && l.max_risk_per_trade ≤? l.max_open_risk
      && l.max_margin_usage ⊕ l.min_free_margin ≤? one ⊕ F.lit 1 9
