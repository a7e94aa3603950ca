-- ===== src/Risk/Engine/Checks.antt =====
-- `RiskEngine.evaluate` of src/risk/engine.py up to the sizing: the checks of the system and the
-- market, of the order, of the expected return, of the entry price and of the losses, in the order
-- of the source.
use sibilla.Base.{
  ℕ, Text, text, starts_with, one_of, ◌=?◌, upper, List, [], ◌∷◌, ◌++◌, Option, none, some, Bool,
  true, false, not, ◌&&◌, ◌||◌, Result, ok, err, length, select, leb, ltb, if◌then◌else◌,
}
use sibilla.Base.Int.{pos}
use sibilla.Float.{Float, ◌⊕◌, ◌⊖◌, ◌⊗◌, ◌⊘◌, ◌≤?◌, ◌<?◌, nought, one}
use sibilla.Enums.Market.{Direction, direction_value, EntryType, asset_class_value, is_tradeable}
use sibilla.Enums.State.{uses_real_money}
use sibilla.Config.{RiskLimits}
use sibilla.Pricing.{worse_price}
use sibilla.Schemas.Market.{Quote, Instrument, age_seconds, price_for, quote_mid}
use sibilla.Schemas.Trade.{TradeProposal, RiskCheck, proposal_reward_risk}
use sibilla.Risk.KillSwitch.{Raised, guard}
use sibilla.Risk.Engine.Context.{RiskEngine, PortfolioContext, check, check_value}

abbrev pub is_ok : Result Raised (Unit {0}) → Bool
is_ok (ok _) = true
is_ok (err _) = false

-- `proposal.entry_type in (MARKET, LIMIT)`
abbrev pub is_allowed_entry : EntryType → Bool
is_allowed_entry EntryType.market = true
is_allowed_entry EntryType.limit = true
is_allowed_entry EntryType.stop = false

-- `proposal.direction in (BUY, SELL)`
abbrev pub is_direction : Direction → Bool
is_direction Direction.buy = true
is_direction Direction.sell = true

-- `source.startswith("ig")`
abbrev pub is_broker_source : Text → Bool
is_broker_source source = starts_with source (text "ig")

module _ {W : Type 0} ⦃F : Float W⦄ where
  -- `check` with counts for its two numbers.
  abbrev pub check_count : Text → Bool → ℕ → ℕ → RiskCheck W
  check_count name passed value limit =
      check_value name passed (F.of_int (pos value)) (F.of_int (pos limit))

  abbrev pub staleness_limit : RiskLimits W → Text → W
  staleness_limit limits source =
      if is_broker_source source
      then limits.max_data_staleness_s
      else limits.max_public_data_staleness_s

  -- Steps 0 and 1: the kill switch, the jurisdiction, the market and the quote.
  unfoldable pub market_checks : RiskEngine W → W → TradeProposal W → List (RiskCheck W)
  market_checks e now p =
      let q = p.quote in
      let limits = e.limits in
      let age = age_seconds now q in
      let source_ok = is_broker_source q.source in
      (check (text "kill_switch") (is_ok (guard e.kill_switch))
        ∷ check (text "jurisdiction") (
            not (one_of p.instrument.epic e.blocked_epics)
            && not (one_of (asset_class_value p.instrument.asset_class) e.blocked_asset_classes))
        ∷ check (text "market_tradeable") (is_tradeable q.market_status)
        ∷ check_value (text "data_fresh") (age ≤? staleness_limit limits q.source) age
            (staleness_limit limits q.source)
        ∷ check (text "live_price")
            (nought <? q.bid && q.bid ≤? q.offer && not (q.source =? text ""))
        ∷ [])
      ++ (if uses_real_money e.mode
          then check (text "price_source_is_broker") source_ok ∷ []
          else [])

  -- The broker's least stop distance in points.
  unfoldable pub broker_min_stop : Quote W → Instrument W → W → W
  broker_min_stop q i distance =
      if upper i.min_stop_distance_unit =? text "PERCENTAGE"
      then quote_mid q ⊗ distance ⊘ F.lit 100 0
      else distance

  unfoldable pub min_stop_checks : Quote W → Instrument W → W → Option W → List (RiskCheck W)
  unfolding broker_min_stop
  min_stop_checks q i stop none = []
  min_stop_checks q i stop (some d) =
      check_value (text "stop_above_broker_minimum") (broker_min_stop q i d ≤? stop) stop
        (broker_min_stop q i d)
      ∷ []

  unfoldable pub max_stop_checks : W → Option W → List (RiskCheck W)
  max_stop_checks stop none = []
  max_stop_checks stop (some d) = check (text "stop_below_broker_maximum") (stop ≤? d) ∷ []

  abbrev pub horizon_check : RiskLimits W → TradeProposal W → RiskCheck W
  horizon_check limits p =
      check_count (text "horizon_within_max") (leb p.time_horizon_seconds limits.max_holding_time_s)
        p.time_horizon_seconds limits.max_holding_time_s

  -- Step 2: the order.
  unfoldable pub order_checks : RiskLimits W → TradeProposal W → List (RiskCheck W)
  order_checks limits p =
      (check (text "direction_valid") (is_direction p.direction)
        ∷ check (text "entry_type_valid") (is_allowed_entry p.entry_type)
        ∷ check (text "stop_present") (nought <? p.stop_distance || not limits.require_stop)
        ∷ [])
      ++ (min_stop_checks p.quote p.instrument p.stop_distance p.instrument.min_stop_distance
          ++ (max_stop_checks p.stop_distance p.instrument.max_stop_distance
              ++ (horizon_check limits p ∷ [])))

  -- `rr is not None and rr >= limits.min_reward_risk`
  abbrev pub ratio_check : W → Option W → RiskCheck W
  ratio_check least none = record {
    name = text "reward_risk";
    passed = false;
    value = none;
    limit = some least;
  }
  ratio_check least (some rr) = check_value (text "reward_risk") (least ≤? rr) rr least

  abbrev pub reward_check : RiskLimits W → TradeProposal W → RiskCheck W
  reward_check limits p = elim p.limit_distance [
    | none ↦ check (text "reward_risk") false
    | some _ ↦ ratio_check limits.min_reward_risk (proposal_reward_risk p)
  ]

  abbrev pub alpha_check : RiskLimits W → TradeProposal W → RiskCheck W
  alpha_check limits p = elim p.residual [
    | none ↦ check (text "net_residual_alpha_positive") false
    | some r ↦
        check_value (text "net_residual_alpha_positive")
          (nought <? r.net_alpha_pct && limits.min_net_alpha ≤? r.net_alpha_pct) r.net_alpha_pct
          limits.min_net_alpha
  ]

  abbrev pub slippage_limit : RiskLimits W → TradeProposal W → W
  slippage_limit limits p =
      worse_price (price_for p.quote p.direction) limits.max_slippage_pct
        (direction_value p.direction)

  abbrev pub within_slippage : Direction → W → W → Bool
  within_slippage Direction.buy entry limit = entry ≤? limit ⊗ (one ⊕ F.lit 1 9)
  within_slippage Direction.sell entry limit = limit ⊗ (one ⊖ F.lit 1 9) ≤? entry

  -- Steps 3 and 4: the reward for the risk, the net return and the entry price.
  unfoldable pub return_checks : RiskLimits W → TradeProposal W → List (RiskCheck W)
  return_checks limits p =
      reward_check limits p
      ∷ alpha_check limits p
      ∷ check_value (text "max_entry_within_slippage")
          (within_slippage p.direction p.max_entry (slippage_limit limits p)) p.max_entry
          (slippage_limit limits p)
      ∷ []

  abbrev pub drawdown : PortfolioContext W → W
  drawdown c =
      if nought <? c.peak_equity_week
      then (c.peak_equity_week ⊖ c.account.equity) ⊘ c.peak_equity_week
      else nought

  -- `len([p for p in open_positions if p.epic == epic])`
  abbrev pub same_epic : Text → PortfolioContext W → ℕ
  same_epic epic c = length (select (λ p. p.epic =? epic) c.open_positions)

  -- Step 5: the losses of the day and the week, the positions, the trades and the refusals.
  unfoldable pub loss_checks : RiskLimits W → Text → PortfolioContext W → List (RiskCheck W)
  loss_checks limits epic c =
      let daily = c.account.equity ⊗ limits.max_daily_loss in
      let positions = length c.open_positions in
      check_value (text "daily_loss") (F.neg c.realized_pnl_today <? daily)
        (F.neg c.realized_pnl_today) daily
      ∷ check_value (text "weekly_drawdown") (drawdown c <? limits.max_weekly_drawdown) (drawdown c)
          limits.max_weekly_drawdown
      ∷ check_count (text "max_open_positions") (ltb positions limits.max_open_positions) positions
          limits.max_open_positions
      ∷ check (text "max_positions_per_asset")
          (ltb (same_epic epic c) limits.max_positions_per_asset)
      ∷ check_count (text "max_trades_per_day") (ltb c.trades_today limits.max_trades_per_day)
          c.trades_today limits.max_trades_per_day
      ∷ check_count (text "rejected_streak")
          (ltb c.rejected_streak limits.max_rejected_orders_streak) c.rejected_streak
          limits.max_rejected_orders_streak
      ∷ []
