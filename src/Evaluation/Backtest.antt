-- ===== src/Evaluation/Backtest.antt =====
-- `simulate_event_trades` of src/evaluation/backtest.py. `ln` is math.log, and times are in seconds.
pub mod Truncated
pub mod Trades
pub mod Planned
pub mod Exits
use sibilla.Base.{
  ℕ, suc, ◌+◌, Text, text, text_key, List, [], ◌∷◌, ◌++◌, Option, none, some, Bool, true, false,
  not, ◌||◌, Dict, lookup, get, insert, if◌then◌else◌,
}
use sibilla.Float.{Float, ◌⊕◌, ◌⊖◌, ◌⊗◌, ◌⊘◌, ◌≤?◌, ◌<?◌, ◌=F◌, nought, one, fmax, fabs}
use sibilla.Enums.Market.{Direction, direction_value, parse_direction, sign}
use sibilla.Pricing.{pnl_money}
use sibilla.Schemas.Market.{Instrument}
use sibilla.Quant.Features.{Series, price_at_or_before, realized_volatility}

pub record Event (W : Type 0) : Type 0 where
  pub ts : W
  pub epic : Text
  pub direction : Text
  pub expected_move_pct : W

pub record Settings (W : Type 0) : Type 0 where
  pub risk_per_trade : W
  pub decision_delay_s : W
  pub stop_vol_multiple : W
  pub reward_risk : W
  pub holding_s : W
  pub slippage_pct : W
  pub min_net_alpha_pct : W

pub record BacktestTrade (W : Type 0) : Type 0 where
  pub ts : W
  pub epic : Text
  pub direction : Direction
  pub entry : W
  pub exit : W
  pub exit_ts : W
  pub reason : Text
  pub size : W
  pub risk_eur : W
  pub pnl : W
  pub expected_move_pct : W
  pub realized_at_entry_pct : W
  pub residual_pct : W

pub record BacktestResult (W : Type 0) : Type 0 where
  pub trades : List (BacktestTrade W)
  pub skipped : Dict Text ℕ
  pub equity_start : W

-- The replay: what it has found, and the equity.
pub record Replay (W : Type 0) : Type 0 where
  pub result : BacktestResult W
  pub equity : W

-- What is fixed at the decision.
pub record Plan (W : Type 0) : Type 0 where
  pub direction : Direction
  pub decision_ts : W
  pub deadline : W
  pub half_spread : W
  pub entry : W
  pub stop_level : W
  pub target_level : W
  pub size : W
  pub risk_eur : W
  pub expected : W
  pub realized : W
  pub residual : W

pub record Exit (W : Type 0) : Type 0 where
  pub exit_px : W
  pub exit_ts : W
  pub reason : Text

-- A part of the body that may end with a `continue`, under its name in `skipped`, or raise.
pub data Step (A : Type 0) : Type 0 where
  skip : Text → Step A
  failed : Step A
  next : A → Step A

abbrev pub is_buy : Direction → Bool
is_buy Direction.buy = true
is_buy Direction.sell = false

module _ {W : Type 0} ⦃F : Float W⦄ where
  abbrev pub default_settings : Settings W
  default_settings = record {
    risk_per_trade = F.lit 5 3;
    decision_delay_s = F.lit 60 0;
    stop_vol_multiple = F.lit 15 1;
    reward_risk = F.lit 15 1;
    holding_s = F.lit 900 0;
    slippage_pct = F.lit 2 4;
    min_net_alpha_pct = F.lit 5 4;
  }

  -- `instrument.spread or 0.0`
  abbrev pub spread_or : Option W → W
  spread_or none = nought
  spread_or (some s) = s

  -- `realized_volatility(...) or 0.001`
  abbrev pub volatility_or : Option W → W
  volatility_or none = F.lit 1 3
  volatility_or (some v) = if v =F nought then F.lit 1 3 else v

  -- `not price`, for a price or None.
  abbrev pub is_missing : Option W → Bool
  is_missing none = true
  is_missing (some p) = p =F nought

  abbrev pub price_or : Option W → W
  price_or none = nought
  price_or (some p) = p

  abbrev pub realized_move : Direction → W → W → W
  realized_move d before at_decision = ((at_decision ⊘ before) ⊖ one) ⊗ F.of_int (sign d)

  abbrev pub residual_move : Event W → Direction → W → W → W
  residual_move e d before at_decision =
      fabs e.expected_move_pct ⊖ realized_move d before at_decision

  -- What the move still promises after the costs.
  unfoldable pub net_alpha : Settings W → Instrument W → Event W → Direction → W → W → W
  net_alpha g i e d before at_decision =
      (residual_move e d before at_decision ⊖ (spread_or i.spread ⊘ at_decision)) ⊖ g.slippage_pct

  abbrev pub half_spread_of : Instrument W → W
  half_spread_of i = spread_or i.spread ⊘ F.lit 2 0

  abbrev pub entry_of : Settings W → Instrument W → Direction → W → W
  entry_of g i d at_decision =
      if is_buy d
      then (at_decision ⊕ half_spread_of i) ⊗ (one ⊕ g.slippage_pct)
      else (at_decision ⊖ half_spread_of i) ⊗ (one ⊖ g.slippage_pct)

  abbrev pub stop_points_of : Settings W → Instrument W → Direction → W → Option W → W
  stop_points_of g i d at_decision vol =
      entry_of g i d at_decision ⊗ fmax (F.lit 8 4) (volatility_or vol ⊗ g.stop_vol_multiple)

  -- A divisor of the size is zero: `stop_points * instrument.value_per_point`, or the step.
  abbrev pub divides_by_zero : Settings W → Instrument W → Direction → W → Option W → Bool
  divides_by_zero g i d at_decision vol =
      (stop_points_of g i d at_decision vol ⊗ i.value_per_point) =F nought || i.size_step =F nought

  -- The terms of a trade, from the two prices on; `vol` is the volatility at the decision.
  unfoldable pub terms :
      Settings W → Instrument W → W → Event W → Direction → W → W → Option W → Plan W
  terms g i equity e d before at_decision vol =
      let decision_ts = e.ts ⊕ g.decision_delay_s in
      let entry = entry_of g i d at_decision in
      let stop_points = stop_points_of g i d at_decision vol in
      let target_points = stop_points ⊗ g.reward_risk in
      let wanted = (equity ⊗ g.risk_per_trade) ⊘ (stop_points ⊗ i.value_per_point) in
      let size = fmax i.min_size (F.of_int (F.nearest (wanted ⊘ i.size_step)) ⊗ i.size_step) in
      record {
        direction = d;
        decision_ts = decision_ts;
        deadline = decision_ts ⊕ g.holding_s;
        half_spread = half_spread_of i;
        entry = entry;
        stop_level = if is_buy d then entry ⊖ stop_points else entry ⊕ stop_points;
        target_level = if is_buy d then entry ⊕ target_points else entry ⊖ target_points;
        size = size;
        risk_eur = (size ⊗ stop_points) ⊗ i.value_per_point;
        expected = fabs e.expected_move_pct;
        realized = realized_move d before at_decision;
        residual = residual_move e d before at_decision;
      }

  unfoldable pub plan_at :
      Settings W → Instrument W → W → Event W → Direction → W → W → Option W → Step (Plan W)
  unfolding terms net_alpha
  plan_at g i equity e d before at_decision vol =
      if net_alpha g i e d before at_decision <? g.min_net_alpha_pct
      then skip (text "no_residual_alpha")
      else (if divides_by_zero g i d at_decision vol
          then failed
          else next (terms g i equity e d before at_decision vol))

  abbrev pub closing_price : Plan W → W → W
  closing_price p mid = if is_buy p.direction then mid ⊖ p.half_spread else mid ⊕ p.half_spread

  abbrev pub hit_stop : Plan W → W → Bool
  hit_stop p px = if is_buy p.direction then px ≤? p.stop_level else p.stop_level ≤? px

  abbrev pub hit_target : Plan W → W → Bool
  hit_target p px = if is_buy p.direction then p.target_level ≤? px else px ≤? p.target_level

  -- A turn of the loop over the series; `rest` is what the points after it give.
  unfoldable pub exit_at : Plan W → W → W → Option (Exit W) → Option (Exit W)
  exit_at p ts mid rest =
      let px = closing_price p mid in
      if ts ≤? p.decision_ts
      then rest
      else (if p.deadline <? ts
          then none
          else (if hit_stop p px
              then some (record { exit_px = p.stop_level; exit_ts = ts; reason = text "STOP_HIT" })
              else (if hit_target p px
                  then some (record {
                    exit_px = p.target_level;
                    exit_ts = ts;
                    reason = text "TARGET_HIT";
                  })
                  else rest)))

  -- The loop, in the order in which the series is given.
  unfoldable pub first_exit : Plan W → Series W → Option (Exit W)
  unfolding exit_at
  first_exit p [] = none
  first_exit p ((ts, mid) ∷ points) = exit_at p ts mid (first_exit p points)

  -- The time stop, at the last price by the deadline.
  unfoldable pub time_stop : Plan W → Option W → Step (Exit W)
  time_stop p none = skip (text "no_exit_price")
  time_stop p (some last) =
      next
        (record { exit_px = closing_price p last; exit_ts = p.deadline; reason = text "TIME_STOP" })

  unfoldable pub exit_or : Plan W → Option W → Option (Exit W) → Step (Exit W)
  unfolding time_stop
  exit_or p last none = time_stop p last
  exit_or p last (some x) = next x

  unfoldable pub exit_of : Plan W → Series W → Step (Exit W)
  unfolding exit_or first_exit
  exit_of p series = exit_or p (price_at_or_before series p.deadline) (first_exit p series)

  abbrev pub trade_of : Instrument W → Event W → Plan W → Exit W → BacktestTrade W
  trade_of i e p x = record {
    ts = e.ts;
    epic = e.epic;
    direction = p.direction;
    entry = p.entry;
    exit = x.exit_px;
    exit_ts = x.exit_ts;
    reason = x.reason;
    size = p.size;
    risk_eur = p.risk_eur;
    pnl = pnl_money p.entry x.exit_px (direction_value p.direction) p.size i.value_per_point;
    expected_move_pct = p.expected;
    realized_at_entry_pct = p.realized;
    residual_pct = p.residual;
  }

  unfoldable pub with_exit :
      Instrument W → Event W → Plan W → Step (Exit W) → Step (BacktestTrade W)
  with_exit i e p (skip why) = skip why
  with_exit i e p failed = failed
  with_exit i e p (next x) = next (trade_of i e p x)

  unfoldable pub with_plan :
      Instrument W → Event W → Series W → Step (Plan W) → Step (BacktestTrade W)
  unfolding with_exit exit_of
  with_plan i e series (skip why) = skip why
  with_plan i e series failed = failed
  with_plan i e series (next p) = with_exit i e p (exit_of p series)

  -- From the two prices and the volatility.
  unfoldable pub plan_from :
      Settings W
      → Instrument W
      → W
      → Event W
      → Direction
      → Option W
      → Option W
      → Option W
      → Step (Plan W)
  unfolding plan_at
  plan_from g i equity e d before at_decision vol =
      if is_missing before || is_missing at_decision
      then skip (text "no_price")
      else plan_at g i equity e d (price_or before) (price_or at_decision) vol

  module _ (ln : W → W) where
    -- The decision, from the prices by its time.
    unfoldable pub plan :
        Settings W → Instrument W → W → Event W → Direction → Series W → Step (Plan W)
    unfolding plan_from
    plan g i equity e d series =
        let decision_ts = e.ts ⊕ g.decision_delay_s in
        plan_from g i equity e d (price_at_or_before series (e.ts ⊖ one))
          (price_at_or_before series decision_ts)
          (realized_volatility ln (F.lit 3600 0) decision_ts series)

    unfoldable pub event_trade :
        Settings W → Instrument W → W → Event W → Series W → Direction → Step (BacktestTrade W)
    unfolding plan with_plan
    event_trade g i equity e series d = with_plan i e series (plan g i equity e d series)

    -- `none` is the exception for a direction that cannot be parsed.
    unfoldable pub directed :
        Settings W
        → Instrument W
        → W
        → Event W
        → Series W
        → Option Direction
        → Option (Step (BacktestTrade W))
    unfolding event_trade
    directed g i equity e series none = none
    directed g i equity e series (some d) = some (event_trade g i equity e series d)

    unfoldable pub with_data :
        Settings W
        → W
        → Event W
        → Option (Series W)
        → Option (Instrument W)
        → Option (Step (BacktestTrade W))
    unfolding directed
    with_data g equity e none i = some (skip (text "no_data"))
    with_data g equity e (some []) i = some (skip (text "no_data"))
    with_data g equity e (some (p ∷ points)) none = some (skip (text "no_data"))
    with_data g equity e (some (p ∷ points)) (some i) =
        directed g i equity e (p ∷ points) (parse_direction e.direction)

  -- The rest of the loop, where the body did not raise.
  abbrev pub unless_raised :
      Option (Step (BacktestTrade W))
      → (Step (BacktestTrade W) → Option (Replay W))
      → Option (Replay W)
  unless_raised none rest = none
  unless_raised (some failed) rest = none
  unless_raised (some (skip why)) rest = rest (skip why)
  unless_raised (some (next t)) rest = rest (next t)

  -- A skip is counted; a trade is added, and its profit to the equity.
  unfoldable pub add_step : Replay W → Step (BacktestTrade W) → Replay W
  add_step r (skip why) = record r {
    result = record r.result {
      skipped = insert why (suc (get why 0 r.result.skipped)) r.result.skipped;
    };
  }
  add_step r failed = r
  add_step r (next t) = record {
    result = record r.result { trades = r.result.trades ++ (t ∷ []) };
    equity = r.equity ⊕ t.pnl;
  }

  module _ (ln : W → W) where
    unfoldable pub replay :
        Settings W
        → Dict Text (Series W)
        → Dict Text (Instrument W)
        → Replay W
        → List (Event W)
        → Option (Replay W)
    unfolding with_data add_step
    replay g series_by_epic instruments r [] = some r
    replay g series_by_epic instruments r (e ∷ events) =
        unless_raised
          (with_data ln g r.equity e (lookup e.epic series_by_epic) (lookup e.epic instruments))
          (λ s. replay g series_by_epic instruments (add_step r s) events)

    unfoldable pub simulate_event_trades :
        Settings W
        → List (Event W)
        → Dict Text (Series W)
        → Dict Text (Instrument W)
        → W
        → Option (Replay W)
    unfolding replay
    simulate_event_trades g events series_by_epic instruments equity =
        replay g series_by_epic instruments
          (record {
            result = record { trades = []; skipped = []; equity_start = equity };
            equity = equity;
          })
          events
