-- ===== src/Evaluation/Backtest/Exits.antt =====
-- When, why and at which price the trades of src/evaluation/backtest.py end.
use sibilla.Base.{
  Text, text, text_key, List, Among, true, Option, none, some, Dict, lookup, ◌≡◌, ◌⊎◌,
  if◌then◌else◌,
}
use sibilla.Float.{Float, ◌⊕◌, ◌⊖◌, ◌⊗◌, ◌⊘◌, ◌≤?◌, ◌≼◌, fmax}
use sibilla.Enums.Market.{Direction, parse_direction}
use sibilla.Schemas.Market.{Instrument}
use sibilla.Quant.Features.{Series, price_at_or_before, realized_volatility}
use sibilla.Evaluation.Backtest.{
  Event, Settings, BacktestTrade, Plan, Exit, Step, skip, failed, next, is_buy, spread_or,
  volatility_or,
}

module _ {W : Type 0} ⦃F : Float W⦄ where
  -- A price that is worse, or better, by `x` for the holder of that side.
  abbrev pub worse_by : Direction → W → W → W
  worse_by v price x = if is_buy v then price ⊖ x else price ⊕ x

  abbrev pub better_by : Direction → W → W → W
  better_by v price x = if is_buy v then price ⊕ x else price ⊖ x

  -- An exit at `px` and `ts` from the levels `stop` and `target`: at the stop or the target itself, where
  -- a point of the series at that time has reached it, net of half the spread, and otherwise at the
  -- deadline, at the last price by then net of half the spread.
  abbrev pub Ending : Direction → W → W → W → W → W → Series W → W → W → Text → Type 0
  Ending v half stop target decision deadline s px ts reason =
      (((reason ≡ text "STOP_HIT")
          × (px ≡ stop)
          × ((mid : W) × Among (ts, mid) s
              × ((if is_buy v then worse_by v mid half ≤? stop else stop ≤? worse_by v mid half)
                  ≡ true)))
        ⊎ (((reason ≡ text "TARGET_HIT")
              × (px ≡ target)
              × ((mid : W) × Among (ts, mid) s
                  × ((if is_buy v
                        then target ≤? worse_by v mid half
                        else worse_by v mid half ≤? target)
                      ≡ true)))
            ⊎ ((reason ≡ text "TIME_STOP")
                × (ts ≡ deadline)
                × ((last : W) × (price_at_or_before s deadline ≡ some last)
                    × (px ≡ worse_by v last half)))))
      × ((decision ≼ ts) × (ts ≼ deadline))

  abbrev IsExit : Plan W → Series W → Exit W → Type 0
  IsExit p s x =
      Ending p.direction p.half_spread p.stop_level p.target_level p.decision_ts p.deadline s
        x.exit_px x.exit_ts x.reason

  abbrev IsGood : Plan W → Series W → Option (Exit W) → Type 0
  IsGood p s none = Unit {0}
  IsGood p s (some x) = IsExit p s x

  abbrev IsGoodStep : Plan W → Series W → Step (Exit W) → Type 0
  IsGoodStep p s (skip why) = Unit {0}
  IsGoodStep p s failed = Unit {0}
  IsGoodStep p s (next x) = IsExit p s x

  -- The distance of the stop from an entry, by the volatility before the decision.
  abbrev pub stop_points_at : (W → W) → Settings W → W → Series W → W → W
  stop_points_at ln g decision s entry =
      entry
      ⊗ fmax (F.lit 8 4)
          (volatility_or (realized_volatility ln (F.lit 3600 0) decision s) ⊗ g.stop_vol_multiple)

  -- The levels and times of a plan, if there is one.
  abbrev HasLevels :
      Settings W → Instrument W → Event W → Direction → Option W → Step (Plan W) → Type 0
  HasLevels g i e v vol (skip why) = Unit {0}
  HasLevels g i e v vol failed = Unit {0}
  HasLevels g i e v vol (next p) =
      let points = p.entry ⊗ fmax (F.lit 8 4) (volatility_or vol ⊗ g.stop_vol_multiple) in
      ((p.direction ≡ v) × (p.half_spread ≡ spread_or i.spread ⊘ F.lit 2 0))
      × ((p.stop_level ≡ worse_by v p.entry points)
          × (p.target_level ≡ better_by v p.entry (points ⊗ g.reward_risk)))
      × ((p.decision_ts ≡ e.ts ⊕ g.decision_delay_s)
          × (p.deadline ≡ (e.ts ⊕ g.decision_delay_s) ⊕ g.holding_s))

  -- The end of a trade, by its entry, its event and the series of that.
  pub record IsEnded (ln : W → W) (g : Settings W) (d : Dict Text (Series W))
      (instruments : Dict Text (Instrument W)) (events : List (Event W)) (t : BacktestTrade W)
      : Type 0 where
    pub event : Event W
    pub series : Series W
    pub instrument : Instrument W
    pub direction : Direction
    pub among : Among event events
    pub given : lookup event.epic d ≡ some series
    pub known : lookup event.epic instruments ≡ some instrument
    pub parsed : parse_direction event.direction ≡ some direction
    pub dated : t.ts ≡ event.ts
    pub side : t.direction ≡ direction
    pub ended :
        let decision = event.ts ⊕ g.decision_delay_s in
        let points = stop_points_at ln g decision series t.entry in
        Ending direction
          (spread_or instrument.spread ⊘ F.lit 2 0)
          (worse_by direction t.entry points)
          (better_by direction t.entry (points ⊗ g.reward_risk))
          decision
          (decision ⊕ g.holding_s)
          series
          t.exit
          t.exit_ts
          t.reason
