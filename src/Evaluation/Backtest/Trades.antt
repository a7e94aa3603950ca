-- ===== src/Evaluation/Backtest/Trades.antt =====
-- Where the trades of src/evaluation/backtest.py come from.
use sibilla.Base.{
  Text, text_key, List, [], ◌∷◌, All, All-append, Among, Option, none, some, inl, inr, Dict, lookup,
  ◌≡◌, refl, subst,
}
use sibilla.Float.{Float}
use sibilla.Enums.Market.{Direction, parse_direction}
use sibilla.Schemas.Market.{Instrument}
use sibilla.Quant.Features.{Series}
use sibilla.Evaluation.Backtest.{
  Event, Settings, BacktestTrade, Replay, Plan, Exit, Step, skip, failed, next, trade_of, plan,
  exit_of, with_exit, with_plan, event_trade, directed, with_data, unless_raised, add_step, replay,
  simulate_event_trades,
}

module _ {W : Type 0} ⦃F : Float W⦄ (ln : W → W) (g : Settings W) (d : Dict Text (Series W))
    (instruments : Dict Text (Instrument W)) (events : List (Event W)) where
  -- A trade is made of an event, the plan for it and the exit from that plan.
  pub record IsMade (t : BacktestTrade W) : Type 0 where
    pub event : Event W
    pub series : Series W
    pub instrument : Instrument W
    pub direction : Direction
    pub equity : W
    pub plan_made : Plan W
    pub exit_made : Exit W
    pub among : Among event events
    pub given : lookup event.epic d ≡ some series
    pub known : lookup event.epic instruments ≡ some instrument
    pub parsed : parse_direction event.direction ≡ some direction
    pub planned : plan ln g instrument equity event direction series ≡ next plan_made
    pub exited : exit_of plan_made series ≡ next exit_made
    pub same : t ≡ trade_of instrument event plan_made exit_made

  abbrev IsMadeStep : Step (BacktestTrade W) → Type 0
  IsMadeStep (skip why) = Unit {0}
  IsMadeStep failed = Unit {0}
  IsMadeStep (next t) = IsMade t

  abbrev IsMadeOption : Option (Step (BacktestTrade W)) → Type 0
  IsMadeOption none = Unit {0}
  IsMadeOption (some s) = IsMadeStep s

  abbrev AllMade : Option (Replay W) → Type 0
  AllMade none = Unit {0}
  AllMade (some r) = All IsMade r.result.trades

  module _ (e : Event W) (m : Among e events) (equity : W) where
    with_exit-IsMade :
        (s : Series W) (i : Instrument W) (v : Direction) (p : Plan W) (x : Step (Exit W))
        → lookup e.epic d ≡ some s
        → lookup e.epic instruments ≡ some i
        → parse_direction e.direction ≡ some v
        → plan ln g i equity e v s ≡ next p
        → exit_of p s ≡ x
        → IsMadeStep (with_exit i e p x)
    unfolding with_exit
    with_exit-IsMade s i v p (skip why) given known parsed planned exited = tt
    with_exit-IsMade s i v p failed given known parsed planned exited = tt
    with_exit-IsMade s i v p (next x) given known parsed planned exited = record {
      event = e;
      series = s;
      instrument = i;
      direction = v;
      equity = equity;
      plan_made = p;
      exit_made = x;
      among = m;
      given = given;
      known = known;
      parsed = parsed;
      planned = planned;
      exited = exited;
      same = refl;
    }

    with_plan-IsMade :
        (s : Series W) (i : Instrument W) (v : Direction) (p : Step (Plan W))
        → lookup e.epic d ≡ some s
        → lookup e.epic instruments ≡ some i
        → parse_direction e.direction ≡ some v
        → plan ln g i equity e v s ≡ p
        → IsMadeStep (with_plan i e s p)
    unfolding with_plan
    with_plan-IsMade s i v (skip why) given known parsed planned = tt
    with_plan-IsMade s i v failed given known parsed planned = tt
    with_plan-IsMade s i v (next p) given known parsed planned =
        with_exit-IsMade s i v p (exit_of p s) given known parsed planned refl

    directed-IsMade :
        (s : Series W) (i : Instrument W) (v : Option Direction)
        → lookup e.epic d ≡ some s
        → lookup e.epic instruments ≡ some i
        → parse_direction e.direction ≡ v
        → IsMadeOption (directed ln g i equity e s v)
    unfolding directed event_trade
    directed-IsMade s i none given known parsed = tt
    directed-IsMade s i (some v) given known parsed =
        with_plan-IsMade s i v (plan ln g i equity e v s) given known parsed refl

    with_data-IsMade :
        (o : Option (Series W)) (i : Option (Instrument W))
        → lookup e.epic d ≡ o
        → lookup e.epic instruments ≡ i
        → IsMadeOption (with_data ln g equity e o i)
    unfolding with_data
    with_data-IsMade none i given known = tt
    with_data-IsMade (some []) i given known = tt
    with_data-IsMade (some (p ∷ s)) none given known = tt
    with_data-IsMade (some (p ∷ s)) (some i) given known =
        directed-IsMade (p ∷ s) i (parse_direction e.direction) given known refl

  add_step-AllMade :
      (r : Replay W) (s : Step (BacktestTrade W))
      → All IsMade r.result.trades
      → IsMadeStep s
      → All IsMade (add_step r s).result.trades
  unfolding add_step
  add_step-AllMade r (skip why) h k = h
  add_step-AllMade r failed h k = h
  add_step-AllMade r (next t) h k = All-append IsMade r.result.trades (t ∷ []) h (k, tt)

  unless_raised-AllMade :
      (o : Option (Step (BacktestTrade W))) (rest : Step (BacktestTrade W) → Option (Replay W))
      → IsMadeOption o
      → ((s : Step (BacktestTrade W)) → IsMadeStep s → AllMade (rest s))
      → AllMade (unless_raised o rest)
  unless_raised-AllMade none rest h k = tt
  unless_raised-AllMade (some (skip why)) rest h k = k (skip why) h
  unless_raised-AllMade (some failed) rest h k = tt
  unless_raised-AllMade (some (next t)) rest h k = k (next t) h

  replay-AllMade :
      (es : List (Event W)) (r : Replay W)
      → ((e : Event W) → Among e es → Among e events)
      → All IsMade r.result.trades
      → AllMade (replay ln g d instruments r es)
  unfolding replay
  replay-AllMade [] r m h = h
  replay-AllMade (e ∷ es) r m h =
      unless_raised-AllMade
        (with_data ln g r.equity e (lookup e.epic d) (lookup e.epic instruments))
        (λ s. replay ln g d instruments (add_step r s) es)
        (with_data-IsMade e (m e (inl refl)) r.equity (lookup e.epic d) (lookup e.epic instruments)
          refl refl)
        (λ s k. replay-AllMade es (add_step r s) (λ x n. m x (inr n)) (add_step-AllMade r s h k))

  pub simulate_event_trades-AllMade :
      (equity : W) (r : Replay W)
      → simulate_event_trades ln g events d instruments equity ≡ some r
      → All IsMade r.result.trades
  unfolding simulate_event_trades
  simulate_event_trades-AllMade equity r done = subst AllMade done (
      replay-AllMade events
        (record {
          result = record { trades = []; skipped = []; equity_start = equity };
          equity = equity;
        })
        (λ e m. m) tt)
