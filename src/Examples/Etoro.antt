-- ===== src/Examples/Etoro.antt =====
-- A cycle on eToro, src/workers/etoro_runner.py.
use sibilla.Base.{
  ℕ, zero, suc, Bool-cases, text, List, [], ◌∷◌, none, some, true, nat_key, ok, ◌≡◌, refl, inl, inr,
  arith,
}
use sibilla.Float.Fixed.{Fixed, fixed}
use sibilla.Enums.Market.{Direction, MarketStatus}
use sibilla.Config.{default_limits}
use sibilla.Schemas.Market.{Quote}
use sibilla.Schemas.Trade.{AccountState}
use sibilla.Risk.KillSwitch.{new}
use sibilla.Etoro.Momentum.{DailyCandle, InstrumentCandidate, MomentumCandidate}
use sibilla.Etoro.Judge.{CatalystVerdict, VerdictDirection}
use sibilla.Etoro.Gateway.{balances}
use sibilla.Etoro.Runner.{Outside, Moment, Runner, momentum_loop}
use sibilla.Etoro.Runner.Context.{cycle_context}
use sibilla.Etoro.Runner.Orders.{AllBacked, momentum_loop-AllBacked}
use sibilla.Etoro.Runner.Halted.{ForeignQuotes, momentum_loop-halted}
use sibilla.Etoro.Runner.Pairs.{Turn, run_pairs_phase}
use sibilla.Etoro.Runner.Pairs.Legs.{Posted, run_pairs_phase-Posted}
use sibilla.Etoro.Runner.Cycle.{run_cycle, AllApproved, run_cycle-AllApproved}
use sibilla.Examples.Fixture.{engine, blank, whole, cents}

-- A day's candle by its close and its volume.
abbrev day : ℕ → ℕ → DailyCandle Fixed
day close volume = record {
  date = whole 0;
  open_ = whole close;
  high = whole close;
  low = whole close;
  close = whole close;
  volume = whole volume;
}

abbrev days : ℕ → List (DailyCandle Fixed) → List (DailyCandle Fixed)
days zero rest = rest
days (suc n) rest = day 5 100 ∷ days n rest

abbrev acme : InstrumentCandidate Fixed
acme = record { instrument_id = 7; name = text "Acme"; price = whole 6 }

abbrev pub quote : Quote Fixed
quote = record {
  epic = text "ETORO:7";
  bid = cents 599;
  offer = whole 6;
  ts = whole 1000;
  market_status = MarketStatus.tradeable;
  source = text "etoro-rest";
  high = none;
  low = none;
  change_pct = none;
  delay_ms = 0;
}

abbrev pub mover : MomentumCandidate Fixed
mover = record {
  instrument_id = 7;
  name = text "Acme";
  price = whole 6;
  gap_pct = cents 20;
  relative_volume = whole 5;
}

abbrev pub verdict : CatalystVerdict Fixed
verdict = record {
  has_catalyst = true;
  direction = VerdictDirection.buy;
  confidence = cents 80;
  rationale = text "contract";
}

-- A market with one quote, a model that sees a catalyst, and a broker that takes every order.
abbrev pub outside : Outside Fixed
outside = record {
  quotes = (7, quote) ∷ [];
  news = λ name. ok (text "Acme wins a contract");
  llm = λ m brief. ok (some verdict);
  post_order = λ payload. ok (some (text "1"));
}

-- The default limits, and limits that let a trade run for a day.
abbrev today : Moment Fixed
today = record { engine = record engine { limits = default_limits }; now = whole 1002 }

abbrev pub patient : Moment Fixed
patient = record {
  engine = record engine { limits = record default_limits { max_holding_time_s = 86_400 } };
  now = whole 1002;
}

abbrev pub runner : Runner Fixed
runner = record { last_news_seen = []; world = blank; orders = [] }

abbrev pub account : AccountState Fixed
account = balances (some (whole 100000)) none

momentum_loop-AllBacked_example :
    AllBacked
      (λ t. Unit {0})
      outside
      (cycle_context account [])
      (momentum_loop outside
        (cycle_context account [])
        ((patient, mover) ∷ [])
        runner).runner.orders
momentum_loop-AllBacked_example =
    momentum_loop-AllBacked (λ t. Unit {0}) outside (cycle_context account [])
      ((patient, mover) ∷ []) runner (tt, tt) tt

foreign : ForeignQuotes outside
foreign id q h = elim (Bool-cases (nat_key.beq 7 id)) [
  | inl same ↦ ground arith
  | inr other ↦ ground arith
]

-- Under the default limits, the candidate that the model favours is not bought.
momentum_loop-halted_example :
    (momentum_loop outside (cycle_context account []) ((today, mover) ∷ []) runner).runner.orders
    ≡ []
momentum_loop-halted_example =
    momentum_loop-halted outside (cycle_context account []) ((today, mover) ∷ []) runner foreign
      (inr (inr (omega arith)), tt) refl

abbrev pair : Turn Fixed
pair = record {
  at_a = patient;
  at_b = patient;
  sig = record {
    instrument_a_id = 7;
    instrument_a_name = text "Acme";
    instrument_b_id = 8;
    instrument_b_name = text "Bolt";
    price_a = whole 6;
    price_b = whole 5;
    correlation = cents 90;
    z_score = whole 3;
    direction_a = Direction.sell;
    direction_b = Direction.buy;
  };
  quotes =
      (7, quote)
      ∷ ((8, record quote { epic = text "ETORO:8"; bid = cents 499; offer = whole 5 }) ∷ []);
}

run_pairs_phase-Posted_example :
    Posted
      (cycle_context account [])
      (pair ∷ [])
      runner.orders
      (run_pairs_phase outside (cycle_context account []) (pair ∷ []) runner).raised
      (run_pairs_phase outside (cycle_context account []) (pair ∷ []) runner).runner.orders
run_pairs_phase-Posted_example =
    run_pairs_phase-Posted outside (cycle_context account []) (pair ∷ []) runner

run_cycle-AllApproved_example :
    AllApproved
      (λ t. t ≡ patient)
      outside
      (cycle_context account [])
      (pair ∷ [])
      (run_cycle new outside account [] ((patient, mover) ∷ []) (pair ∷ []) runner).runner.orders
run_cycle-AllApproved_example =
    run_cycle-AllApproved (λ t. t ≡ patient) new outside account [] ((patient, mover) ∷ [])
      (pair ∷ []) runner (refl, tt) refl
