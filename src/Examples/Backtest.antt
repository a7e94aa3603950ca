-- ===== src/Examples/Backtest.antt =====
-- The replay of an event on a short series, src/evaluation/backtest.py.
use sibilla.Base.{Text, text, text_key, [], ◌∷◌, length, Option, none, some, ◌≡◌, refl, Dict}
use sibilla.Base.Int.{◌+ℤ◌}
use sibilla.Float.{◌⊖◌, one}
use sibilla.Float.Fixed.{
  Fixed, fixed, lit, mul, div, of_int, nearest, half_even, by_remainder, sqrt, isqrt_from,
}
use sibilla.Enums.Market.{parse_direction, sign}
use sibilla.Schemas.Market.{Instrument}
use sibilla.Quant.Features.{
  Series, sorted_points, price_at_or_before, points_within, realized_volatility, log_returns, stdev,
  mean_of,
}
use sibilla.Evaluation.Backtest.{
  Event, Replay, default_settings, plan, plan_from, plan_at, terms, net_alpha, exit_at, first_exit,
  time_stop, exit_or, exit_of, with_exit, with_plan, event_trade, directed, with_data, add_step,
  replay, simulate_event_trades,
}
use sibilla.Examples.Fixture.{whole, oil}

-- In place of the logarithm.
abbrev ln : Fixed → Fixed
ln x = x ⊖ one

-- The price jumps to the target on the third point, and is far away after the deadline.
abbrev series : Series Fixed
series =
    (whole 0, whole 100)
    ∷ ((whole 1000, whole 100)
        ∷ ((whole 1100, whole 103) ∷ ((whole 1200, whole 104) ∷ ((whole 9000, whole 10) ∷ []))))

abbrev event : Event Fixed
event = record {
  ts = whole 1001;
  epic = text "OIL";
  direction = text "BUY";
  expected_move_pct = lit 5 2;
}

abbrev by_epic : Dict Text (Series Fixed)
by_epic = (text "OIL", series) ∷ []

abbrev instruments : Dict Text (Instrument Fixed)
instruments = (text "OIL", oil) ∷ []

abbrev replay_or : Replay Fixed → Option (Replay Fixed) → Replay Fixed
replay_or default none = default
replay_or default (some r) = r

abbrev nothing : Replay Fixed
nothing = record {
  result = record { trades = []; skipped = []; equity_start = whole 0 };
  equity = whole 0;
}

abbrev found : Replay Fixed
found =
    replay_or nothing
      (simulate_event_trades ln default_settings (event ∷ []) by_epic instruments (whole 1000))

found_trade : length found.result.trades ≡ 1
unfolding sorted_points price_at_or_before points_within realized_volatility log_returns stdev
    mean_of plan plan_from plan_at terms net_alpha exit_at first_exit time_stop exit_or exit_of
    with_exit with_plan event_trade directed with_data add_step replay simulate_event_trades
    parse_direction lit mul div of_int nearest half_even by_remainder sqrt isqrt_from sign ◌+ℤ◌
found_trade = refl
