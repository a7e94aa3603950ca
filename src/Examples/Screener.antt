-- ===== src/Examples/Screener.antt =====
-- Two instruments whose ratio jumps on the last day, src/strategies/etoro_pairs.py.
use sibilla.Base.{
  ℕ, zero, suc, ◌/◌, ◌%◌, ◌+◌, ◌*◌, text, List, [], ◌∷◌, ◌++◌, select, length, ◌≡◌, refl,
}
use sibilla.Float.{◌=F◌, fabs}
use sibilla.Float.Fixed.{Fixed, fixed, lit, mul, div, sqrt, isqrt_from, of_int}
use sibilla.Float.Fixed.Laws.{Fixed-IsFloat}
use sibilla.Base.Int.{◌+ℤ◌}
use sibilla.Etoro.Momentum.{DailyCandle, InstrumentCandidate}
use sibilla.Etoro.Screener.{
  Entry, scan, is_eligible, find_pair_signals, closes, daily_returns, pearson_of, pearson,
  correlation_of, ratio_history, std_ratio, z_score_of, is_skipped, signal_of, pairs_with,
}
use sibilla.Etoro.Screener.Ranking.{IsDecreasing, find_pair_signals-IsSorted}
use sibilla.Examples.Fixture.{whole}

abbrev day : ℕ → DailyCandle Fixed
day close = record {
  date = whole 0;
  open_ = whole close;
  high = whole close;
  low = whole close;
  close = whole close;
  volume = whole 100;
}

-- Days on which the price swings between `base` and a tenth more, up to a disturbance below `noise`.
abbrev swings : ℕ → ℕ → ℕ → List (DailyCandle Fixed)
swings zero base noise = []
swings (suc n) base noise = day (base + base * (n % 2) / 10 + n % noise) ∷ swings n base noise

abbrev instrument : ℕ → InstrumentCandidate Fixed
instrument id = record { instrument_id = id; name = text "Acme"; price = whole 50 }

-- The first one jumps against the others, the third one has too few candles.
abbrev universe : List (Entry Fixed)
universe =
    (instrument 7, swings 60 1000 1 ++ (day 1500 ∷ []))
    ∷ (instrument 8, swings 60 500 3 ++ (day 500 ∷ []))
    ∷ (instrument 9, swings 10 50 1)
    ∷ []

found_one : length (find_pair_signals universe) ≡ 1
unfolding find_pair_signals scan closes daily_returns pearson_of pearson correlation_of
    ratio_history std_ratio z_score_of is_skipped signal_of pairs_with lit mul div sqrt isqrt_from
    of_int ◌+ℤ◌
found_one = refl

find_pair_signals-IsSorted_example :
    IsDecreasing (find_pair_signals universe)
    × ((z : Fixed)
        → select (λ s. fabs s.z_score =F z) (find_pair_signals universe)
          ≡ select (λ s. fabs s.z_score =F z) (scan (select is_eligible universe)))
find_pair_signals-IsSorted_example = find_pair_signals-IsSorted Fixed-IsFloat universe
