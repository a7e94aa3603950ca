-- ===== src/Etoro/Screener/Signals.antt =====
-- What each signal of `find_pair_signals` rests on, src/strategies/etoro_pairs.py.
use sibilla.Base.{◌≤◌, List, length, Before, ◌≡◌, ◌⊎◌, map}
use sibilla.Base.Int.{pos}
use sibilla.Market.Registry.{fsum}
use sibilla.Float.{Float, ◌⊖◌, ◌⊗◌, ◌⊘◌, ◌≼◌, ◌≺◌, nought, fabs}
use sibilla.Enums.Market.{Direction}
use sibilla.Etoro.Screener.{
  PairSignal, Entry, min_history_length, min_correlation, entry_z_score, correlation_of,
  ratio_history,
}

module _ {W : Type 0} ⦃F : Float W⦄ where
  -- The standard deviation of a list, of the population: the root of the mean square distance.
  abbrev pub deviation_of : List W → W
  deviation_of rs =
      let n = F.of_int (pos (length rs)) in
      let mean = fsum rs ⊘ n in F.sqrt (fsum (map (λ v. (v ⊖ mean) ⊗ (v ⊖ mean)) rs) ⊘ n)

  abbrev pub mean_of : List W → W
  mean_of rs = fsum rs ⊘ F.of_int (pos (length rs))

  -- The dear side of the pair, by today's ratio against its mean, is sold and the other one bought.
  abbrev pub IsReversion : Entry W → Entry W → PairSignal W → Type 0
  IsReversion a b s =
      (((s.direction_a ≡ Direction.sell) × (s.direction_b ≡ Direction.buy))
        × (mean_of (ratio_history a b) ≺ s.price_a ⊘ s.price_b))
      ⊎ (((s.direction_a ≡ Direction.buy) × (s.direction_b ≡ Direction.sell))
          × (s.price_a ⊘ s.price_b ≺ mean_of (ratio_history a b)))

  -- Two entries, the first one before the second one, with histories that are long enough.
  abbrev pub Eligible : List (Entry W) → Entry W → Entry W → Type 0
  Eligible es a b =
      Before a b es × ((min_history_length ≤ length a.1) × (min_history_length ≤ length b.1))

  -- The two entries of a list that a signal is about, and what the screener found in them.
  pub record IsFounded (es : List (Entry W)) (s : PairSignal W) : Type 0 where
    pub a : Entry W
    pub b : Entry W
    pub eligible : Eligible es a b
    pub id_a : s.instrument_a_id ≡ a.0.instrument_id
    pub id_b : s.instrument_b_id ≡ b.0.instrument_id
    pub correlated : min_correlation ≼ correlation_of a b
    pub ratios : 2 ≤ length (ratio_history a b)
    pub priced : nought ≺ s.price_b
    pub spread : nought ≺ deviation_of (ratio_history a b)
    pub distance : s.z_score ≡ (
        ((s.price_a ⊘ s.price_b) ⊖ mean_of (ratio_history a b)) ⊘ deviation_of (ratio_history a b))
    pub far : entry_z_score ≼ fabs s.z_score
    pub reverts : IsReversion a b s
