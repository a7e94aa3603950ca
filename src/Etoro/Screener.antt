-- ===== src/Etoro/Screener.antt =====
-- src/strategies/etoro_pairs.py: the screener of pairs whose price ratio has left its mean.
pub mod Ranking
pub mod Signals
use sibilla.Base.{
  ℕ, ◌-◌, Text, List, [], ◌∷◌, ◌++◌, length, take, drop, map, select, Bool, true, false, ◌||◌, ltb,
  leb, if◌then◌else◌, sort_by,
}
use sibilla.Base.Int.{pos}
use sibilla.Float.{Float, ◌⊖◌, ◌⊗◌, ◌⊘◌, ◌≤?◌, ◌<?◌, nought, fabs}
use sibilla.Enums.Market.{Direction}
use sibilla.Market.Registry.{fsum}
use sibilla.Etoro.Momentum.{InstrumentCandidate, DailyCandle}

pub record PairSignal (W : Type 0) : Type 0 where
  pub instrument_a_id : ℕ
  pub instrument_a_name : Text
  pub instrument_b_id : ℕ
  pub instrument_b_name : Text
  pub price_a : W
  pub price_b : W
  pub correlation : W
  pub z_score : W
  pub direction_a : Direction
  pub direction_b : Direction

-- `LOOKBACK_SESSIONS` and `MIN_HISTORY_LENGTH`.
abbrev pub lookback_sessions : ℕ
lookback_sessions = 60

abbrev pub min_history_length : ℕ
min_history_length = 61

-- An entry of the universe: an instrument and its daily candles.
abbrev pub Entry : Type 0 → Type 0
Entry W = InstrumentCandidate W × List (DailyCandle W)

module _ {ℓ} {A : Type ℓ} where
  -- `xs[-n:]`, for n ≥ 1
  abbrev pub last_n : ℕ → List A → List A
  last_n n xs = drop (length xs - n) xs

  -- `xs[:-1]`
  abbrev pub all_but_last : List A → List A
  all_but_last xs = take (length xs - 1) xs

  -- `xs[-1]`; the default is not read where the list has an element.
  abbrev pub last : A → List A → A
  last default [] = default
  last default (x ∷ xs) = last x xs

module _ {W : Type 0} ⦃F : Float W⦄ where
  -- `MIN_CORRELATION` and `ENTRY_Z_SCORE`.
  abbrev pub min_correlation : W
  min_correlation = F.lit 75 2

  abbrev pub entry_z_score : W
  entry_z_score = F.lit 20 1

  abbrev pub average : List W → W
  average xs = fsum xs ⊘ F.of_int (pos (length xs))

  -- `sum((v - mean) ** 2 for v in xs)`
  abbrev pub squares_about : W → List W → W
  squares_about mean xs = fsum (map (λ v. (v ⊖ mean) ⊗ (v ⊖ mean)) xs)

  unfoldable pub daily_returns : List W → List W
  daily_returns [] = []
  daily_returns (x ∷ []) = []
  daily_returns (x ∷ (y ∷ ys)) =
      let rest = daily_returns (y ∷ ys) in if nought <? x then ((y ⊖ x) ⊘ x) ∷ rest else rest

  -- `sum((x[i] - mean_x) * (y[i] - mean_y) for i in range(n))`, term by term.
  abbrev pub products_about : W → W → List W → List W → List W
  products_about mx my [] ys = []
  products_about mx my (x ∷ xs) [] = []
  products_about mx my (x ∷ xs) (y ∷ ys) = ((x ⊖ mx) ⊗ (y ⊖ my)) ∷ products_about mx my xs ys

  -- From the cuts on.
  unfoldable pub pearson_of : List W → List W → W
  pearson_of xs ys =
      let mx = average xs in
      let my = average ys in
      let cov = fsum (products_about mx my xs ys) in
      let var_x = squares_about mx xs in
      let var_y = squares_about my ys in
      if (var_x ≤? nought) || (var_y ≤? nought) then nought else cov ⊘ (F.sqrt var_x ⊗ F.sqrt var_y)

  unfoldable pub pearson : List W → List W → W
  unfolding pearson_of
  pearson x y =
      let n = if ltb (length y) (length x) then length y else length x in
      if ltb n 2 then nought else pearson_of (last_n n x) (last_n n y)

  -- `[a / b for a, b in zip(history_a, history_b) if b > 0]`
  abbrev pub ratios : List W → List W → List W
  ratios [] bs = []
  ratios (a ∷ as') [] = []
  ratios (a ∷ as') (b ∷ bs) =
      let rest = ratios as' bs in if nought <? b then (a ⊘ b) ∷ rest else rest

  -- The closes of the sessions that are looked at.
  unfoldable pub closes : Entry W → List W
  closes e = map (λ c. c.close) (last_n lookback_sessions e.1)

  abbrev pub history_of : Entry W → List W
  unfolding closes
  history_of e = all_but_last (closes e)

  abbrev pub today_of : Entry W → W
  unfolding closes
  today_of e = last nought (closes e)

  unfoldable pub correlation_of : Entry W → Entry W → W
  unfolding pearson daily_returns
  correlation_of a b = pearson (daily_returns (history_of a)) (daily_returns (history_of b))

  unfoldable pub ratio_history : Entry W → Entry W → List W
  ratio_history a b = ratios (history_of a) (history_of b)

  unfoldable pub std_ratio : List W → W
  std_ratio rs = F.sqrt (squares_about (average rs) rs ⊘ F.of_int (pos (length rs)))

  unfoldable pub z_score_of : Entry W → Entry W → W
  unfolding ratio_history std_ratio
  z_score_of a b =
      let rs = ratio_history a b in ((today_of a ⊘ today_of b) ⊖ average rs) ⊘ std_ratio rs

  -- The tests of the loop's body, each of which is a `continue`.
  unfoldable pub is_skipped : Entry W → Entry W → Bool
  unfolding correlation_of ratio_history std_ratio z_score_of
  is_skipped a b =
      (correlation_of a b <? min_correlation)
      || ((ltb (length (ratio_history a b)) 2 || (today_of b ≤? nought))
          || ((std_ratio (ratio_history a b) ≤? nought)
              || (fabs (z_score_of a b) <? entry_z_score)))

  unfoldable pub signal_of : Entry W → Entry W → PairSignal W
  unfolding correlation_of z_score_of
  signal_of a b = record {
    instrument_a_id = a.0.instrument_id;
    instrument_a_name = a.0.name;
    instrument_b_id = b.0.instrument_id;
    instrument_b_name = b.0.name;
    price_a = today_of a;
    price_b = today_of b;
    correlation = correlation_of a b;
    z_score = z_score_of a b;
    direction_a = if nought <? z_score_of a b then Direction.sell else Direction.buy;
    direction_b = if nought <? z_score_of a b then Direction.buy else Direction.sell;
  }

  -- The inner loop, over the entries after `a`.
  unfoldable pub pairs_with : Entry W → List (Entry W) → List (PairSignal W)
  unfolding is_skipped signal_of
  pairs_with a [] = []
  pairs_with a (b ∷ bs) = elim (is_skipped a b) [
    | true ↦ pairs_with a bs
    | false ↦ signal_of a b ∷ pairs_with a bs
  ]

  -- The outer loop.
  unfoldable pub scan : List (Entry W) → List (PairSignal W)
  unfolding pairs_with
  scan [] = []
  scan (a ∷ es) = pairs_with a es ++ scan es

  abbrev pub is_eligible : Entry W → Bool
  is_eligible e = leb min_history_length (length e.1)

  -- `key=lambda s: abs(s.z_score), reverse=True`
  abbrev pub is_farther : PairSignal W → PairSignal W → Bool
  is_farther s t = fabs t.z_score ≤? fabs s.z_score

  unfoldable pub find_pair_signals : List (Entry W) → List (PairSignal W)
  unfolding scan
  find_pair_signals pairs = sort_by is_farther (scan (select is_eligible pairs))
