-- ===== src/Quant/Features.antt =====
-- src/quant/features.py: numbers from a series of prices. A series is a list of timestamps and values;
-- the values are floats, so the filter of `_sorted` keeps them all. `math.log` and `math.log1p` are the
-- arguments `ln` and `ln1p`.
use sibilla.Base.{
  ℕ, suc, ◌-◌, Text, text, List, [], ◌∷◌, length, drop, map, select, Option, none, some, Bool,
  false, ◌&&◌, ◌||◌, Dict, ltb, if◌then◌else◌, sort_by,
}
use sibilla.Base.Int.{pos}
use sibilla.Float.{Float, ◌⊕◌, ◌⊖◌, ◌⊗◌, ◌⊘◌, ◌≤?◌, ◌<?◌, ◌=F◌, nought, one, fmax, fabs}
use sibilla.Market.Registry.{fsum}

abbrev pub Series : Type 0 → Type 0
Series W = List (W × W)

module _ {W : Type 0} ⦃F : Float W⦄ where
  abbrev pub is_earlier : W × W → W × W → Bool
  is_earlier p q = p.0 ≤? q.0

  -- `_sorted`
  unfoldable pub sorted_points : Series W → Series W
  sorted_points series = sort_by is_earlier series

  -- The loop that keeps the last value until a point after `ts`.
  abbrev pub last_before : W → Option W → Series W → Option W
  last_before ts best [] = best
  last_before ts best ((t, value) ∷ points) =
      if t ≤? ts then last_before ts (some value) points else best

  unfoldable pub price_at_or_before : Series W → W → Option W
  unfolding sorted_points
  price_at_or_before series ts = last_before ts none (sorted_points series)

  abbrev pub first_after : W → W → Series W → Option W
  first_after ts tolerance_s [] = none
  first_after ts tolerance_s ((t, value) ∷ points) =
      if ts ≤? t
      then (if t ⊖ ts ≤? tolerance_s then some value else none)
      else first_after ts tolerance_s points

  unfoldable pub price_at_or_after : Series W → W → W → Option W
  unfolding sorted_points
  price_at_or_after series ts tolerance_s = first_after ts tolerance_s (sorted_points series)

  -- `p1 / p0 - 1.0`, where there is a start that is not zero.
  abbrev pub return_of : Option W → Option W → Option W
  return_of none p1 = none
  return_of (some p0) none = none
  return_of (some p0) (some p1) = if p0 =F nought then none else some ((p1 ⊘ p0) ⊖ one)

  unfoldable pub return_between : Series W → W → W → Option W
  unfolding price_at_or_before
  return_between series start end =
      return_of (price_at_or_before series start) (price_at_or_before series end)

  -- `HORIZONS_S`
  abbrev pub horizons_s : List (Text × W)
  horizons_s =
      (text "5s", F.lit 5 0)
      ∷ ((text "30s", F.lit 30 0)
          ∷ ((text "1m", F.lit 60 0)
              ∷ ((text "5m", F.lit 300 0)
                  ∷ ((text "15m", F.lit 900 0) ∷ ((text "1h", F.lit 3600 0) ∷ [])))))

  -- `target > now`, where a `now` is given.
  abbrev pub is_future : W → Option W → Bool
  is_future target none = false
  is_future target (some now) = now <? target

  -- `price / entry_price - 1.0 if price and entry_price else None`
  abbrev pub gain_over : W → Option W → Option W
  gain_over entry_price none = none
  gain_over entry_price (some price) =
      if (price =F nought) || (entry_price =F nought)
      then none
      else some ((price ⊘ entry_price) ⊖ one)

  unfoldable pub returns_after :
      Series W → W → W → Option W → List (Text × W) → Dict Text (Option W)
  unfolding price_at_or_before
  returns_after series anchor entry_price now [] = []
  returns_after series anchor entry_price now ((label, seconds) ∷ horizons) =
      (
        label,
        if is_future (anchor ⊕ seconds) now
            then none
            else gain_over entry_price (price_at_or_before series (anchor ⊕ seconds)),
      )
      ∷ returns_after series anchor entry_price now horizons

  unfoldable pub mean_of : List W → W
  mean_of values = fsum values ⊘ F.of_int (pos (length values))

  unfoldable pub stdev : List W → W
  unfolding mean_of
  stdev values =
      if ltb (length values) 2
      then nought
      else F.sqrt (
          fsum (map (λ v. (v ⊖ mean_of values) ⊗ (v ⊖ mean_of values)) values)
          ⊘ F.of_int (pos (length values - 1)))

  abbrev pub true_range : W → W → W → W
  true_range high low prev_close =
      fmax (fmax (high ⊖ low) (fabs (high ⊖ prev_close))) (fabs (low ⊖ prev_close))

  -- Candles are (high, low, close).
  abbrev pub true_ranges : List (W × W × W) → List W
  true_ranges [] = []
  true_ranges (c ∷ []) = []
  true_ranges (c ∷ (d ∷ ds)) = true_range d.0 d.1 c.2 ∷ true_ranges (d ∷ ds)

  unfoldable pub atr : List (W × W × W) → ℕ → Option W
  unfolding mean_of
  atr candles period =
      let ranges = true_ranges candles in
      let recent = if ltb 0 period then drop (length ranges - period) ranges else ranges in
      if ltb (length candles) (suc period)
      then none
      else (if ltb 0 (length recent) then some (mean_of recent) else none)

  unfoldable pub zscore : W → List W → Option W
  unfolding stdev mean_of
  zscore value values =
      if ltb (length values) 3
      then none
      else (if stdev values =F nought then none else some ((value ⊖ mean_of values) ⊘ stdev values))

  -- The points of [now - window_s, now], in the order of their times.
  unfoldable pub points_within : W → W → Series W → Series W
  unfolding sorted_points
  points_within window_s now series =
      select (λ p. (now ⊖ window_s ≤? p.0) && (p.0 ≤? now)) (sorted_points series)

  module _ (ln : W → W) where
    unfoldable pub log_returns : List W → List W
    log_returns [] = []
    log_returns (p ∷ []) = []
    log_returns (p ∷ (c ∷ cs)) =
        let rest = log_returns (c ∷ cs) in
        if (nought <? p) && (nought <? c) then ln (c ⊘ p) ∷ rest else rest

    -- With `per_second` false, as every caller in the sources has it.
    unfoldable pub realized_volatility : W → W → Series W → Option W
    unfolding points_within log_returns stdev
    realized_volatility window_s now series =
        let points = points_within window_s now series in
        let rets = log_returns (map (λ p. p.1) points) in
        if ltb (length points) 5
        then none
        else (if ltb (length rets) 3 then none else some (stdev rets))
