-- ===== src/Quant/ResidualAlpha.antt =====
-- src/quant/residual_alpha.py: what a move still promises after the costs of a trade.
use sibilla.Base.{
  ℕ, ◌+◌, ◌/◌, ◌%◌, ◌==◌, Option, none, some, Bool-cases, inl, inr, true, ◌&&◌, &&-split, leb, ltb,
  if◌then◌else◌, ◌≡◌, refl, subst, arith,
}
use sibilla.Base.Int.{pos}
use sibilla.Float.{
  Float, IsFloat, ◌⊕◌, ◌⊖◌, ◌⊗◌, ◌⊘◌, ◌≤?◌, ◌<?◌, ◌≼◌, ◌≺◌, nought, one, fmin, fmax, fabs,
}
use sibilla.Float.Laws.{add_nonneg, mul_nonneg, div_nonneg, sub-le, le-fmin, lt_of_lt_of_le}
use sibilla.Enums.Market.{Direction, sign}
use sibilla.Schemas.Market.{
  Instrument, Quote, CostEstimate, ResidualAlpha, quote_spread_pct, total_pct,
}
use sibilla.Quant.EventStudy.{MarketReaction}

-- `INTRADAY_S`
abbrev pub intraday_s : ℕ
intraday_s = 28_800

unfoldable pub nights_of : ℕ → ℕ
nights_of holding_seconds =
    let nights = holding_seconds / 86_400 + (if holding_seconds % 86_400 == 0 then 0 else 1) in
    if ltb 1 nights then nights else 1

module _ {W : Type 0} ⦃F : Float W⦄ where
  unfoldable pub holding_cost_pct : Instrument W → ℕ → W
  unfolding nights_of
  holding_cost_pct i holding_seconds =
      if leb holding_seconds intraday_s
      then nought
      else (i.overnight_funding_pct_annual ⊘ F.lit 3650 1)
        ⊗ F.of_int (pos (nights_of holding_seconds))

  abbrev pub slippage_or : W → Option W → W
  slippage_or spread none = fmin (spread ⊗ F.lit 5 1) (F.lit 5 4)
  slippage_or spread (some s) = s

  abbrev pub impact_of : W → Option W → W
  impact_of spread none = nought
  impact_of spread (some notional) =
      if nought <? notional
      then (fmax nought ((notional ⊖ F.lit 100_000 0) ⊘ F.lit 100_000 0) ⊗ spread) ⊗ F.lit 1 1
      else nought

  unfoldable pub estimate_costs : Instrument W → Quote W → ℕ → Option W → Option W → CostEstimate W
  unfolding holding_cost_pct quote_spread_pct
  estimate_costs i q holding_seconds expected_slippage size_notional = record {
    spread_pct = quote_spread_pct q;
    commission_pct = i.commission_pct ⊗ F.lit 2 0;
    slippage_pct = slippage_or (quote_spread_pct q) expected_slippage;
    financing_pct = holding_cost_pct i holding_seconds;
    market_impact_pct = impact_of (quote_spread_pct q) size_notional;
  }

  -- `reaction.realized_move if reaction else 0.0`
  abbrev pub realized_or : Option (MarketReaction W) → W
  realized_or none = nought
  realized_or (some r) = r.realized_move

  unfoldable pub compute_residual_alpha :
      Instrument W
      → Quote W
      → Direction
      → W
      → Option (MarketReaction W)
      → ℕ
      → W
      → W
      → Option W
      → ResidualAlpha W
  unfolding estimate_costs total_pct
  compute_residual_alpha i q d expected reaction holding_seconds margin min_net slippage =
      let realized = realized_or reaction ⊗ F.of_int (sign d) in
      let residual = fabs expected ⊖ realized in
      let costs = estimate_costs i q holding_seconds slippage none in
      let net = (residual ⊖ total_pct costs) ⊖ margin in
      record {
        epic = i.epic;
        direction = d;
        expected_move_pct = fabs expected;
        realized_move_pct = realized;
        residual_move_pct = residual;
        costs = costs;
        safety_margin_pct = margin;
        net_alpha_pct = net;
        passes = (nought <? net) && (min_net ≤? net);
      }

  unfoldable pub slippage_pct : W → W → Direction → W
  slippage_pct fill_price reference_price direction =
      let diff = (fill_price ⊖ reference_price) ⊘ reference_price in
      if reference_price ≤? nought
      then nought
      else elim direction [ Direction.buy ↦ diff | Direction.sell ↦ F.neg diff ]

  -- What a trade costs is not negative.
  abbrev pub IsCharged : Instrument W → Quote W → Option W → Type 0
  IsCharged i q none =
      (nought ≼ i.commission_pct)
      × (nought ≼ i.overnight_funding_pct_annual)
      × (nought ≼ quote_spread_pct q)
  IsCharged i q (some slippage) =
      (nought ≼ i.commission_pct)
      × (nought ≼ i.overnight_funding_pct_annual)
      × ((nought ≼ quote_spread_pct q) × (nought ≼ slippage))

module _ {W : Type 0} ⦃F : Float W⦄ (L : IsFloat W) where
  lit_nonneg : (m k : ℕ) → nought ≼ F.lit m k
  lit_nonneg m k = L.lit_mono 0 0 m k (omega arith)

  of_int_nonneg : (n : ℕ) → nought ≼ F.of_int (pos n)
  of_int_nonneg n =
      subst (λ x. x ≼ F.of_int (pos n)) L.of_int-zero (L.of_int_mono (pos 0) (pos n) (omega arith))

  costs_nonneg :
      (spread commission slippage financing : W)
      → nought ≼ spread
      → nought ≼ commission
      → nought ≼ slippage
      → nought ≼ financing
      → nought ≼ spread ⊕ commission ⊕ slippage ⊕ financing ⊕ nought
  costs_nonneg spread commission slippage financing a b c d =
      add_nonneg L (spread ⊕ commission ⊕ slippage ⊕ financing) nought
        (add_nonneg L (spread ⊕ commission ⊕ slippage) financing
          (add_nonneg L (spread ⊕ commission) slippage (add_nonneg L spread commission a b) c) d)
        (lit_nonneg 0 0)

  holding_cost_pct_nonneg :
      (i : Instrument W) (holding_seconds : ℕ)
      → nought ≼ i.overnight_funding_pct_annual
      → nought ≼ holding_cost_pct i holding_seconds
  unfolding holding_cost_pct
  holding_cost_pct_nonneg i holding_seconds h = elim (Bool-cases (leb holding_seconds intraday_s)) [
    | inl intraday ↦ rw (intraday, holding_cost_pct) (lit_nonneg 0 0)
    | inr overnight ↦
        rw (overnight, holding_cost_pct)
          (mul_nonneg L (i.overnight_funding_pct_annual ⊘ F.lit 3650 1)
            (F.of_int (pos (nights_of holding_seconds)))
            (div_nonneg L i.overnight_funding_pct_annual (F.lit 3650 1) h (
              lt_of_lt_of_le L nought one (F.lit 3650 1) L.nought-lt-one
                (L.lit_mono 1 0 3650 1 (omega arith))))
            (of_int_nonneg (nights_of holding_seconds)))
  ]

  estimate_costs_nonneg :
      (i : Instrument W) (q : Quote W) (holding_seconds : ℕ) (slippage : Option W)
      → IsCharged i q slippage
      → nought ≼ total_pct (estimate_costs i q holding_seconds slippage none)
  unfolding estimate_costs total_pct
  estimate_costs_nonneg i q holding_seconds none (c, f, s) =
      costs_nonneg (quote_spread_pct q) (i.commission_pct ⊗ F.lit 2 0)
        (fmin (quote_spread_pct q ⊗ F.lit 5 1) (F.lit 5 4)) (holding_cost_pct i holding_seconds) s
        (mul_nonneg L i.commission_pct (F.lit 2 0) c (lit_nonneg 2 0))
        (le-fmin L (quote_spread_pct q ⊗ F.lit 5 1) (F.lit 5 4) nought
          (mul_nonneg L (quote_spread_pct q) (F.lit 5 1) s (lit_nonneg 5 1)) (lit_nonneg 5 4))
        (holding_cost_pct_nonneg i holding_seconds f)
  estimate_costs_nonneg i q holding_seconds (some slippage) (c, f, (s, l)) =
      costs_nonneg (quote_spread_pct q) (i.commission_pct ⊗ F.lit 2 0) slippage
        (holding_cost_pct i holding_seconds) s
        (mul_nonneg L i.commission_pct (F.lit 2 0) c (lit_nonneg 2 0)) l
        (holding_cost_pct_nonneg i holding_seconds f)

  -- What is left of the expected move of a trade: the move that is already made is taken off, and then
  -- the spread, two commissions, the slippage, the financing and the safety margin. A residual that
  -- passes is positive and not under the minimum after all of these, none of which adds to it, since
  -- costs and margin are not negative.
  pub compute_residual_alpha-passes :
      (i : Instrument W) (q : Quote W) (d : Direction) (expected : W)
      (reaction : Option (MarketReaction W)) (holding_seconds : ℕ) (margin min_net : W)
      (slippage : Option W)
      → IsCharged i q slippage
      → nought ≼ margin
      → let r =
          compute_residual_alpha i q d expected reaction holding_seconds margin min_net slippage in
        let spread = quote_spread_pct q in
        let left = fabs expected ⊖ realized_or reaction ⊗ F.of_int (sign d) in
        let costs =
          spread
          ⊕ i.commission_pct ⊗ F.lit 2 0
          ⊕ slippage_or spread slippage
          ⊕ holding_cost_pct i holding_seconds
          ⊕ nought in
        r.passes ≡ true
        → (nought ≺ (left ⊖ costs) ⊖ margin)
          × (min_net ≼ (left ⊖ costs) ⊖ margin)
          × (((left ⊖ costs) ⊖ margin ≼ left ⊖ costs) × (left ⊖ costs ≼ left))
          × (r.net_alpha_pct ≡ (left ⊖ costs) ⊖ margin)
  unfolding compute_residual_alpha estimate_costs total_pct
  compute_residual_alpha-passes i q d expected reaction holding_seconds margin min_net slippage
        charged kept passes =
      let realized = realized_or reaction ⊗ F.of_int (sign d) in
      let residual = fabs expected ⊖ realized in
      let costs = total_pct (estimate_costs i q holding_seconds slippage none) in
      let net = (residual ⊖ costs) ⊖ margin in
      let (positive, enough) = &&-split (nought <? net) (min_net ≤? net) passes in
      (
        ground arith,
        enough,
        (
          sub-le L (residual ⊖ costs) margin kept,
          sub-le L residual costs (estimate_costs_nonneg i q holding_seconds slippage charged),
        ),
        refl,
      )
