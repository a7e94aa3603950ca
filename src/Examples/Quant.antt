-- ===== src/Examples/Quant.antt =====
-- The reaction of a price to an event, and the related markets, src/quant.
use sibilla.Base.{Text, text, [], ◌∷◌, none, some, ◌≡◌, refl, Dict}
use sibilla.Base.Int.{◌+ℤ◌}
use sibilla.Float.{◌⊕◌, ◌⊗◌, fabs, ◌⊖◌, ◌≼◌, ◌≺◌, nought, one}
use sibilla.Float.Fixed.{Fixed, fixed, lit, mul, div, of_int}
use sibilla.Float.Fixed.Laws.{Fixed-IsFloat}
use sibilla.Enums.Market.{Direction, sign}
use sibilla.Schemas.Market.{quote_spread_pct, quote_mid, quote_spread, total_pct}
use sibilla.Quant.Features.{Series, price_at_or_after, sorted_points}
use sibilla.Quant.NoLookahead.{up_to}
use sibilla.Quant.EventStudy.{build_market_reaction, build_market_reaction-up_to}
use sibilla.Quant.ResidualAlpha.{
  compute_residual_alpha, slippage_or, compute_residual_alpha-passes, estimate_costs,
  holding_cost_pct, nights_of,
}
use sibilla.Examples.Fixture.{whole, oil}
use sibilla.Examples.Etoro.{quote}

abbrev ln : Fixed → Fixed
ln x = x ⊖ one

abbrev series : Series Fixed
series = (whole 0, whole 100) ∷ ((whole 60, whole 101) ∷ ((whole 400, whole 90) ∷ []))

build_market_reaction-up_to_example :
    record (build_market_reaction ln
      (text "OIL")
      (up_to (whole 300) series)
      (whole 250)
      (whole 300)
      (lit 2 2)
      Direction.buy
      none
      (text "")) { price_at_event = none }
    ≡ record (build_market_reaction ln
        (text "OIL")
        series
        (whole 250)
        (whole 300)
        (lit 2 2)
        Direction.buy
        none
        (text "")) { price_at_event = none }
unfolding lit
build_market_reaction-up_to_example =
    build_market_reaction-up_to Fixed-IsFloat ln (text "OIL") series (whole 250) (whole 300)
      (lit 2 2) Direction.buy none none (text "") refl

-- The price at the event comes from a point that is after `now`.
ahead : price_at_or_after series (whole 250) (whole 180) ≡ some (whole 90)
unfolding price_at_or_after sorted_points lit ◌+ℤ◌
ahead = refl

compute_residual_alpha-passes_example :
    let r =
      compute_residual_alpha oil quote Direction.buy (lit 5 2) none 900 (lit 1 3) (lit 1 2) none in
    let left = fabs (lit 5 2) ⊖ nought ⊗ fixed.of_int (sign Direction.buy) in
    let costs =
      quote_spread_pct quote
      ⊕ oil.commission_pct ⊗ lit 2 0
      ⊕ slippage_or (quote_spread_pct quote) none
      ⊕ holding_cost_pct oil 900
      ⊕ nought in
    (nought ≺ (left ⊖ costs) ⊖ lit 1 3)
    × (lit 1 2 ≼ (left ⊖ costs) ⊖ lit 1 3)
    × (((left ⊖ costs) ⊖ lit 1 3 ≼ left ⊖ costs) × (left ⊖ costs ≼ left))
    × (r.net_alpha_pct ≡ (left ⊖ costs) ⊖ lit 1 3)
unfolding compute_residual_alpha estimate_costs holding_cost_pct nights_of total_pct
    quote_spread_pct quote_mid quote_spread sign lit mul div of_int ◌+ℤ◌
compute_residual_alpha-passes_example =
    compute_residual_alpha-passes Fixed-IsFloat oil quote Direction.buy (lit 5 2) none 900 (lit 1 3)
      (lit 1 2) none (refl, refl, refl) refl refl

abbrev by_epic : Dict Text (Series Fixed)
by_epic = (text "OIL", series) ∷ ((text "GOLD", []) ∷ [])

abbrev expected : Dict Text Direction
expected = (text "OIL", Direction.buy) ∷ ((text "GOLD", Direction.sell) ∷ [])
