-- ===== src/Quant/EventStudy.antt =====
-- src/quant/event_study.py: the reaction of a price to an event. `ln` is math.log; the source's texts
-- are passed on.
use sibilla.Base.{
  Text, Option, none, some, ◌||◌, if◌then◌else◌, ◌≡◌, refl, Bool-cases, inl, inr, arith,
}
use sibilla.Float.{
  Float, IsFloat, ◌⊕◌, ◌⊖◌, ◌⊗◌, ◌⊘◌, ◌<?◌, ◌=F◌, ◌≼◌, nought, one, fmin, fmax, fabs,
}
use sibilla.Enums.Market.{Direction, sign}
use sibilla.Quant.Features.{Series, price_at_or_before, price_at_or_after, realized_volatility}
use sibilla.Quant.NoLookahead.{up_to, price_at_or_before-up_to, realized_volatility-up_to}
use sibilla.Float.Laws.{sub-le, nought-le-one, le_refl}

pub record MarketReaction (W : Type 0) : Type 0 where
  pub epic : Text
  pub event_ts : W
  pub price_before_event : Option W
  pub price_at_event : Option W
  pub price_5s_after : Option W
  pub price_30s_after : Option W
  pub price_1m_after : Option W
  pub price_5m_after : Option W
  pub current_price : Option W
  pub realized_move : W
  pub expected_move : W
  pub residual_move : W
  pub volatility_pct : Option W
  pub cross_asset_confirmation : Option W
  pub data_source : Text

module _ {W : Type 0} ⦃F : Float W⦄ where
  -- `a or b`, for prices or None.
  abbrev pub price_or_else : Option W → Option W → Option W
  price_or_else none b = b
  price_or_else (some a) b = if a =F nought then b else some a

  abbrev pub given_or : Option W → Option W → Option W
  given_or none b = b
  given_or (some a) b = some a

  -- `current / before - 1.0`, where both are there and not zero.
  abbrev pub move_since : Option W → Option W → W
  move_since none current = nought
  move_since (some before) none = nought
  move_since (some before) (some current) =
      if (before =F nought) || (current =F nought) then nought else (current ⊘ before) ⊖ one

  -- `snap`
  unfoldable pub snap : Series W → W → W → W → Option W
  snap series event_ts now seconds =
      if now <? event_ts ⊕ seconds then none else price_at_or_before series (event_ts ⊕ seconds)

  -- The reaction, from the prices that are looked up.
  abbrev pub reaction_of :
      Text
      → Series W
      → W
      → W
      → W
      → Direction
      → Option W
      → Option W
      → Option W
      → Option W
      → Text
      → MarketReaction W
  reaction_of epic series event_ts now expected_move_pct direction before at_event current vol
        source =
      let realized = move_since before current in
      let signed_expected = fabs expected_move_pct ⊗ F.of_int (sign direction) in
      record {
        epic = epic;
        event_ts = event_ts;
        price_before_event = before;
        price_at_event = price_or_else at_event before;
        price_5s_after = snap series event_ts now (F.lit 5 0);
        price_30s_after = snap series event_ts now (F.lit 30 0);
        price_1m_after = snap series event_ts now (F.lit 60 0);
        price_5m_after = snap series event_ts now (F.lit 300 0);
        current_price = current;
        realized_move = realized;
        expected_move = signed_expected;
        residual_move = (signed_expected ⊖ realized) ⊗ F.of_int (sign direction);
        volatility_pct = vol;
        cross_asset_confirmation = none;
        data_source = source;
      }

  module _ (ln : W → W) where
    unfoldable pub build_market_reaction :
        Text → Series W → W → W → W → Direction → Option W → Text → MarketReaction W
    unfolding snap
    build_market_reaction epic series event_ts now expected direction current_price source =
        reaction_of epic series event_ts now expected direction
          (price_at_or_before series (event_ts ⊖ one))
          (price_at_or_after series event_ts (F.lit 180 0))
          (given_or current_price (price_at_or_before series now))
          (realized_volatility ln (F.lit 3600 0) now series) source

  -- `fraction_already_priced`
  unfoldable pub fraction_already_priced : MarketReaction W → W
  fraction_already_priced r =
      if r.expected_move =F nought
      then one
      else fmax nought (fmin (F.lit 20 1) (r.realized_move ⊘ r.expected_move))

module _ {W : Type 0} ⦃F : Float W⦄ (L : IsFloat W) where
  snap-up_to :
      (s : Series W) (event_ts now seconds : W)
      → snap (up_to now s) event_ts now seconds ≡ snap s event_ts now seconds
  unfolding snap
  snap-up_to s event_ts now seconds = elim (Bool-cases (now <? event_ts ⊕ seconds)) [
    | inl future ↦ rw (future, snap) refl
    | inr past ↦
        rw (past, snap) (price_at_or_before-up_to L (event_ts ⊕ seconds) now s (ground arith))
  ]

  -- A reaction at `now`, not before its event, does not depend on prices after `now`, but for
  -- `price_at_event`.
  pub build_market_reaction-up_to :
      (ln : W → W) (epic : Text) (s : Series W) (event_ts now expected : W) (d : Direction)
      (current any : Option W) (source : Text)
      → event_ts ≼ now
      → record (build_market_reaction ln epic
          (up_to now s)
          event_ts
          now
          expected
          d
          current
          source) { price_at_event = any }
        ≡ record (build_market_reaction ln epic s event_ts now expected d current source) {
          price_at_event = any;
        }
  unfolding build_market_reaction
  build_market_reaction-up_to ln epic s event_ts now expected d current any source h =
      let earlier =
        L.le_trans (event_ts ⊖ one) event_ts now (sub-le L event_ts one (nought-le-one L)) h in
      cc (
        price_at_or_before-up_to L (event_ts ⊖ one) now s earlier,
        price_at_or_before-up_to L now now s (le_refl L now),
        realized_volatility-up_to L ln (F.lit 3600 0) now now s (le_refl L now),
        snap-up_to s event_ts now (F.lit 5 0),
        snap-up_to s event_ts now (F.lit 30 0),
        snap-up_to s event_ts now (F.lit 60 0),
        snap-up_to s event_ts now (F.lit 300 0),
      )
