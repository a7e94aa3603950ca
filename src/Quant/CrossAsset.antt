-- ===== src/Quant/CrossAsset.antt =====
-- src/quant/cross_asset.py: whether related markets move as a thesis expects, and which of them lag.
use sibilla.Base.{
  ℕ, suc, ◌+◌, ◌==◌, Text, text, text_key, List, [], ◌∷◌, map, Option, none, some, Bool, true,
  false, not, Dict, lookup, get, insert, if◌then◌else◌, ◌≡◌, refl, sym, ap, ◌∙◌,
}
use sibilla.Base.Int.{pos, neg_ℕ, ◌+ℤ◌}
use sibilla.Float.{Float, IsFloat, ◌⊖◌, ◌⊗◌, ◌⊘◌, ◌≤?◌, ◌<?◌, ◌≼◌, nought, one, fabs}
use sibilla.Float.Laws.{sub-le, nought-le-one}
use sibilla.Enums.Market.{Direction, Factor}
use sibilla.Enums.Laws.{factor_key}
use sibilla.Schemas.Market.{Instrument}
use sibilla.Market.Registry.{InstrumentRegistry, fsum}
use sibilla.Quant.Features.{Series, sorted_points, price_at_or_before, return_of, return_between}
use sibilla.Quant.NoLookahead.{up_to, price_at_or_before-up_to}
use sibilla.Evaluation.Backtest.{is_buy}
use sibilla.Evaluation.Backtest.Truncated.{truncated, cut_of, lookup-truncated}

pub record CrossAssetCheck (W : Type 0) : Type 0 where
  pub expected : Dict Text Direction
  pub observed : Dict Text W
  pub confirmations : ℕ
  pub contradictions : ℕ
  pub score : W
  pub interpretation : Text

-- What the loop has counted.
pub record Tally (W : Type 0) : Type 0 where
  pub observed : Dict Text W
  pub confirmations : ℕ
  pub contradictions : ℕ

abbrev pub is_same : Bool → Bool → Bool
is_same true b = b
is_same false b = not b

module _ {W : Type 0} ⦃F : Float W⦄ where
  -- `sum(factors.get(f, 0.0) * shock for f, shock in factor_shocks.items())`
  abbrev pub factor_score : Dict Factor W → Dict Factor W → W
  factor_score factors shocks = fsum (map (λ e. get e.0 nought factors ⊗ e.1) shocks)

  unfoldable pub moves_from :
      List (Text × Instrument W) → Dict Factor W → Dict Text Direction → Dict Text Direction
  moves_from [] shocks expected = expected
  moves_from ((epic, i) ∷ is_) shocks expected =
      let score = factor_score i.factors shocks in
      moves_from is_ shocks (
        if F.lit 3 1 ≤? fabs score
        then insert i.epic (if nought <? score then Direction.buy else Direction.sell) expected
        else expected)

  unfoldable pub expected_moves_from_factors :
      InstrumentRegistry W → Dict Factor W → Dict Text Direction
  unfolding moves_from
  expected_moves_from_factors registry shocks = moves_from registry.by_epic shocks []

  -- One market's return, or None where it is not counted.
  abbrev pub observe : W → Text → Direction → Option W → Tally W → Tally W
  observe min_move epic direction none t = t
  observe min_move epic direction (some r) t =
      let seen = record t { observed = insert epic r t.observed } in
      if fabs r <? min_move
      then seen
      else (if is_same (nought <? r) (is_buy direction)
          then record seen { confirmations = suc t.confirmations }
          else record seen { contradictions = suc t.contradictions })

  -- The return of a market since just before the event; a series that is missing or empty has none.
  abbrev pub return_since : Option (Series W) → W → W → Option W
  unfolding return_between
  return_since none event_ts now = none
  return_since (some []) event_ts now = none
  return_since (some (p ∷ s)) event_ts now = return_between (p ∷ s) (event_ts ⊖ one) now

  unfoldable pub tally : W → Dict Text (Series W) → W → W → Dict Text Direction → Tally W → Tally W
  tally min_move series_by_epic event_ts now [] t = t
  tally min_move series_by_epic event_ts now ((epic, direction) ∷ expected) t =
      tally min_move series_by_epic event_ts now expected
        (observe min_move epic direction (return_since (lookup epic series_by_epic) event_ts now) t)

  -- `(confirmations - contradictions) / total if total else 0.0`
  abbrev pub score_of : Tally W → W
  score_of t =
      let total = t.confirmations + t.contradictions in
      if total == 0
      then nought
      else F.of_int (pos t.confirmations +ℤ neg_ℕ t.contradictions) ⊘ F.of_int (pos total)

  abbrev pub interpretation_of : ℕ → W → Text
  interpretation_of total score =
      if total == 0
      then text "nessun movimento cross-asset significativo ancora osservabile"
      else (if F.lit 5 1 ≤? score
          then text "cross-asset conferma la tesi"
          else (if score ≤? F.neg (F.lit 5 1)
              then text
                  "market interpretation may differ: i mercati correlati si muovono contro la tesi"
              else text "segnali cross-asset misti"))

  unfoldable pub cross_asset_check :
      Dict Text Direction → Dict Text (Series W) → W → W → W → CrossAssetCheck W
  unfolding tally
  cross_asset_check expected series_by_epic event_ts now min_move =
      let t =
        tally min_move series_by_epic event_ts now expected
          (record { observed = []; confirmations = 0; contradictions = 0 }) in
      record {
        expected = expected;
        observed = t.observed;
        confirmations = t.confirmations;
        contradictions = t.contradictions;
        score = score_of t;
        interpretation = interpretation_of (t.confirmations + t.contradictions) (score_of t);
      }

module _ {W : Type 0} ⦃F : Float W⦄ (L : IsFloat W) where
  return_since-between :
      (s : Series W) (event_ts now : W)
      → return_since (some s) event_ts now ≡ return_between s (event_ts ⊖ one) now
  unfolding return_between price_at_or_before sorted_points
  return_since-between [] event_ts now = refl
  return_since-between (p ∷ s) event_ts now = refl

  return_between-up_to :
      (s : Series W) (start now end : W)
      → start ≼ end
      → now ≼ end
      → return_between (up_to end s) start now ≡ return_between s start now
  unfolding return_between
  return_between-up_to s start now end h k =
      ap (λ p. return_of p (price_at_or_before (up_to end s) now))
        (price_at_or_before-up_to L start end s h)
      ∙ ap (return_of (price_at_or_before s start)) (price_at_or_before-up_to L now end s k)

  return_since-cut :
      (o : Option (Series W)) (event_ts now end : W)
      → event_ts ≼ end
      → now ≼ end
      → return_since (cut_of end o) event_ts now ≡ return_since o event_ts now
  return_since-cut none event_ts now end h k = refl
  return_since-cut (some s) event_ts now end h k =
      return_since-between (up_to end s) event_ts now
      ∙ return_between-up_to s (event_ts ⊖ one) now end
          (L.le_trans (event_ts ⊖ one) event_ts end (sub-le L event_ts one (nought-le-one L)) h) k
      ∙ sym (return_since-between s event_ts now)

  tally-truncated :
      (min_move : W) (d : Dict Text (Series W)) (event_ts now end : W)
      (expected : Dict Text Direction) (t : Tally W)
      → event_ts ≼ end
      → now ≼ end
      → tally min_move (truncated end d) event_ts now expected t
        ≡ tally min_move d event_ts now expected t
  unfolding tally
  tally-truncated min_move d event_ts now end [] t h k = refl
  tally-truncated min_move d event_ts now end ((epic, direction) ∷ expected) t h k =
      let same =
        ap (λ o. return_since o event_ts now) (lookup-truncated end epic d)
        ∙ return_since-cut (lookup epic d) event_ts now end h k in
      ap
        (λ r.
          tally min_move (truncated end d) event_ts now expected
            (observe min_move epic direction r t))
        same
      ∙ tally-truncated min_move d event_ts now end expected
          (observe min_move epic direction (return_since (lookup epic d) event_ts now) t) h k

  -- The check of the related markets at `now` does not depend on prices after `now`, nor after any
  -- later time, for an event that is not after it.
  pub cross_asset_check-truncated :
      (expected : Dict Text Direction) (d : Dict Text (Series W)) (event_ts now end min_move : W)
      → event_ts ≼ now
      → now ≼ end
      → cross_asset_check expected (truncated end d) event_ts now min_move
        ≡ cross_asset_check expected d event_ts now min_move
  unfolding cross_asset_check
  cross_asset_check-truncated expected d event_ts now end min_move h k =
      ap
        (λ t. record {
          expected = expected;
          observed = t.observed;
          confirmations = t.confirmations;
          contradictions = t.contradictions;
          score = score_of t;
          interpretation = interpretation_of (t.confirmations + t.contradictions) (score_of t);
        })
        (tally-truncated min_move d event_ts now end expected
          (record { observed = []; confirmations = 0; contradictions = 0 })
          (L.le_trans event_ts now end h k) k)
