-- ===== src/Etoro/Legs.antt =====
-- src/risk/etoro_pairs_adapter.py: the proposal for one leg of a pair, and its prices.
use sibilla.Base.{ℕ, Text, text, [], Option, none, some, ◌++◌, if◌then◌else◌}
use sibilla.Float.{Float, ◌⊕◌, ◌⊖◌, ◌⊗◌, ◌⊘◌, ◌<?◌, nought, one}
use sibilla.Enums.Market.{Direction, EntryType}
use sibilla.Enums.State.{SignalType, ReasonCode}
use sibilla.Schemas.Market.{Quote}
use sibilla.Schemas.Trade.{TradeProposal, validate_proposal}
use sibilla.Etoro.Proposal.{share, costs_of, residual_of, trade_id_of, horizon_seconds}

module _ {W : Type 0} ⦃F : Float W⦄ where
  abbrev pub leg_stop_pct : W
  leg_stop_pct = F.lit 4 2

  abbrev pub leg_target_pct : W
  leg_target_pct = F.lit 7 2

  abbrev pub risk_fraction_per_leg : W
  risk_fraction_per_leg = F.lit 1 2

  unfoldable pub leg_entry_price : Direction → Quote W → W
  leg_entry_price Direction.buy quote = quote.offer
  leg_entry_price Direction.sell quote = quote.bid

  -- The stop and the target as prices.
  unfoldable pub leg_stop_and_target : Direction → W → W × W
  leg_stop_and_target Direction.buy entry =
      (F.round 2 (entry ⊗ (one ⊖ leg_stop_pct)), F.round 2 (entry ⊗ (one ⊕ leg_target_pct)))
  leg_stop_and_target Direction.sell entry =
      (F.round 2 (entry ⊗ (one ⊕ leg_stop_pct)), F.round 2 (entry ⊗ (one ⊖ leg_target_pct)))

  unfoldable pub leg_proposal_of :
      ℕ → Text → Direction → Quote W → Text → Option W → TradeProposal W
  unfolding share costs_of residual_of leg_entry_price
  leg_proposal_of instrument_id name direction quote pair_label requested_risk_eur =
      let entry = leg_entry_price direction quote in
      let spread : W = if nought <? entry then (quote.offer ⊖ quote.bid) ⊘ entry else nought in
      record {
        trade_id = trade_id_of (text "etoro-pair-") instrument_id quote.ts;
        event_id = pair_label;
        strategy_id = text "etoro_mean_reversion_pairs";
        signal_type = SignalType.cross_asset_lag;
        instrument = share quote.epic name;
        epic = quote.epic;
        direction = direction;
        entry_type = EntryType.market;
        quote = quote;
        max_entry = entry;
        max_slippage_pct = F.lit 5 4;
        stop_distance = entry ⊗ leg_stop_pct;
        limit_distance = some (entry ⊗ leg_target_pct);
        stop_rationale = text "-4% meccanico dall'entry (gamba pair, " ++ (pair_label ++ text ")");
        time_horizon_seconds = horizon_seconds;
        expected_return_pct = leg_target_pct;
        expected_loss_pct = leg_stop_pct;
        probability = F.lit 5 1;
        calibrated_probability = none;
        confidence = F.lit 6 1;
        requested_risk_eur = requested_risk_eur;
        reason_code = ReasonCode.cross_asset_lag;
        residual = some (residual_of quote.epic direction leg_target_pct (costs_of spread));
        invalidation_conditions = [];
        portfolio = none;
        explanation = [];
      }

  unfoldable pub build_leg_proposal :
      ℕ → Text → Direction → Quote W → Text → Option W → Option (TradeProposal W)
  unfolding validate_proposal
  build_leg_proposal instrument_id name direction quote pair_label requested_risk_eur =
      validate_proposal
        (leg_proposal_of instrument_id name direction quote pair_label requested_risk_eur)
