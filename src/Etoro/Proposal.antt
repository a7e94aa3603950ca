-- ===== src/Etoro/Proposal.antt =====
-- src/risk/etoro_adapter.py: the proposal for a momentum candidate. It raises where the offer is zero
-- or a validator of the model refuses a value.
use sibilla.Base.{ℕ, Text, text, signed_digits, digits, [], ◌++◌, Option, none, some, if◌then◌else◌}
use sibilla.Base.Int.{ℤ}
use sibilla.Float.{Float, ◌⊖◌, ◌⊗◌, ◌⊘◌, ◌<?◌, ◌=F◌, nought}
use sibilla.Enums.Market.{AssetClass, Direction, EntryType}
use sibilla.Enums.State.{SignalType, ReasonCode}
use sibilla.Schemas.Market.{
  Instrument, Quote, CostEstimate, ResidualAlpha, new_instrument, total_pct,
}
use sibilla.Schemas.Trade.{TradeProposal, RiskDecision, validate_proposal}
use sibilla.Etoro.Momentum.{MomentumCandidate}
use sibilla.Etoro.Judge.{CatalystVerdict}

-- `6 * 3600`
abbrev pub horizon_seconds : ℕ
horizon_seconds = 21_600

module _ {W : Type 0} ⦃F : Float W⦄ where
  abbrev pub stop_pct : W
  stop_pct = F.lit 7 2

  abbrev pub take_profit_pct : W
  take_profit_pct = F.lit 14 2

  -- `100.0 / LEVERAGE`
  abbrev pub margin_factor_pct : W
  margin_factor_pct = F.lit 100 0 ⊘ F.lit 5 0

  abbrev pub risk_fraction_of_equity : W
  risk_fraction_of_equity = F.lit 2 2

  -- A share of the broker in whole units.
  unfoldable pub share : Text → Text → Instrument W
  share epic name = record (new_instrument epic name) {
    asset_class = AssetClass.equity_cfd;
    currency = text "USD";
    min_size = F.lit 1 0;
    size_step = F.lit 1 0;
    contract_size = F.lit 1 0;
    value_per_point = F.lit 1 0;
    margin_factor = margin_factor_pct;
  }

  -- The costs with the spread as a share of the entry.
  unfoldable pub costs_of : W → CostEstimate W
  costs_of spread = record {
    spread_pct = spread;
    commission_pct = nought;
    slippage_pct = F.lit 5 4;
    financing_pct = nought;
    market_impact_pct = nought;
  }

  unfoldable pub residual_of : Text → Direction → W → CostEstimate W → ResidualAlpha W
  residual_of epic direction move costs =
      let net = move ⊖ total_pct costs in
      record {
        epic = epic;
        direction = direction;
        expected_move_pct = move;
        realized_move_pct = nought;
        residual_move_pct = move;
        costs = costs;
        safety_margin_pct = nought;
        net_alpha_pct = net;
        passes = nought <? net;
      }

  -- f"etoro-{instrument_id}-{ts:.0f}" after its prefix.
  unfoldable pub trade_id_of : Text → ℕ → W → Text
  trade_id_of prefix instrument_id ts =
      prefix ++ (digits instrument_id ++ (text "-" ++ signed_digits (F.nearest ts)))

  unfoldable pub proposal_of :
      MomentumCandidate W → CatalystVerdict W → Quote W → Text → Option W → TradeProposal W
  unfolding share costs_of residual_of
  proposal_of candidate verdict quote event_id requested_risk_eur =
      let entry = quote.offer in
      let costs = costs_of ((quote.offer ⊖ quote.bid) ⊘ entry) in
      record {
        trade_id = trade_id_of (text "etoro-") candidate.instrument_id quote.ts;
        event_id = event_id;
        strategy_id = text "etoro_momentum_catalyst";
        signal_type = SignalType.company_event;
        instrument = share quote.epic candidate.name;
        epic = quote.epic;
        direction = Direction.buy;
        entry_type = EntryType.market;
        quote = quote;
        max_entry = entry;
        max_slippage_pct = F.lit 5 4;
        stop_distance = entry ⊗ stop_pct;
        limit_distance = some (entry ⊗ take_profit_pct);
        stop_rationale = text "-7% meccanico dall'entry";
        time_horizon_seconds = horizon_seconds;
        expected_return_pct = take_profit_pct;
        expected_loss_pct = stop_pct;
        probability = F.lit 5 1;
        calibrated_probability = none;
        confidence = verdict.confidence;
        requested_risk_eur = requested_risk_eur;
        reason_code = ReasonCode.company_event;
        residual = some (residual_of quote.epic Direction.buy take_profit_pct costs);
        invalidation_conditions = [];
        portfolio = none;
        explanation = [];
      }

  unfoldable pub build_trade_proposal :
      MomentumCandidate W → CatalystVerdict W → Quote W → Text → Option W → Option (TradeProposal W)
  unfolding validate_proposal
  build_trade_proposal candidate verdict quote event_id requested_risk_eur =
      if quote.offer =F nought
      then none
      else validate_proposal (proposal_of candidate verdict quote event_id requested_risk_eur)

  -- `math.floor(decision.size)`
  unfoldable pub size_from_decision : RiskDecision W → ℤ
  size_from_decision d = F.floor d.size
