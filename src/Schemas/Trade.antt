-- ===== src/Schemas/Trade.antt =====
-- src/core/schemas.py: the trade proposal, the account and the decision of the risk engine. The
-- records of the analysts, the evidence, the latencies and the feature dictionaries that a proposal
-- only carries along are left out.
use sibilla.Base.{ℕ, Text, List, take, select, Option, none, some, Bool, not, ◌&&◌, if◌then◌else◌}
use sibilla.Float.{Float, ◌⊖◌, ◌⊘◌, ◌≤?◌, ◌<?◌, nought, one, fmax, fmin}
use sibilla.Enums.Market.{Direction, EntryType}
use sibilla.Enums.State.{PortfolioDecision, ReasonCode, SignalType}
use sibilla.Schemas.Market.{Instrument, Quote, ResidualAlpha}
use sibilla.Pricing.{Extended}

pub record PortfolioOutput (W : Type 0) : Type 0 where
  pub decision : PortfolioDecision
  pub risk_fraction_of_max : W
  pub rationale : Text
  pub concerns : List Text

pub record TradeProposal (W : Type 0) : Type 0 where
  pub trade_id : Text
  pub event_id : Text
  pub strategy_id : Text
  pub signal_type : SignalType
  pub instrument : Instrument W
  pub epic : Text
  pub direction : Direction
  pub entry_type : EntryType
  pub quote : Quote W
  pub max_entry : W
  pub max_slippage_pct : W
  pub stop_distance : W
  pub limit_distance : Option W
  pub stop_rationale : Text
  pub time_horizon_seconds : ℕ
  pub expected_return_pct : W
  pub expected_loss_pct : W
  pub probability : W
  pub calibrated_probability : Option W
  pub confidence : W
  pub requested_risk_eur : Option W
  pub reason_code : ReasonCode
  pub residual : Option (ResidualAlpha W)
  pub invalidation_conditions : List Text
  pub portfolio : Option (PortfolioOutput W)
  pub explanation : List Text

-- The texts of `detail` are for the log: a check keeps its name, its outcome and its two numbers.
pub record RiskCheck (W : Type 0) : Type 0 where
  pub name : Text
  pub passed : Bool
  pub value : Option (Extended W)
  pub limit : Option W

pub record MarginStress (W : Type 0) : Type 0 where
  pub equity : W
  pub margin_used_before : W
  pub margin_required : W
  pub margin_used_after : W
  pub free_margin_after : W
  pub free_margin_ratio_after : W
  pub margin_usage_after : W
  pub scenarios : List W
  pub passes : Bool

pub record RiskDecision (W : Type 0) : Type 0 where
  pub approved : Bool
  pub size : W
  pub risk_eur : W
  pub stop_distance : W
  pub stop_level : Option W
  pub limit_distance : Option W
  pub limit_level : Option W
  pub max_entry : W
  pub notional : W
  pub margin_required : W
  pub effective_leverage : Extended W
  pub checks : List (RiskCheck W)
  pub rejection_reasons : List Text
  pub capped_by : Option Text
  pub stress : Option (MarginStress W)

pub record AccountState (W : Type 0) : Type 0 where
  pub account_id : Text
  pub currency : Text
  pub balance : W
  pub deposit : W
  pub profit_loss : W
  pub available : W
  pub margin_used : W
  pub equity : W
  pub source : Text

module _ {W : Type 0} ⦃F : Float W⦄ where
  -- `0 <= v <= 1`, as `Field(ge=0.0, le=1.0)` tests it.
  abbrev pub is_fraction : W → Bool
  is_fraction v = nought ≤? v && v ≤? one

  -- The validators of `PortfolioOutput`: the field constraint, then `_no_upsizing`.
  unfoldable pub validate_portfolio : PortfolioOutput W → Option (PortfolioOutput W)
  validate_portfolio p =
      if is_fraction p.risk_fraction_of_max
      then some (record p { risk_fraction_of_max = fmin (fmax p.risk_fraction_of_max nought) one })
      else none

  -- The validators of `TradeProposal`: a positive stop, fractions in range, five points at most.
  unfoldable pub validate_proposal : TradeProposal W → Option (TradeProposal W)
  validate_proposal p =
      if nought <? p.stop_distance && is_fraction p.probability && is_fraction p.confidence
      then some (record p { explanation = take 5 p.explanation })
      else none

  unfoldable pub proposal_reward_risk : TradeProposal W → Option W
  proposal_reward_risk p = elim p.limit_distance [
    | none ↦ none
    | some d ↦ if p.stop_distance ≤? nought then none else some (d ⊘ p.stop_distance)
  ]

  unfoldable pub failed_checks : RiskDecision W → List (RiskCheck W)
  failed_checks d = select (λ c. not c.passed) d.checks

  unfoldable pub free_margin : AccountState W → W
  free_margin a = fmax nought (a.equity ⊖ a.margin_used)

  unfoldable pub margin_usage : AccountState W → W
  margin_usage a = if nought <? a.equity then a.margin_used ⊘ a.equity else one

  unfoldable pub free_margin_ratio : AccountState W → W
  unfolding free_margin
  free_margin_ratio a = if nought <? a.equity then free_margin a ⊘ a.equity else nought
