-- ===== src/Risk/Engine/Context.antt =====
-- src/risk/engine.py: what the engine is given, and the checks that it records.
use sibilla.Base.{ℕ, Text, List, [], ◌∷◌, map, all, Option, none, some, Bool, Dict, if◌then◌else◌}
use sibilla.Float.{Float, ◌⊘◌, ◌=F◌, nought, one, fmin}
use sibilla.Enums.State.{ExecutionMode}
use sibilla.Config.{RiskLimits}
use sibilla.Pricing.{finite}
use sibilla.Schemas.Trade.{AccountState, RiskCheck, PortfolioOutput}
use sibilla.Market.Registry.{InstrumentRegistry, fsum}
use sibilla.Risk.KillSwitch.{KillSwitch}
use sibilla.Risk.Correlation.{OpenExposure}

pub record PortfolioContext (W : Type 0) : Type 0 where
  pub account : AccountState W
  pub open_positions : List (OpenExposure W)
  pub realized_pnl_today : W
  pub realized_pnl_week : W
  pub peak_equity_week : W
  pub trades_today : ℕ
  pub rejected_streak : ℕ
  pub positions_for_event : Dict Text W

-- The engine's own state and the settings that it reads.
pub record RiskEngine (W : Type 0) : Type 0 where
  pub limits : RiskLimits W
  pub registry : InstrumentRegistry W
  pub kill_switch : KillSwitch W
  pub mode : ExecutionMode
  pub blocked_epics : List Text
  pub blocked_asset_classes : List Text

module _ {W : Type 0} where
  abbrev pub check : Text → Bool → RiskCheck W
  check name passed = record { name = name; passed = passed; value = none; limit = none }

  abbrev pub check_value : Text → Bool → W → W → RiskCheck W
  check_value name passed value limit = record {
    name = name;
    passed = passed;
    value = some (finite value);
    limit = some limit;
  }

  abbrev pub all_passed : List (RiskCheck W) → Bool
  all_passed cs = all (λ c. c.passed) cs

module _ {W : Type 0} ⦃F : Float W⦄ where
  -- `peak_equity_week or account.equity`
  unfoldable pub peak_or : Option W → W → W
  peak_or none equity = equity
  peak_or (some peak) equity = if peak =F nought then equity else peak

  -- `PortfolioContext(...)`, with the defaults that the constructor fills in.
  unfoldable pub new_context :
      AccountState W
      → List (OpenExposure W)
      → (pnl_today pnl_week : W) → Option W
      → (trades streak : ℕ) → Option (Dict Text W)
      → PortfolioContext W
  unfolding peak_or
  new_context account positions pnl_today pnl_week peak trades streak for_event = record {
    account = account;
    open_positions = positions;
    realized_pnl_today = pnl_today;
    realized_pnl_week = pnl_week;
    peak_equity_week = peak_or peak account.equity;
    trades_today = trades;
    rejected_streak = streak;
    positions_for_event = elim for_event [ none ↦ [] | some d ↦ d ];
  }

  -- `open_risk_eur`
  unfoldable pub open_risk_eur : PortfolioContext W → W
  open_risk_eur c = fsum (map (λ p. p.risk_eur) c.open_positions)

  -- `x / equity if equity else 0`
  abbrev pub per_equity : W → W → W
  per_equity x equity = if equity =F nought then nought else x ⊘ equity

  abbrev pub least_from : W → List W → W
  least_from acc [] = acc
  least_from acc (x ∷ xs) = least_from (fmin acc x) xs

  -- `min(xs) if xs else 1.0`
  abbrev pub least_or_one : List W → W
  least_or_one [] = one
  least_or_one (x ∷ xs) = least_from x xs

  -- `portfolio.risk_fraction_of_max if portfolio else 1.0`
  abbrev pub fraction_or_one : Option (PortfolioOutput W) → W
  fraction_or_one none = one
  fraction_or_one (some p) = p.risk_fraction_of_max

  -- `calibrated_probability or probability`
  abbrev pub probability_or : Option W → W → W
  probability_or none p = p
  probability_or (some c) p = if c =F nought then p else c
