-- ===== src/Risk/Correlation.antt =====
-- src/risk/correlation.py: the exposure of a portfolio by factor, class, currency and instrument,
-- and the risk of the positions that move with a new trade. The texts for the log are left out.
pub mod Laws
pub mod Totals
use sibilla.Base.{
  ℕ, Text, List, [], ◌∷◌, Option, none, some, Bool, Dict, get, insert, text_key, if◌then◌else◌,
}
use sibilla.Base.Int.{ℤ}
use sibilla.Float.{Float, ◌⊕◌, ◌⊗◌, ◌⊘◌, ◌≤?◌, nought}
use sibilla.Enums.Market.{Direction, Factor, sign}
use sibilla.Enums.Laws.{factor_key}
use sibilla.Market.Registry.{InstrumentRegistry, factor_vector, correlation_proxy}

pub record OpenExposure (W : Type 0) : Type 0 where
  pub epic : Text
  pub direction : Direction
  pub notional : W
  pub risk_eur : W
  pub asset_class : Text
  pub currency : Text
  pub event_id : Option Text
  pub factors : Dict Factor W

pub record ExposureReport (W : Type 0) : Type 0 where
  pub factor_exposure : Dict Factor W
  pub factor_risk : Dict Factor W
  pub by_asset_class : Dict Text W
  pub by_currency : Dict Text W
  pub by_epic : Dict Text W
  pub total_notional : W
  pub total_risk_eur : W

module _ {W : Type 0} ⦃F : Float W⦄ where
  -- `d[key] = d.get(key, 0.0) + amount`
  abbrev pub add_to : Text → W → Dict Text W → Dict Text W
  add_to key amount d = insert key (get key nought d ⊕ amount) d

  -- The loop over a position's factors, `sign * loading * amount` for each.
  abbrev pub add_factors : Direction → W → Dict Factor W → Dict Factor W → Dict Factor W
  add_factors direction amount [] d = d
  add_factors direction amount ((f, loading) ∷ fs) d =
      add_factors direction amount fs
        (insert f (get f nought d ⊕ F.of_int (sign direction) ⊗ loading ⊗ amount) d)

  abbrev pub empty_report : ExposureReport W
  empty_report = record {
    factor_exposure = [];
    factor_risk = [];
    by_asset_class = [];
    by_currency = [];
    by_epic = [];
    total_notional = nought;
    total_risk_eur = nought;
  }

  abbrev pub add_position : ExposureReport W → OpenExposure W → ExposureReport W
  add_position r p = record {
    factor_exposure = add_factors p.direction p.notional p.factors r.factor_exposure;
    factor_risk = add_factors p.direction p.risk_eur p.factors r.factor_risk;
    by_asset_class = add_to p.asset_class p.notional r.by_asset_class;
    by_currency = add_to p.currency p.notional r.by_currency;
    by_epic = add_to p.epic p.notional r.by_epic;
    total_notional = r.total_notional ⊕ p.notional;
    total_risk_eur = r.total_risk_eur ⊕ p.risk_eur;
  }

  unfoldable pub build_from : ExposureReport W → List (OpenExposure W) → ExposureReport W
  build_from r [] = r
  build_from r (p ∷ ps) = build_from (add_position r p) ps

  unfoldable pub build_exposure : List (OpenExposure W) → ExposureReport W
  unfolding build_from
  build_exposure ps = build_from empty_report ps

  -- `corr * new_direction.sign * position.direction.sign`
  unfoldable pub effective_correlation : Dict Factor W → Direction → OpenExposure W → W
  effective_correlation base direction p =
      correlation_proxy base p.factors ⊗ F.of_int (sign direction) ⊗ F.of_int (sign p.direction)

  unfoldable pub correlated_from : W → Dict Factor W → Direction → W → List (OpenExposure W) → W
  correlated_from min_corr base direction total [] = total
  correlated_from min_corr base direction total (p ∷ ps) =
      let effective = effective_correlation base direction p in
      correlated_from min_corr base direction
        (if min_corr ≤? effective then total ⊕ p.risk_eur ⊗ effective else total) ps

  unfoldable pub correlated_risk :
      W → InstrumentRegistry W → Text → Direction → List (OpenExposure W) → W
  unfolding correlated_from
  correlated_risk min_corr registry new_epic new_direction ps =
      correlated_from min_corr (factor_vector new_epic registry) new_direction nought ps
