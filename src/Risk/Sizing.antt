-- ===== src/Risk/Sizing.antt =====
-- src/risk/sizing.py: the size of a position from the risk at its stop.
pub mod Caps
pub mod Laws
use sibilla.Base.{Text, text, Option, none, some, Bool, not, Result, ok, err, if◌then◌else◌}
use sibilla.Float.{Float, ◌⊕◌, ◌⊖◌, ◌⊗◌, ◌⊘◌, ◌≤?◌, ◌<?◌, ◌=F◌, nought, one, fmin, fmax}
use sibilla.Enums.Market.{Direction, direction_value}
use sibilla.Config.{RiskLimits}
use sibilla.Schemas.Market.{Instrument, Quote, price_for}
use sibilla.Pricing.{
  kelly_fraction, limit_level, margin_required, notional, round_to_step, size_from_risk, stop_level,
}

pub record SizingResult (W : Type 0) : Type 0 where
  pub size : W
  pub risk_eur : W
  pub risk_budget_eur : W
  pub stop_distance : W
  pub stop_level : W
  pub limit_distance : Option W
  pub limit_level : Option W
  pub entry_price : W
  pub notional : W
  pub margin_required : W
  pub loss_per_unit : W
  pub capped_by : Option Text
  pub kelly_cap_eur : Option W
  pub reward_risk : Option W
  pub fx_rate : W

-- The `ValueError` of a stop that is not positive.
pub data SizingError : Type 0 where
  stop_not_positive : SizingError

-- The arguments of `compute_size`.
pub record SizingRequest (W : Type 0) : Type 0 where
  pub instrument : Instrument W
  pub quote : Quote W
  pub direction : Direction
  pub stop_distance : W
  pub equity : W
  pub requested_risk_eur : Option W
  pub risk_fraction_of_max : W
  pub limit_distance : Option W
  pub probability : Option W
  pub fx_rate_to_eur : W

-- A risk budget and what capped it.
pub record Budget (W : Type 0) : Type 0 where
  pub amount : W
  pub capped_by : Option Text
  pub kelly_cap : Option W

-- `capped_by or default`
abbrev pub below_min : Option Text → Text → Text
below_min none default = default
below_min (some reason) default = reason

module _ {W : Type 0} ⦃F : Float W⦄ where
  -- `if limit_distance`: a target that is absent or zero is no target.
  abbrev pub target : Option W → Option W
  target none = none
  target (some d) = if d =F nought then none else some d

  unfoldable pub max_risk_eur : RiskLimits W → W → W
  max_risk_eur limits equity = fmin (equity ⊗ limits.max_risk_per_trade) limits.max_stake_abs

  unfoldable pub base_budget : RiskLimits W → SizingRequest W → W
  unfolding max_risk_eur
  base_budget limits r =
      max_risk_eur limits r.equity ⊗ fmax nought (fmin one r.risk_fraction_of_max)

  -- The cap by the requested risk.
  unfoldable pub cap_requested : Option W → W → Budget W
  cap_requested none budget = record { amount = budget; capped_by = none; kelly_cap = none }
  cap_requested (some requested) budget =
      if requested <? budget
      then record {
        amount = fmax nought requested;
        capped_by = some (text "requested_risk");
        kelly_cap = none;
      }
      else (if budget <? requested
          then record {
            amount = budget;
            capped_by = some (text "max_risk_per_trade");
            kelly_cap = none;
          }
          else record { amount = budget; capped_by = none; kelly_cap = none })

  -- The cap by fractional Kelly, where a probability and a target are given.
  unfoldable pub cap_kelly : RiskLimits W → W → W → Option W → Option W → Budget W → Budget W
  cap_kelly limits equity stop_distance none limit_distance b = b
  cap_kelly limits equity stop_distance (some p) none b = b
  cap_kelly limits equity stop_distance (some p) (some d) b =
      let cap = equity ⊗ kelly_fraction p (d ⊘ stop_distance) ⊗ limits.kelly_fraction in
      if cap <? b.amount
      then record { amount = cap; capped_by = some (text "fractional_kelly"); kelly_cap = some cap }
      else record b { kelly_cap = some cap }

  unfoldable pub risk_budget : RiskLimits W → SizingRequest W → Budget W
  unfolding base_budget cap_requested cap_kelly
  risk_budget limits r =
      cap_kelly limits r.equity r.stop_distance r.probability (target r.limit_distance)
        (cap_requested r.requested_risk_eur (base_budget limits r))

  unfoldable pub value_per_point_eur : SizingRequest W → W
  value_per_point_eur r = r.instrument.value_per_point ⊗ r.fx_rate_to_eur

  -- The size on the instrument's grid, before the minimum.
  unfoldable pub stepped_size : W → SizingRequest W → W
  unfolding value_per_point_eur
  stepped_size budget r =
      round_to_step (size_from_risk budget r.stop_distance (value_per_point_eur r))
        r.instrument.size_step (text "down")

  unfoldable pub final_size : W → SizingRequest W → W
  unfolding stepped_size
  final_size budget r =
      let size = stepped_size budget r in if size <? r.instrument.min_size then nought else size

  unfoldable pub final_reason : Budget W → SizingRequest W → Option Text
  unfolding stepped_size
  final_reason b r =
      if stepped_size b.amount r <? r.instrument.min_size
      then some (below_min b.capped_by (text "below_min_size"))
      else b.capped_by

  unfoldable pub sized : Budget W → SizingRequest W → SizingResult W
  unfolding final_size final_reason value_per_point_eur
  sized b r =
      let entry = price_for r.quote r.direction in
      let size = final_size b.amount r in
      let unit_value = value_per_point_eur r in
      let loss_per_unit = r.stop_distance ⊗ unit_value in
      record {
        size = size;
        risk_eur = size ⊗ loss_per_unit;
        risk_budget_eur = b.amount;
        stop_distance = r.stop_distance;
        stop_level = stop_level entry r.stop_distance (direction_value r.direction);
        limit_distance = r.limit_distance;
        limit_level = elim (target r.limit_distance) [
          | none ↦ none
          | some d ↦ some (limit_level entry d (direction_value r.direction))
        ];
        entry_price = entry;
        notional = notional entry size unit_value;
        margin_required = margin_required entry size unit_value r.instrument.margin_factor;
        loss_per_unit = loss_per_unit;
        capped_by = final_reason b r;
        kelly_cap_eur = b.kelly_cap;
        reward_risk = elim (target r.limit_distance) [
          | none ↦ none
          | some d ↦ some (d ⊘ r.stop_distance)
        ];
        fx_rate = r.fx_rate_to_eur;
      }

  unfoldable pub compute_size : RiskLimits W → SizingRequest W → Result SizingError (SizingResult W)
  compute_size limits r =
      if r.stop_distance ≤? nought
      then err SizingError.stop_not_positive
      else ok (sized (risk_budget limits r) r)

  -- `(volatility_pct or 0.0)`
  abbrev pub or_nought : Option W → W
  or_nought none = nought
  or_nought (some v) = v

  unfoldable pub stop_from_volatility : Option W → W → W → W → W
  stop_from_volatility volatility_pct price multiplier floor_pct =
      price ⊗ fmax floor_pct (or_nought volatility_pct ⊗ multiplier)

  unfoldable pub stop_from_invalidation : W → W → Direction → W → W
  stop_from_invalidation entry level Direction.buy buffer_pct =
      fmax (F.lit 1 9) (entry ⊖ level ⊗ (one ⊖ buffer_pct))
  stop_from_invalidation entry level Direction.sell buffer_pct =
      fmax (F.lit 1 9) (level ⊗ (one ⊕ buffer_pct) ⊖ entry)

  unfoldable pub stop_from_max_risk : W → W → W → W
  stop_from_max_risk risk_eur size value_per_point =
      if size ≤? nought
      then nought
      else (if value_per_point ≤? nought then nought else risk_eur ⊘ (size ⊗ value_per_point))
