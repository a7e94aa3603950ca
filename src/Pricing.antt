-- ===== src/Pricing.antt =====
-- src/core/pricing.py: what a price, a size, a stop and a margin are in money.
mod Rounding
pub mod Laws
unfoldable pub use Rounding.{round_to_step, truncated_units}
use sibilla.Base.{
  Text, text, upper, one_of, lower, ◌=?◌, [], ◌∷◌, Option, none, some, Bool, if◌then◌else◌,
}
use sibilla.Base.Int.{ℤ, pos, negsuc}
use sibilla.Float.{Float, ◌⊕◌, ◌⊖◌, ◌⊗◌, ◌⊘◌, ◌≤?◌, ◌<?◌, ◌=F◌, nought, one, fmin, fmax, fabs}

pub data PriceConvention : Type 0 where
  probability cfd : PriceConvention

-- `VENUE_CONVENTION.get(venue.lower(), CFD)`.
unfoldable pub convention_for : Text → PriceConvention
convention_for venue =
    if lower venue =? text "polymarket" then PriceConvention.probability else PriceConvention.cfd

-- `direction.upper() in ("BUY", "LONG")`.
abbrev pub is_long : Text → Bool
is_long direction = one_of (upper direction) (text "BUY" ∷ text "LONG" ∷ [])

-- `side.upper() in ("BUY", "BACK", "LONG")`.
abbrev pub is_back : Text → Bool
is_back side = one_of (upper side) (text "BUY" ∷ text "BACK" ∷ text "LONG" ∷ [])

-- A leverage, which is infinite on an account without equity.
pub data Extended (W : Type 0) : Type 0 where
  finite : W → Extended W
  infinite : Extended W

module _ {W : Type 0} ⦃F : Float W⦄ where
  unfoldable pub implied_probability : W → PriceConvention → Option W
  implied_probability price PriceConvention.probability = some (fmin (fmax price nought) one)
  implied_probability price PriceConvention.cfd = none

  unfoldable pub is_price_acceptable : W → W → PriceConvention → Text → Bool
  is_price_acceptable price limit convention side =
      if is_back side then price ≤? limit ⊕ F.lit 1 12 else limit ⊖ F.lit 1 12 ≤? price

  unfoldable pub worse_price : W → W → Text → W
  worse_price price slippage_pct side =
      if is_back side then price ⊗ (one ⊕ slippage_pct) else price ⊗ (one ⊖ slippage_pct)

  unfoldable pub entry_price : W → W → Text → W
  entry_price bid offer direction = if is_long direction then offer else bid

  unfoldable pub exit_price : W → W → Text → W
  exit_price bid offer direction = if is_long direction then bid else offer

  unfoldable pub mid : W → W → W
  mid bid offer = (bid ⊕ offer) ⊘ F.lit 2 0

  unfoldable pub spread_points : W → W → W
  spread_points bid offer = fmax nought (offer ⊖ bid)

  unfoldable pub spread_pct : W → W → W
  unfolding mid spread_points
  spread_pct bid offer =
      let m = mid bid offer in if m =F nought then nought else spread_points bid offer ⊘ m

  unfoldable pub points_to_money : W → W → W → W
  points_to_money points size value_per_point = points ⊗ size ⊗ value_per_point

  unfoldable pub pnl_points : W → W → Text → W
  pnl_points entry current direction =
      let sign : ℤ = if is_long direction then pos 1 else negsuc 0 in
      (current ⊖ entry) ⊗ F.of_int sign

  unfoldable pub pnl_money : W → W → Text → W → W → W
  unfolding points_to_money pnl_points
  pnl_money entry current direction size value_per_point =
      points_to_money (pnl_points entry current direction) size value_per_point

  unfoldable pub stop_level : W → W → Text → W
  stop_level entry stop_distance direction =
      if is_long direction then entry ⊖ stop_distance else entry ⊕ stop_distance

  unfoldable pub limit_level : W → W → Text → W
  limit_level entry limit_distance direction =
      if is_long direction then entry ⊕ limit_distance else entry ⊖ limit_distance

  unfoldable pub distance_to_level : W → W → W
  distance_to_level entry level = fabs (entry ⊖ level)

  unfoldable pub loss_per_unit_at_stop : W → W → W
  loss_per_unit_at_stop stop_distance value_per_point = fabs stop_distance ⊗ value_per_point

  unfoldable pub size_from_risk : W → W → W → W
  unfolding loss_per_unit_at_stop
  size_from_risk risk_budget stop_distance value_per_point =
      let loss_unit = loss_per_unit_at_stop stop_distance value_per_point in
      if loss_unit ≤? nought then nought else risk_budget ⊘ loss_unit

  unfoldable pub notional : W → W → W → W
  notional price size value_per_point = fabs price ⊗ size ⊗ value_per_point

  unfoldable pub margin_required : W → W → W → W → W
  unfolding notional
  margin_required price size value_per_point margin_factor_pct =
      notional price size value_per_point ⊗ (margin_factor_pct ⊘ F.lit 100 0)

  unfoldable pub effective_leverage : W → W → Extended W
  effective_leverage total_notional equity =
      if nought <? equity then finite (total_notional ⊘ equity) else infinite

  unfoldable pub reward_risk_ratio : W → W → W
  reward_risk_ratio limit_distance stop_distance =
      if stop_distance ≤? nought then nought else limit_distance ⊘ stop_distance

  unfoldable pub kelly_fraction : W → W → W
  kelly_fraction prob reward_risk =
      if reward_risk ≤? nought
      then nought
      else (let p = fmin (fmax prob nought) one in
          let q = one ⊖ p in fmax nought ((reward_risk ⊗ p ⊖ q) ⊘ reward_risk))
