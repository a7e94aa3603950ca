-- ===== src/Risk/Sizing/Caps.antt =====
-- The risk budget of src/risk/sizing.py lies under every cap.
use sibilla.Base.{Option, none, some, arith}
use sibilla.Float.{Float, IsFloat, ◌⊗◌, ◌⊘◌, ◌≼◌, nought, one, fmin, fmax}
use sibilla.Float.Laws.{
  le_refl, le_of_lt, fmin-le_left, fmin-le_right, le-fmin, le-fmax_left, le-fmax_right, fmax-le,
  mul_nonneg, mul-le_left, nought-le-one,
}
use sibilla.Config.{RiskLimits}
use sibilla.Pricing.{kelly_fraction}
use sibilla.Pricing.Laws.{kelly_fraction_bounds}
use sibilla.Risk.Sizing.{
  Budget, SizingRequest, max_risk_eur, base_budget, cap_requested, cap_kelly, risk_budget, target,
}

module _ {W : Type 0} ⦃F : Float W⦄ where
  -- The limits are not negative.
  abbrev pub IsNonneg : RiskLimits W → Type 0
  IsNonneg limits =
      (nought ≼ limits.max_risk_per_trade)
      × (nought ≼ limits.max_stake_abs)
      × (nought ≼ limits.kelly_fraction)

  -- At most the requested risk, where one is requested; a negative request counts as zero.
  abbrev pub Within : W → Option W → Type 0
  Within x none = Unit
  Within x (some requested) = x ≼ fmax nought requested

module _ {W : Type 0} ⦃F : Float W⦄ (L : IsFloat W) where
  pub max_risk_eur_nonneg :
      (limits : RiskLimits W) (equity : W)
      → IsNonneg limits
      → nought ≼ equity
      → nought ≼ max_risk_eur limits equity
  unfolding max_risk_eur
  max_risk_eur_nonneg limits equity (risk, stake, kelly) e =
      le-fmin L (equity ⊗ limits.max_risk_per_trade) limits.max_stake_abs nought
        (mul_nonneg L equity limits.max_risk_per_trade e risk) stake

  pub base_budget_bounds :
      (limits : RiskLimits W) (r : SizingRequest W)
      → IsNonneg limits
      → nought ≼ r.equity
      → (nought ≼ base_budget limits r) × (base_budget limits r ≼ max_risk_eur limits r.equity)
  unfolding base_budget
  base_budget_bounds limits r s e =
      let top = max_risk_eur limits r.equity in
      let part = fmax nought (fmin one r.risk_fraction_of_max) in
      let top_nonneg : nought ≼ top = max_risk_eur_nonneg limits r.equity s e in
      (
        mul_nonneg L top part top_nonneg (le-fmax_left L nought (fmin one r.risk_fraction_of_max)),
        mul-le_left L top part top_nonneg (
            fmax-le L nought (fmin one r.risk_fraction_of_max) one (nought-le-one L)
              (fmin-le_left L one r.risk_fraction_of_max)),
      )

  pub cap_requested_bounds :
      (requested : Option W) (budget : W)
      → nought ≼ budget
      → (nought ≼ (cap_requested requested budget).amount)
        × ((cap_requested requested budget).amount ≼ budget)
        × Within (cap_requested requested budget).amount requested
  unfolding cap_requested
  cap_requested_bounds none budget h = (h, le_refl L budget, tt)
  cap_requested_bounds (some q) budget h = ground (
    arith,
    le_of_lt L q budget,
    le-fmax_left L nought q,
    le-fmax_right L nought q,
    le_refl L (fmax nought q),
    le_refl L budget,
    fmax-le L nought q budget h,
    L.le_total q budget,
    L.le_trans budget q (fmax nought q),
  )

  pub cap_kelly_bounds :
      (limits : RiskLimits W) (equity stop : W) (p d : Option W) (b : Budget W)
      → IsNonneg limits
      → nought ≼ equity
      → nought ≼ b.amount
      → (nought ≼ (cap_kelly limits equity stop p d b).amount)
        × ((cap_kelly limits equity stop p d b).amount ≼ b.amount)
  unfolding cap_kelly
  cap_kelly_bounds limits equity stop none d b s e h = (h, le_refl L b.amount)
  cap_kelly_bounds limits equity stop (some p) none b s e h = (h, le_refl L b.amount)
  cap_kelly_bounds limits equity stop (some p) (some d) b s e h =
      let f = kelly_fraction p (d ⊘ stop) in
      let cap = equity ⊗ f ⊗ limits.kelly_fraction in
      ground (
        arith,
        mul_nonneg L (equity ⊗ f) limits.kelly_fraction
            (mul_nonneg L equity f e (kelly_fraction_bounds L p (d ⊘ stop)).0) s.2,
        le_of_lt L cap b.amount,
        le_refl L b.amount,
      )

  pub Within-mono :
      (x y : W) (requested : Option W) → x ≼ y → Within y requested → Within x requested
  Within-mono x y none h w = tt
  Within-mono x y (some q) h w = L.le_trans x y (fmax nought q) h w

  -- If the limits and the equity are not negative, the budget is not negative and exceeds neither
  -- the share of the equity, nor the absolute cap, nor the requested risk, whatever fraction,
  -- probability and target are given.
  pub risk_budget_bounds :
      (limits : RiskLimits W) (r : SizingRequest W)
      → IsNonneg limits
      → nought ≼ r.equity
      → let budget = (risk_budget limits r).amount in
        (nought ≼ budget)
        × (budget ≼ r.equity ⊗ limits.max_risk_per_trade)
        × (budget ≼ limits.max_stake_abs)
        × Within budget r.requested_risk_eur
  unfolding risk_budget max_risk_eur
  risk_budget_bounds limits r s e =
      let base = base_budget limits r in
      let (base_nonneg, base_le) = base_budget_bounds limits r s e in
      let asked = cap_requested r.requested_risk_eur base in
      let (asked_nonneg, asked_le, within) =
        cap_requested_bounds r.requested_risk_eur base base_nonneg in
      let (nonneg, le) =
        cap_kelly_bounds limits r.equity r.stop_distance r.probability (target r.limit_distance)
          asked s e asked_nonneg in
      let budget =
        (cap_kelly limits r.equity r.stop_distance r.probability (target r.limit_distance)
          asked).amount in
      let share = r.equity ⊗ limits.max_risk_per_trade in
      let top = fmin share limits.max_stake_abs in
      let le_top : budget ≼ top =
        L.le_trans budget asked.amount top le (L.le_trans asked.amount base top asked_le base_le) in
      (
        nonneg,
        L.le_trans budget top share le_top (fmin-le_left L share limits.max_stake_abs),
        L.le_trans budget top limits.max_stake_abs le_top
            (fmin-le_right L share limits.max_stake_abs),
        Within-mono budget asked.amount r.requested_risk_eur le within,
      )
