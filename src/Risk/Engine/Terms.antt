-- ===== src/Risk/Engine/Terms.antt =====
-- The terms of an approved order, and what it leaves of the account.
use sibilla.Base.{
  ◌≤◌, Option, none, some, true, ◌≡◌, arith, ok, [], ◌∷◌, ◌++◌, all-append, refl, inl, inr,
}
use sibilla.Float.{Float, IsFloat, ◌⊘◌, ◌⊗◌, ◌≼◌, ◌≺◌, nought}
use sibilla.Float.Laws.{le_refl}
use sibilla.Enums.State.{uses_real_money}
use sibilla.Pricing.Laws.{IsStepped}
use sibilla.Config.{RiskLimits}
use sibilla.Schemas.Market.{ResidualAlpha}
use sibilla.Schemas.Trade.{TradeProposal, proposal_reward_risk}
use sibilla.Risk.Sizing.{SizingRequest, SizingResult, compute_size}
use sibilla.Risk.Sizing.Caps.{IsNonneg}
use sibilla.Risk.Sizing.Laws.{loss_of, IsSize, IsCapped, compute_size_bounds}
use sibilla.Risk.Engine.Context.{RiskEngine, PortfolioContext, all_passed}
use sibilla.Risk.Engine.Checks.{
  min_stop_checks, max_stop_checks, horizon_check, market_checks, order_checks, return_checks,
  reward_check, alpha_check, is_broker_source,
}
use sibilla.Risk.Engine.{sizing_request, evaluate}
use sibilla.Risk.Engine.Decision.{approval}
use sibilla.Risk.Engine.Approved.{checks_before-split, evaluate-safe}

module _ {W : Type 0} ⦃F : Float W⦄ where
  -- An optional target that pays at least `least` for each point at risk.
  pub Pays : W → W → Option W → Type 0
  Pays least stop none = ⊥
  Pays least stop (some d) = least ≼ d ⊘ stop

  -- A residual return that is positive net of the costs and not under the minimum.
  pub HasAlpha : W → Option (ResidualAlpha W) → Type 0
  HasAlpha least none = ⊥
  HasAlpha least (some r) = (nought ≺ r.net_alpha_pct) × (least ≼ r.net_alpha_pct)

  pub record HasTerms (e : RiskEngine W) (p : TradeProposal W) : Type 0 where
    pub stop : nought ≺ p.stop_distance
    pub horizon : p.time_horizon_seconds ≤ e.limits.max_holding_time_s
    pub reward : Pays e.limits.min_reward_risk p.stop_distance p.limit_distance
    pub alpha : HasAlpha e.limits.min_net_alpha p.residual
    pub broker : uses_real_money e.mode ≡ true → is_broker_source p.quote.source ≡ true

  reward_check-Pays :
      (limits : RiskLimits W) (p : TradeProposal W) (d : Option W)
      → p.limit_distance ≡ d
      → nought ≺ p.stop_distance
      → (reward_check limits p).passed ≡ true
      → Pays limits.min_reward_risk p.stop_distance d
  unfolding Pays proposal_reward_risk
  reward_check-Pays limits p none same s h = ground arith
  reward_check-Pays limits p (some d) same s h = ground arith

  alpha_check-HasAlpha :
      (limits : RiskLimits W) (p : TradeProposal W) (r : Option (ResidualAlpha W))
      → p.residual ≡ r
      → (alpha_check limits p).passed ≡ true
      → HasAlpha limits.min_net_alpha r
  unfolding HasAlpha
  alpha_check-HasAlpha limits p none same h = ground arith
  alpha_check-HasAlpha limits p (some r) same h = ground arith

  order_checks-horizon :
      (limits : RiskLimits W) (p : TradeProposal W)
      → all_passed (order_checks limits p) ≡ true
      → p.time_horizon_seconds ≤ limits.max_holding_time_s
  unfolding order_checks
  order_checks-horizon limits p h =
      let least =
        min_stop_checks p.quote p.instrument p.stop_distance p.instrument.min_stop_distance in
      let most = max_stop_checks p.stop_distance p.instrument.max_stop_distance in
      let last = horizon_check limits p ∷ [] in
      ground (
        arith,
        all-append (λ x. x.passed) least (most ++ last),
        all-append (λ x. x.passed) most last,
      )

  compute_size-stop :
      (limits : RiskLimits W) (r : SizingRequest W) (s : SizingResult W)
      → compute_size limits r ≡ ok s
      → nought ≺ r.stop_distance
  unfolding compute_size
  compute_size-stop limits r s h = ground arith

  checks-HasTerms :
      (e : RiskEngine W) (now : W) (p : TradeProposal W)
      → nought ≺ p.stop_distance
      → all_passed (market_checks e now p) ≡ true
      → all_passed (order_checks e.limits p) ≡ true
      → all_passed (return_checks e.limits p) ≡ true
      → HasTerms e p
  unfolding market_checks order_checks return_checks
  checks-HasTerms e now p s market order returns = record {
    stop = s;
    horizon = order_checks-horizon e.limits p order;
    reward = reward_check-Pays e.limits p p.limit_distance refl s (ground arith);
    alpha = alpha_check-HasAlpha e.limits p p.residual refl (ground arith);
    broker = λ real. ground arith;
  }

  -- An approved proposal has a positive stop, whether or not the limits require one, a horizon
  -- within the longest holding time, a target that pays the least reward for its risk, a positive
  -- net residual return not under the minimum, and, where the mode trades real money, a price from
  -- the broker.
  pub evaluate-HasTerms :
      (e : RiskEngine W) (now : W) (p : TradeProposal W) (c : PortfolioContext W) (fx : W)
      → (evaluate e now p c fx).approved ≡ true
      → HasTerms e p
  evaluate-HasTerms e now p c fx h =
      let a = approval e now p c fx h in
      let (market, order, returns, losses) = checks_before-split e now p c a.before in
      let set =
        compute_size-stop e.limits (sizing_request p c.account.equity fx) a.sizing a.sized in
      checks-HasTerms e now p set market order returns

module _ {W : Type 0} ⦃F : Float W⦄ (L : IsFloat W) where
  positive-IsStepped :
      (r : SizingRequest W) (budget size : W)
      → nought ≺ size
      → IsSize r budget size
      → (r.instrument.min_size ≼ size) × IsStepped (budget ⊘ loss_of r) r.instrument.size_step size
  positive-IsStepped r budget size h (inl e) = absurd (ground (arith, le_refl L nought))
  positive-IsStepped r budget size h (inr k) = k

  -- The size and the risk of an approved proposal: the size is positive and not under the instrument's
  -- minimum; for some budget that exceeds neither the share of the equity, nor the absolute cap, nor
  -- the requested risk, it is the budget over the loss at the stop where there is no step, and
  -- otherwise a whole number of steps, not more than that quotient has, rounded to ten places; the
  -- risk is the loss of the size at the stop. The limits and the equity are not negative, and a unit
  -- loses something at the stop.
  pub evaluate-risk :
      (e : RiskEngine W) (now : W) (p : TradeProposal W) (c : PortfolioContext W) (fx : W)
      → IsNonneg e.limits
      → nought ≼ c.account.equity
      → nought ≺ loss_of (sizing_request p c.account.equity fx)
      → (evaluate e now p c fx).approved ≡ true
      → let d = evaluate e now p c fx in
        let r = sizing_request p c.account.equity fx in
        (nought ≺ d.size)
        × (d.risk_eur ≡ d.size ⊗ loss_of r)
        × (p.instrument.min_size ≼ d.size)
        × (budget : W) × IsCapped e.limits r budget
        × IsStepped (budget ⊘ loss_of r) p.instrument.size_step d.size
  evaluate-risk e now p c fx n q v h =
      let a = approval e now p c fx h in
      let r = sizing_request p c.account.equity fx in
      let (_, _, bounded) = evaluate-safe e now p c fx h in
      let (_, size, risk, capped) = compute_size_bounds L e.limits r n q v a.sized in
      let positive : nought ≺ a.sizing.size = rw a.size_eq at bounded.size_positive in
      let (least, stepped) =
        positive-IsStepped r a.sizing.risk_budget_eur a.sizing.size positive size in
      (
        bounded.size_positive,
        rw a.size_eq (rw a.risk_eq risk),
        rw a.size_eq least,
        a.sizing.risk_budget_eur,
        capped,
        rw a.size_eq stepped,
      )
