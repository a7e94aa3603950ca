-- ===== src/Risk/Engine/Approved.antt =====
-- The iron rules: what an approved proposal satisfies.
use sibilla.Base.{◌<◌, Text, one_of, length, ◌++◌, all-append, true, false, ◌≡◌, arith, text_key}
use sibilla.Float.{Float, ◌⊕◌, ◌⊗◌, ◌≼◌, ◌≺◌, nought}
use sibilla.Enums.Market.{is_tradeable}
use sibilla.Config.{RiskLimits}
use sibilla.Schemas.Market.{age_seconds}
use sibilla.Schemas.Trade.{TradeProposal}
use sibilla.Risk.KillSwitch.{guard}
use sibilla.Risk.Sizing.{SizingResult}
use sibilla.Risk.Engine.Context.{RiskEngine, PortfolioContext, all_passed, open_risk_eur}
use sibilla.Risk.Engine.Checks.{
  market_checks, order_checks, return_checks, loss_checks, is_ok, staleness_limit, same_epic,
  drawdown,
}
use sibilla.Risk.Engine.Exposure.{
  size_checks, risk_checks, exposure_checks, margin_checks, stress_of, event_risk, corr_risk,
}
use sibilla.Risk.Engine.{checks_before, checks_after, evaluate}
use sibilla.Risk.Engine.Decision.{approval}

module _ {W : Type 0} ⦃F : Float W⦄ where
  -- The state of the system and of the market in which a trade may be opened.
  pub record IsTradable (e : RiskEngine W) (now : W) (p : TradeProposal W) : Type 0 where
    pub running : is_ok (guard e.kill_switch) ≡ true
    pub allowed : one_of p.instrument.epic e.blocked_epics ≡ false
    pub open_market : is_tradeable p.quote.market_status ≡ true
    pub fresh : age_seconds now p.quote ≼ staleness_limit e.limits p.quote.source
    pub bid_positive : nought ≺ p.quote.bid
    pub not_crossed : p.quote.bid ≼ p.quote.offer

  -- The losses and the counts that still allow a trade.
  pub record HasRoom (limits : RiskLimits W) (epic : Text) (c : PortfolioContext W) : Type 0 where
    pub daily : F.neg c.realized_pnl_today ≺ c.account.equity ⊗ limits.max_daily_loss
    pub weekly : drawdown c ≺ limits.max_weekly_drawdown
    pub positions : length c.open_positions < limits.max_open_positions
    pub per_asset : same_epic epic c < limits.max_positions_per_asset
    pub trades : c.trades_today < limits.max_trades_per_day

  -- The risk of the new trade alone and with what is open, up to the tolerance of the comparison.
  pub record IsBounded (e : RiskEngine W) (p : TradeProposal W) (c : PortfolioContext W)
      (size risk : W) : Type 0 where
    pub size_positive : nought ≺ size
    pub per_trade : risk ≼ c.account.equity ⊗ e.limits.max_risk_per_trade ⊕ F.lit 1 9
    pub absolute : risk ≼ e.limits.max_stake_abs ⊕ F.lit 1 9
    pub open_risk : open_risk_eur c ⊕ risk ≼ c.account.equity ⊗ e.limits.max_open_risk ⊕ F.lit 1 9
    pub event : event_risk p c ⊕ risk ≼ c.account.equity ⊗ e.limits.max_event_risk ⊕ F.lit 1 9
    pub correlated :
        corr_risk e p c ⊕ risk ≼ c.account.equity ⊗ e.limits.max_correlated_exposure ⊕ F.lit 1 9

  market_checks-IsTradable :
      (e : RiskEngine W) (now : W) (p : TradeProposal W)
      → all_passed (market_checks e now p) ≡ true
      → IsTradable e now p
  unfolding market_checks
  market_checks-IsTradable e now p h = ground arith

  loss_checks-HasRoom :
      (limits : RiskLimits W) (epic : Text) (c : PortfolioContext W)
      → all_passed (loss_checks limits epic c) ≡ true
      → HasRoom limits epic c
  unfolding loss_checks
  loss_checks-HasRoom limits epic c h = ground arith

  risk_checks-IsBounded :
      (e : RiskEngine W) (p : TradeProposal W) (c : PortfolioContext W) (s : SizingResult W)
      → all_passed (size_checks e.limits c.account.equity p s) ≡ true
      → all_passed (risk_checks e p s c) ≡ true
      → IsBounded e p c s.size s.risk_eur
  unfolding size_checks risk_checks
  risk_checks-IsBounded e p c s h k = ground arith

  -- The four groups before the sizing.
  pub checks_before-split :
      (e : RiskEngine W) (now : W) (p : TradeProposal W) (c : PortfolioContext W)
      → all_passed (checks_before e now p c) ≡ true
      → (all_passed (market_checks e now p) ≡ true)
        × (all_passed (order_checks e.limits p) ≡ true)
        × (all_passed (return_checks e.limits p) ≡ true)
        × (all_passed (loss_checks e.limits p.instrument.epic c) ≡ true)
  unfolding checks_before
  checks_before-split e now p c h =
      let returns = return_checks e.limits p in
      let losses = loss_checks e.limits p.instrument.epic c in
      let orders = order_checks e.limits p in
      ground (
        arith,
        all-append (λ x. x.passed) (market_checks e now p) (orders ++ (returns ++ losses)),
        all-append (λ x. x.passed) orders (returns ++ losses),
        all-append (λ x. x.passed) returns losses,
      )

  pub checks_after-split :
      (e : RiskEngine W) (p : TradeProposal W) (c : PortfolioContext W) (s : SizingResult W)
      → all_passed (checks_after e p c s) ≡ true
      → (all_passed (size_checks e.limits c.account.equity p s) ≡ true)
        × (all_passed (risk_checks e p s c) ≡ true)
        × (all_passed (exposure_checks e.limits p s c) ≡ true)
        × (all_passed (margin_checks e.limits (stress_of e p s c)) ≡ true)
  unfolding checks_after
  checks_after-split e p c s h =
      let sizes = size_checks e.limits c.account.equity p s in
      let risks = risk_checks e p s c in
      let exposures = exposure_checks e.limits p s c in
      let margins = margin_checks e.limits (stress_of e p s c) in
      ground (
        arith,
        all-append (λ x. x.passed) sizes (risks ++ (exposures ++ margins)),
        all-append (λ x. x.passed) risks (exposures ++ margins),
        all-append (λ x. x.passed) exposures margins,
      )

  -- An approved proposal finds the system running, the instrument allowed, the market open, the quote
  -- fresh, with a positive bid under its offer; the losses of the day and the week and the numbers of
  -- positions and trades are under their limits; its size is positive; and its risk, alone, with the
  -- open risk, with the risk of its event and with the correlated risk, is within the limits, up to the
  -- 1e-9 that the comparisons allow.
  pub evaluate-safe :
      (e : RiskEngine W) (now : W) (p : TradeProposal W) (c : PortfolioContext W) (fx : W)
      → (evaluate e now p c fx).approved ≡ true
      → IsTradable e now p
        × HasRoom e.limits p.instrument.epic c
        × IsBounded e p c (evaluate e now p c fx).size (evaluate e now p c fx).risk_eur
  evaluate-safe e now p c fx h =
      let a = approval e now p c fx h in
      let (market, order, returns, losses) = checks_before-split e now p c a.before in
      let (sizes, risks, exposures, margins) = checks_after-split e p c a.sizing a.after in
      (
        market_checks-IsTradable e now p market,
        loss_checks-HasRoom e.limits p.instrument.epic c losses,
        rw (a.size_eq, a.risk_eq) (risk_checks-IsBounded e p c a.sizing sizes risks),
      )
