-- ===== src/Etoro/Runner/Halted.antt =====
-- Cycles that post nothing.
use sibilla.Base.{
  ℕ, ◌<◌, List, [], ◌∷◌, All, some, true, false, lookup, nat_key, ◌≡◌, refl, ◌⊎◌, subst, sym, arith,
}
use sibilla.Float.{Float, one}
use sibilla.Enums.State.{uses_real_money}
use sibilla.Schemas.Market.{Quote}
use sibilla.Risk.KillSwitch.{guard}
use sibilla.Risk.Engine.Context.{PortfolioContext}
use sibilla.Risk.Engine.Checks.{is_ok, is_broker_source}
use sibilla.Risk.Engine.Approved.{evaluate-safe}
use sibilla.Risk.Engine.Terms.{evaluate-HasTerms}
use sibilla.Etoro.Momentum.{MomentumCandidate}
use sibilla.Etoro.Gateway.{Payload}
use sibilla.Etoro.Runner.{Outside, Moment, Runner, momentum_loop}
use sibilla.Etoro.Runner.Orders.{IsBacked, AllBacked, momentum_loop-AllBacked}

module _ {W : Type 0} ⦃F : Float W⦄ where
  -- The kill switch blocks, the mode trades real money, or the longest holding time is under six hours.
  abbrev pub IsHalted : Moment W → Type 0
  IsHalted t =
      (is_ok (guard t.engine.kill_switch) ≡ false)
      ⊎ ((uses_real_money t.engine.mode ≡ true) ⊎ (t.engine.limits.max_holding_time_s < 21_600))

  -- No quote comes from the broker whose name begins with `ig`.
  abbrev pub ForeignQuotes : Outside W → Type 0
  ForeignQuotes o =
      (id : ℕ) (q : Quote W) → lookup id o.quotes ≡ some q → is_broker_source q.source ≡ false

  not_backed :
      (o : Outside W) (c : PortfolioContext W) (x : Payload W)
      → ForeignQuotes o
      → IsBacked IsHalted o c x
      → ⊥
  not_backed o c x foreign b =
      let t = b.moment in
      let (tradable, _, _) = evaluate-safe t.engine t.now b.proposal c one b.approved in
      let terms = evaluate-HasTerms t.engine t.now b.proposal c one b.approved in
      let source = foreign x.instrument_id b.proposal.quote b.quoted in
      ground (arith, tradable.running, terms.horizon, terms.broker, source, b.horizon, b.at_moment)

  none_backed :
      (o : Outside W) (c : PortfolioContext W) (xs : List (Payload W))
      → ForeignQuotes o
      → AllBacked IsHalted o c xs
      → xs ≡ []
  none_backed o c [] foreign h = refl
  none_backed o c (x ∷ xs) foreign (b, h) = absurd (not_backed o c x foreign b)

  -- A momentum loop that starts with no order, on quotes that are not the broker's, posts none if at
  -- each candidate's turn the kill switch blocks, the mode trades real money, or the longest holding
  -- time is under six hours.
  pub momentum_loop-halted :
      (o : Outside W) (c : PortfolioContext W) (ms : List (Moment W × MomentumCandidate W))
      (r : Runner W)
      → ForeignQuotes o
      → All (λ x. IsHalted x.0) ms
      → r.orders ≡ []
      → (momentum_loop o c ms r).runner.orders ≡ []
  momentum_loop-halted o c ms r foreign held start =
      none_backed o c (momentum_loop o c ms r).runner.orders foreign (
        momentum_loop-AllBacked IsHalted o c ms r held
          (subst (λ xs. AllBacked IsHalted o c xs) (sym start) tt))
