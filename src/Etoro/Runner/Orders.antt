-- ===== src/Etoro/Runner/Orders.antt =====
-- What stands behind each order that the momentum loop posts.
use sibilla.Base.{
  Text, text, Result, ok, err, List, [], ◌∷◌, All, Option, none, some, Bool-cases, inl, inr, true,
  lookup, nat_key, ◌≡◌, refl, digits, ◌++◌, insert, arith,
}
use sibilla.Float.{Float, ◌⊕◌, ◌⊖◌, ◌⊗◌, one}
use sibilla.Schemas.Market.{Quote}
use sibilla.Schemas.Trade.{TradeProposal, validate_proposal}
use sibilla.Risk.Engine.Context.{PortfolioContext}
use sibilla.Risk.Engine.{evaluate}
use sibilla.Etoro.Momentum.{MomentumCandidate}
use sibilla.Etoro.Judge.{CatalystVerdict, judge_catalyst}
use sibilla.Etoro.Proposal.{build_trade_proposal, proposal_of, size_from_decision}
use sibilla.Etoro.Gateway.{Payload, payload_of}
use sibilla.Etoro.Runner.{
  Outside, Moment, Runner, send, act_on, propose, judged, with_news, with_quote, momentum_step,
  momentum_loop, momentum_payload, is_positive, is_seen, requested_risk,
}

module _ {W : Type 0} ⦃F : Float W⦄ where
  -- A payload for which the engine, at some moment, approved a proposal on the quote of its instrument,
  -- in the context of the cycle, whose size gives the units.
  pub record IsBacked (P : Moment W → Type 0) (o : Outside W) (c : PortfolioContext W)
      (x : Payload W) : Type 0 where
    pub moment : Moment W
    pub at_moment : P moment
    pub proposal : TradeProposal W
    pub horizon : proposal.time_horizon_seconds ≡ 21_600
    pub quoted : lookup x.instrument_id o.quotes ≡ some proposal.quote
    pub approved : (evaluate moment.engine moment.now proposal c one).approved ≡ true
    pub units_eq : x.units ≡ size_from_decision (evaluate moment.engine moment.now proposal c one)
    pub units_positive : is_positive x.units ≡ true
    pub bought : x.transaction ≡ text "buy"
    pub stop_eq : x.stop_loss_rate ≡ F.round 2 (proposal.quote.offer ⊗ (one ⊖ F.lit 7 2))
    pub target_eq : x.take_profit_rate ≡ F.round 2 (proposal.quote.offer ⊗ (one ⊕ F.lit 14 2))

  abbrev pub AllBacked :
      (Moment W → Type 0) → Outside W → PortfolioContext W → List (Payload W) → Type 0
  AllBacked P o c xs = All (IsBacked P o c) xs

  -- The quote of a proposal that was built is the one that was passed.
  pub build_trade_proposal-quote :
      (m : MomentumCandidate W) (v : CatalystVerdict W) (q : Quote W) (id : Text) (risk : Option W)
      (p : TradeProposal W)
      → build_trade_proposal m v q id risk ≡ some p
      → (p.quote ≡ q) × (p.time_horizon_seconds ≡ 21_600)
  unfolding build_trade_proposal validate_proposal proposal_of
  build_trade_proposal-quote m v q id risk p h = ground arith

  momentum_payload-IsBacked :
      (P : Moment W → Type 0) (o : Outside W) (c : PortfolioContext W) (t : Moment W)
      (m : MomentumCandidate W) (here : P t) (q : Quote W) (p : TradeProposal W)
      → p.quote ≡ q
      → p.time_horizon_seconds ≡ 21_600
      → lookup m.instrument_id o.quotes ≡ some q
      → (evaluate t.engine t.now p c one).approved ≡ true
      → is_positive (size_from_decision (evaluate t.engine t.now p c one)) ≡ true
      → IsBacked P o c (momentum_payload m q (size_from_decision (evaluate t.engine t.now p c one)))
  unfolding payload_of
  momentum_payload-IsBacked P o c t m here q p same long quoted a u = record {
    moment = t;
    at_moment = here;
    proposal = p;
    horizon = long;
    quoted = rw same quoted;
    approved = a;
    units_eq = refl;
    units_positive = u;
    bought = refl;
    stop_eq = rw same refl;
    target_eq = rw same refl;
  }

  act_on-AllBacked :
      (P : Moment W → Type 0) (o : Outside W) (c : PortfolioContext W) (t : Moment W)
      (m : MomentumCandidate W) (here : P t) (q : Quote W) (p : TradeProposal W) (r : Runner W)
      → p.quote ≡ q
      → p.time_horizon_seconds ≡ 21_600
      → lookup m.instrument_id o.quotes ≡ some q
      → AllBacked P o c r.orders
      → AllBacked P o c (act_on o m q (evaluate t.engine t.now p c one) r).runner.orders
  unfolding act_on send
  act_on-AllBacked P o c t m here q p r same long quoted h =
      let d = evaluate t.engine t.now p c one in
      elim (Bool-cases d.approved) [
        | inr refused ↦ rw (refused, act_on) h
        | inl a ↦ elim (Bool-cases (is_positive (size_from_decision d))) [
          | inr too_small ↦ rw (a, act_on) (rw (too_small, act_on) h)
          | inl u ↦
              rw (a, act_on)
                (rw (u, act_on)
                  (momentum_payload-IsBacked P o c t m here q p same long quoted a u, h))
        ]
      ]

  propose-AllBacked :
      (P : Moment W → Type 0) (o : Outside W) (c : PortfolioContext W) (t : Moment W)
      (m : MomentumCandidate W) (here : P t) (q : Quote W) (p : Option (TradeProposal W))
      (v : CatalystVerdict W) (id : Text) (risk : Option W) (r : Runner W)
      → build_trade_proposal m v q id risk ≡ p
      → lookup m.instrument_id o.quotes ≡ some q
      → AllBacked P o c r.orders
      → AllBacked P o c (propose o c t m q p r).runner.orders
  unfolding propose
  propose-AllBacked P o c t m here q none v id risk r built quoted h = h
  propose-AllBacked P o c t m here q (some p) v id risk r built quoted h =
      let (same, long) = build_trade_proposal-quote m v q id risk p built in
      act_on-AllBacked P o c t m here q p r same long quoted h

  judged-AllBacked :
      (P : Moment W → Type 0) (o : Outside W) (c : PortfolioContext W) (t : Moment W)
      (m : MomentumCandidate W) (here : P t) (q : Quote W) (v : CatalystVerdict W) (r : Runner W)
      → lookup m.instrument_id o.quotes ≡ some q
      → AllBacked P o c r.orders
      → AllBacked P o c (judged o c t m q v r).runner.orders
  unfolding judged
  judged-AllBacked P o c t m here q v r quoted h = elim (Bool-cases v.has_catalyst) [
    | inr unexplained ↦ rw (unexplained, judged) h
    | inl explained ↦
        let id = text "etoro-" ++ digits m.instrument_id in
        rw (explained, judged)
          (propose-AllBacked P o c t m here q
            (build_trade_proposal m v q id (some (requested_risk c))) v id (some (requested_risk c))
            r refl quoted h)
  ]

  with_news-AllBacked :
      (P : Moment W → Type 0) (o : Outside W) (c : PortfolioContext W) (t : Moment W)
      (m : MomentumCandidate W) (here : P t) (q : Quote W) (n : Result Text Text) (r : Runner W)
      → lookup m.instrument_id o.quotes ≡ some q
      → AllBacked P o c r.orders
      → AllBacked P o c (with_news o c t m q n r).runner.orders
  unfolding with_news
  with_news-AllBacked P o c t m here q (err e) r quoted h = h
  with_news-AllBacked P o c t m here q (ok brief) r quoted h =
      elim (Bool-cases (is_seen brief (lookup m.instrument_id r.last_news_seen))) [
        | inl seen ↦ rw (seen, with_news) h
        | inr fresh ↦
            rw (fresh, with_news)
              (judged-AllBacked P o c t m here q (judge_catalyst (o.llm m brief))
                (record r { last_news_seen = insert m.instrument_id brief r.last_news_seen }) quoted
                h)
      ]

  with_quote-AllBacked :
      (P : Moment W → Type 0) (o : Outside W) (c : PortfolioContext W) (t : Moment W)
      (m : MomentumCandidate W) (here : P t) (q : Option (Quote W)) (r : Runner W)
      → lookup m.instrument_id o.quotes ≡ q
      → AllBacked P o c r.orders
      → AllBacked P o c (with_quote o c t m q r).runner.orders
  unfolding with_quote
  with_quote-AllBacked P o c t m here none r quoted h = h
  with_quote-AllBacked P o c t m here (some q) r quoted h =
      with_news-AllBacked P o c t m here q (o.news m.name) r quoted h

  -- Every order that the loop over the momentum candidates posts buys whole units, at least one,
  -- that the risk engine approved for a proposal on the quote of that instrument, with the stop and
  -- the target of that quote; the engine judged each one at a moment of the cycle, in the context
  -- from its start. Orders from before the loop that are so remain so.
  pub momentum_loop-AllBacked :
      (P : Moment W → Type 0) (o : Outside W) (c : PortfolioContext W)
      (ms : List (Moment W × MomentumCandidate W)) (r : Runner W)
      → All (λ x. P x.0) ms
      → AllBacked P o c r.orders
      → AllBacked P o c (momentum_loop o c ms r).runner.orders
  unfolding momentum_loop momentum_step
  momentum_loop-AllBacked P o c [] r held h = h
  momentum_loop-AllBacked P o c ((t, m) ∷ ms) r (here, held) h =
      let next = momentum_step o c (t, m) r in
      let kept = with_quote-AllBacked P o c t m here (lookup m.instrument_id o.quotes) r refl h in
      elim (Bool-cases next.raised) [
        | inl stopped ↦ rw (stopped, momentum_loop) kept
        | inr ongoing ↦
            rw (ongoing, momentum_loop) (momentum_loop-AllBacked P o c ms next.runner held kept)
      ]
