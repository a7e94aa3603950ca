-- ===== src/Etoro/Runner.antt =====
-- `run_cycle` of src/workers/etoro_runner.py once the positions, the candidates and the quotes are
-- there: the context of the cycle and the loop over the momentum candidates. The news, the language
-- model and the broker answer from outside, and the engine and the clock are read anew for each
-- candidate.
pub mod Context
pub mod Orders
pub mod Halted
pub mod Pairs
pub mod Cycle
pub mod Schedule
pub mod Closing
use sibilla.Base.{
  ℕ, suc, Text, text, digits, ◌=?◌, List, [], ◌∷◌, ◌++◌, take, Option, none, some, Bool, true,
  false, Dict, lookup, insert, nat_key, Result, ok, err,
}
use sibilla.Base.Int.{ℤ, pos, negsuc}
use sibilla.Float.{Float, ◌⊕◌, ◌⊖◌, ◌⊗◌, one}
use sibilla.Enums.Market.{Direction}
use sibilla.Schemas.Market.{Quote}
use sibilla.Schemas.Trade.{TradeProposal, RiskDecision, AccountState}
use sibilla.Store.{World}
use sibilla.Risk.Engine.Context.{RiskEngine, PortfolioContext}
use sibilla.Risk.Engine.{evaluate}
use sibilla.Etoro.Momentum.{MomentumCandidate}
use sibilla.Etoro.Judge.{CatalystVerdict, judge_catalyst}
use sibilla.Etoro.Proposal.{build_trade_proposal, size_from_decision, risk_fraction_of_equity}
use sibilla.Etoro.Gateway.{Payload, OrderResult, Sent, payload_of, open_market_order}

-- What the runner asks of others during a cycle.
pub record Outside (W : Type 0) : Type 0 where
  pub quotes : Dict ℕ (Quote W)
  pub news : Text → Result Text Text
  pub llm : MomentumCandidate W → Text → Result Text (Option (CatalystVerdict W))
  pub post_order : Payload W → Result Text (Option Text)

-- The engine and the clock when a candidate's turn comes.
pub record Moment (W : Type 0) : Type 0 where
  pub engine : RiskEngine W
  pub now : W

-- `_last_news_seen`, the bus, and the payloads that were posted, the newest first.
pub record Runner (W : Type 0) : Type 0 where
  pub last_news_seen : Dict ℕ Text
  pub world : World W
  pub orders : List (Payload W)

-- The runner after a step, and whether the step raised.
pub record Progress (W : Type 0) : Type 0 where
  pub runner : Runner W
  pub raised : Bool

abbrev pub max_judged_per_cycle : ℕ
max_judged_per_cycle = 10

abbrev pub is_positive : ℤ → Bool
is_positive (pos (suc n)) = true
is_positive n = false

-- `news_brief == self._last_news_seen.get(id)`
abbrev pub is_seen : Text → Option Text → Bool
is_seen brief none = false
is_seen brief (some seen) = brief =? seen

module _ {W : Type 0} where
  abbrev pub going : Runner W → Progress W
  going r = record { runner = r; raised = false }

  abbrev pub raised_in : Runner W → Progress W
  raised_in r = record { runner = r; raised = true }

  abbrev pub is_raised : Result Text (OrderResult W) → Bool
  is_raised (ok _) = false
  is_raised (err _) = true

module _ {W : Type 0} ⦃F : Float W⦄ where
  -- `open_market_order` with the payload recorded.
  unfoldable pub send : Outside W → Payload W → Runner W → Progress W
  send o payload r =
      let sent = open_market_order (o.post_order payload) payload r.world in
      record {
        runner = record r { world = sent.world; orders = payload ∷ r.orders };
        raised = is_raised sent.result;
      }

  abbrev pub momentum_payload : MomentumCandidate W → Quote W → ℤ → Payload W
  momentum_payload m quote units =
      payload_of m.instrument_id Direction.buy units (F.round 2 (quote.offer ⊗ (one ⊖ F.lit 7 2)))
        (F.round 2 (quote.offer ⊗ (one ⊕ F.lit 14 2))) 5

  -- From the decision on.
  unfoldable pub act_on :
      Outside W → MomentumCandidate W → Quote W → RiskDecision W → Runner W → Progress W
  unfolding send size_from_decision
  act_on o m quote decision r = elim decision.approved [
    | false ↦ going r
    | true ↦ elim (is_positive (size_from_decision decision)) [
      | false ↦ going r
      | true ↦ send o (momentum_payload m quote (size_from_decision decision)) r
    ]
  ]

  -- From the proposal on; `none` is the exception of its constructor.
  unfoldable pub propose :
      Outside W
      → PortfolioContext W
      → Moment W
      → MomentumCandidate W
      → Quote W
      → Option (TradeProposal W)
      → Runner W
      → Progress W
  unfolding act_on
  propose o c t m quote none r = raised_in r
  propose o c t m quote (some p) r = act_on o m quote (evaluate t.engine t.now p c one) r

  abbrev pub requested_risk : PortfolioContext W → W
  requested_risk c = c.account.equity ⊗ risk_fraction_of_equity

  -- From the verdict on.
  unfoldable pub judged :
      Outside W
      → PortfolioContext W
      → Moment W
      → MomentumCandidate W
      → Quote W
      → CatalystVerdict W
      → Runner W
      → Progress W
  unfolding propose
  judged o c t m quote verdict r = elim verdict.has_catalyst [
    | false ↦ going r
    | true ↦
        propose o c t m quote
          (build_trade_proposal m verdict quote (text "etoro-" ++ digits m.instrument_id)
            (some (requested_risk c)))
          r
  ]

  -- From the news on; an exception of their lookup ends the loop.
  unfoldable pub with_news :
      Outside W
      → PortfolioContext W
      → Moment W
      → MomentumCandidate W
      → Quote W
      → Result Text Text
      → Runner W
      → Progress W
  unfolding judged
  with_news o c t m quote (err e) r = record { runner = r; raised = true }
  with_news o c t m quote (ok brief) r =
      elim (is_seen brief (lookup m.instrument_id r.last_news_seen)) [
        | true ↦ going r
        | false ↦
            judged o c t m quote (judge_catalyst (o.llm m brief))
              (record r { last_news_seen = insert m.instrument_id brief r.last_news_seen })
      ]

  unfoldable pub with_quote :
      Outside W
      → PortfolioContext W
      → Moment W
      → MomentumCandidate W
      → Option (Quote W)
      → Runner W
      → Progress W
  unfolding with_news
  with_quote o c t m none r = going r
  with_quote o c t m (some quote) r = with_news o c t m quote (o.news m.name) r

  -- The body of the loop over the candidates.
  unfoldable pub momentum_step :
      Outside W → PortfolioContext W → Moment W × MomentumCandidate W → Runner W → Progress W
  unfolding with_quote
  momentum_step o c (t, m) r = with_quote o c t m (lookup m.instrument_id o.quotes) r

  unfoldable pub momentum_loop :
      Outside W → PortfolioContext W → List (Moment W × MomentumCandidate W) → Runner W → Progress W
  unfolding momentum_step
  momentum_loop o c [] r = going r
  momentum_loop o c (m ∷ ms) r =
      let p = momentum_step o c m r in
      elim p.raised [ true ↦ p | false ↦ momentum_loop o c ms p.runner ]
