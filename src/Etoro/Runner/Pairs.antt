-- ===== src/Etoro/Runner/Pairs.antt =====
-- `_run_pairs_phase` of src/workers/etoro_runner.py over the signals of src/strategies/etoro_pairs.py.
pub mod Legs
use sibilla.Base.{
  ℕ, Text, text, digits, List, [], ◌∷◌, ◌++◌, take, Option, none, some, Bool, true, false, ◌&&◌,
  Dict, lookup, nat_key,
}
use sibilla.Base.Int.{ℤ}
use sibilla.Float.{Float, ◌⊗◌, one}
use sibilla.Enums.Market.{Direction}
use sibilla.Schemas.Market.{Quote}
use sibilla.Schemas.Trade.{TradeProposal, RiskDecision}
use sibilla.Risk.Engine.Context.{PortfolioContext}
use sibilla.Risk.Engine.{evaluate}
use sibilla.Etoro.Proposal.{size_from_decision}
use sibilla.Etoro.Legs.{
  build_leg_proposal, leg_entry_price, leg_stop_and_target, risk_fraction_per_leg,
}
use sibilla.Etoro.Gateway.{Payload, payload_of}
use sibilla.Etoro.Screener.{PairSignal}
use sibilla.Etoro.Runner.{Outside, Moment, Runner, Progress, send, is_positive}

-- The runner after a pair, whether the pair raised, and whether the loop breaks after it.
pub record PairProgress (W : Type 0) : Type 0 where
  pub runner : Runner W
  pub raised : Bool
  pub opened : Bool

-- A signal with the moments at which its legs are judged, and the quotes that are fetched for it.
pub record Turn (W : Type 0) : Type 0 where
  pub at_a : Moment W
  pub at_b : Moment W
  pub sig : PairSignal W
  pub quotes : Dict ℕ (Quote W)

abbrev pub max_pairs_tried_per_cycle : ℕ
max_pairs_tried_per_cycle = 5

module _ {W : Type 0} where
  abbrev pub next_pair : Runner W → PairProgress W
  next_pair r = record { runner = r; raised = false; opened = false }

  abbrev pub failed_pair : Runner W → PairProgress W
  failed_pair r = record { runner = r; raised = true; opened = false }

  abbrev pub pair_label : PairSignal W → Text
  pair_label s =
      text "pair-" ++ (digits s.instrument_a_id ++ (text "-" ++ digits s.instrument_b_id))

module _ {W : Type 0} ⦃F : Float W⦄ where
  abbrev pub proposal_a : PortfolioContext W → PairSignal W → Quote W → Option (TradeProposal W)
  proposal_a c s quote =
      build_leg_proposal s.instrument_a_id s.instrument_a_name s.direction_a quote (pair_label s)
        (some (c.account.equity ⊗ risk_fraction_per_leg))

  abbrev pub proposal_b : PortfolioContext W → PairSignal W → Quote W → Option (TradeProposal W)
  proposal_b c s quote =
      build_leg_proposal s.instrument_b_id s.instrument_b_name s.direction_b quote (pair_label s)
        (some (c.account.equity ⊗ risk_fraction_per_leg))

  -- The payload of a leg, with the stop and the target as prices.
  unfoldable pub leg_payload : ℕ → Direction → Quote W → ℤ → Payload W
  leg_payload instrument_id direction quote units =
      let prices = leg_stop_and_target direction (leg_entry_price direction quote) in
      payload_of instrument_id direction units prices.0 prices.1 5

  -- The two orders; an exception of the first leaves the second unsent.
  unfoldable pub send_legs : Outside W → Payload W → Payload W → Runner W → PairProgress W
  unfolding send
  send_legs o a b r =
      let first = send o a r in
      elim first.raised [
        | true ↦ failed_pair first.runner
        | false ↦
            let second = send o b first.runner in
            record { runner = second.runner; raised = second.raised; opened = true }
      ]

  -- From the decisions on.
  unfoldable pub decided :
      Outside W
      → PairSignal W
      → Quote W
      → Quote W
      → RiskDecision W
      → RiskDecision W
      → Runner W
      → PairProgress W
  unfolding send_legs leg_payload size_from_decision
  decided o s qa qb da db r = elim (da.approved && db.approved) [
    | false ↦ next_pair r
    | true ↦ elim (is_positive (size_from_decision da) && is_positive (size_from_decision db)) [
      | false ↦ next_pair r
      | true ↦
          send_legs o (leg_payload s.instrument_a_id s.direction_a qa (size_from_decision da))
            (leg_payload s.instrument_b_id s.direction_b qb (size_from_decision db)) r
    ]
  ]

  -- From the proposals on; `none` is the exception of a constructor.
  unfoldable pub proposed :
      Outside W
      → PortfolioContext W
      → Moment W
      → Moment W
      → PairSignal W
      → Quote W
      → Quote W
      → Option (TradeProposal W)
      → Option (TradeProposal W)
      → Runner W
      → PairProgress W
  unfolding decided
  proposed o c ta tb s qa qb none pb r = failed_pair r
  proposed o c ta tb s qa qb (some pa) none r = failed_pair r
  proposed o c ta tb s qa qb (some pa) (some pb) r =
      decided o s qa qb (evaluate ta.engine ta.now pa c one) (evaluate tb.engine tb.now pb c one) r

  unfoldable pub with_quotes :
      Outside W
      → PortfolioContext W
      → Moment W
      → Moment W
      → PairSignal W
      → Option (Quote W)
      → Option (Quote W)
      → Runner W
      → PairProgress W
  unfolding proposed
  with_quotes o c ta tb s none qb r = next_pair r
  with_quotes o c ta tb s (some qa) none r = next_pair r
  with_quotes o c ta tb s (some qa) (some qb) r =
      proposed o c ta tb s qa qb (proposal_a c s qa) (proposal_b c s qb) r

  unfoldable pub pair_step : Outside W → PortfolioContext W → Turn W → Runner W → PairProgress W
  unfolding with_quotes
  pair_step o c t r =
      with_quotes o c t.at_a t.at_b t.sig (lookup t.sig.instrument_a_id t.quotes)
        (lookup t.sig.instrument_b_id t.quotes) r

  unfoldable pub pairs_from : Outside W → PortfolioContext W → List (Turn W) → Runner W → Progress W
  unfolding pair_step
  pairs_from o c [] r = record { runner = r; raised = false }
  pairs_from o c (t ∷ ts) r =
      let p = pair_step o c t r in
      elim p.raised [
        | true ↦ record { runner = p.runner; raised = true }
        | false ↦ elim p.opened [
          | true ↦ record { runner = p.runner; raised = false }
          | false ↦ pairs_from o c ts p.runner
        ]
      ]

  unfoldable pub run_pairs_phase :
      Outside W → PortfolioContext W → List (Turn W) → Runner W → Progress W
  unfolding pairs_from
  run_pairs_phase o c ts r = pairs_from o c (take max_pairs_tried_per_cycle ts) r
