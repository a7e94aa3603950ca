-- ===== src/Risk/Engine/Decision.antt =====
-- What the engine's decision says of its own checks.
use sibilla.Base.{
  Text, text, List, [], ◌∷◌, ◌++◌, all-append, select, not, true, false, ◌≡◌, refl, sym, ◌∙◌,
  Result, ok, err, arith,
}
use sibilla.Float.{Float, nought}
use sibilla.Schemas.Trade.{TradeProposal, RiskCheck, failed_checks}
use sibilla.Risk.Sizing.{SizingResult, SizingError, compute_size}
use sibilla.Risk.Engine.Context.{RiskEngine, PortfolioContext, check, all_passed}
use sibilla.Risk.Engine.{
  sizing_request, checks_before, checks_after, refused_sizing, decide, conclude, evaluate,
}

module _ {W : Type 0} ⦃F : Float W⦄ where
  select-all_passed :
      (cs : List (RiskCheck W)) → all_passed cs ≡ true → select (λ c. not c.passed) cs ≡ []
  select-all_passed [] h = refl
  select-all_passed (c ∷ cs) h = ground (arith, select-all_passed cs)

  last-false :
      (cs : List (RiskCheck W)) (name : Text) → all_passed (cs ++ (check name false ∷ [])) ≡ false
  last-false [] name = refl
  last-false (c ∷ cs) name = ground (arith, last-false cs name)

  conclude-all_passed :
      (e : RiskEngine W) (p : TradeProposal W) (c : PortfolioContext W)
      (before : List (RiskCheck W)) (r : Result SizingError (SizingResult W))
      → (conclude e p c before r).approved ≡ all_passed (conclude e p c before r).checks
  unfolding conclude refused_sizing decide
  conclude-all_passed e p c before (err x) = sym (last-false before (text "sizing"))
  conclude-all_passed e p c before (ok s) = refl

  conclude-refused :
      (e : RiskEngine W) (p : TradeProposal W) (c : PortfolioContext W)
      (before : List (RiskCheck W)) (r : Result SizingError (SizingResult W))
      → (conclude e p c before r).approved ≡ false
      → ((conclude e p c before r).size ≡ nought) × ((conclude e p c before r).risk_eur ≡ nought)
  unfolding conclude refused_sizing decide
  conclude-refused e p c before (err x) h = (refl, refl)
  conclude-refused e p c before (ok s) h = rw h (refl, refl)

  -- A proposal is approved exactly if every recorded check passed, also where the sizing raised.
  pub evaluate-all_passed :
      (e : RiskEngine W) (now : W) (p : TradeProposal W) (c : PortfolioContext W) (fx : W)
      → (evaluate e now p c fx).approved ≡ all_passed (evaluate e now p c fx).checks
  unfolding evaluate
  evaluate-all_passed e now p c fx =
      conclude-all_passed e p c (checks_before e now p c)
        (compute_size e.limits (sizing_request p c.account.equity fx))

  -- A refused proposal has no size and no risk.
  pub evaluate-refused :
      (e : RiskEngine W) (now : W) (p : TradeProposal W) (c : PortfolioContext W) (fx : W)
      → (evaluate e now p c fx).approved ≡ false
      → ((evaluate e now p c fx).size ≡ nought) × ((evaluate e now p c fx).risk_eur ≡ nought)
  unfolding evaluate
  evaluate-refused e now p c fx h =
      conclude-refused e p c (checks_before e now p c)
        (compute_size e.limits (sizing_request p c.account.equity fx)) h

  -- An approved decision has no failed check.
  pub evaluate-failed_checks :
      (e : RiskEngine W) (now : W) (p : TradeProposal W) (c : PortfolioContext W) (fx : W)
      → (evaluate e now p c fx).approved ≡ true
      → failed_checks (evaluate e now p c fx) ≡ []
  unfolding failed_checks
  evaluate-failed_checks e now p c fx h =
      select-all_passed (evaluate e now p c fx).checks (sym (evaluate-all_passed e now p c fx) ∙ h)

  -- What an approval rests on.
  pub record Approval (e : RiskEngine W) (now : W) (p : TradeProposal W) (c : PortfolioContext W)
      (fx : W) : Type 0 where
    pub sizing : SizingResult W
    pub sized : compute_size e.limits (sizing_request p c.account.equity fx) ≡ ok sizing
    pub before : all_passed (checks_before e now p c) ≡ true
    pub after : all_passed (checks_after e p c sizing) ≡ true
    pub size_eq : (evaluate e now p c fx).size ≡ sizing.size
    pub risk_eq : (evaluate e now p c fx).risk_eur ≡ sizing.risk_eur

  conclude-Approval :
      (e : RiskEngine W) (now : W) (p : TradeProposal W) (c : PortfolioContext W) (fx : W)
      (r : Result SizingError (SizingResult W))
      → compute_size e.limits (sizing_request p c.account.equity fx) ≡ r
      → (conclude e p c (checks_before e now p c) r).approved ≡ true
      → Approval e now p c fx
  unfolding conclude refused_sizing decide evaluate
  conclude-Approval e now p c fx (err x) computed h = cc
  conclude-Approval e now p c fx (ok s) computed h =
      let split = all-append (λ x. x.passed) (checks_before e now p c) (checks_after e p c s) in
      record {
        sizing = s;
        sized = computed;
        before = ground arith;
        after = ground arith;
        size_eq = rw (computed, conclude) (rw h);
        risk_eq = rw (computed, conclude) (rw h);
      }

  pub approval :
      (e : RiskEngine W) (now : W) (p : TradeProposal W) (c : PortfolioContext W) (fx : W)
      → (evaluate e now p c fx).approved ≡ true
      → Approval e now p c fx
  unfolding evaluate
  approval e now p c fx h =
      conclude-Approval e now p c fx (compute_size e.limits (sizing_request p c.account.equity fx))
        refl h
