-- ===== src/Etoro/Runner/Cycle.antt =====
-- `run_cycle` of src/workers/etoro_runner.py from its guard to the pairs phase, with what the gateway
-- and the screeners gave as arguments.
use sibilla.Base.{
  ℕ, zero, suc, ◌⊎◌, Among, List, [], ◌∷◌, All, take, Bool, Bool-cases, inl, inr, true, false,
  Result, ok, err, ◌≡◌,
}
use sibilla.Float.{Float}
use sibilla.Schemas.Trade.{AccountState}
use sibilla.Risk.KillSwitch.{KillSwitch, Raised, guard}
use sibilla.Risk.Engine.Context.{PortfolioContext}
use sibilla.Etoro.Momentum.{MomentumCandidate}
use sibilla.Etoro.Gateway.{BrokerPosition, Payload}
use sibilla.Etoro.Runner.{
  Outside, Moment, Runner, Progress, going, momentum_loop, max_judged_per_cycle,
}
use sibilla.Etoro.Runner.Context.{cycle_context}
use sibilla.Etoro.Runner.Orders.{IsBacked, AllBacked, momentum_loop-AllBacked}
use sibilla.Etoro.Runner.Pairs.{Turn, run_pairs_phase}
use sibilla.Etoro.Runner.Pairs.Legs.{
  IsLegA, IsLegB, Posted, nothing, first_leg, both_legs, run_pairs_phase-Posted,
}

module _ {W : Type 0} ⦃F : Float W⦄ where
  -- What follows the guard.
  unfoldable pub guarded :
      Result Raised (Unit {0})
      → Outside W
      → PortfolioContext W
      → List (Moment W × MomentumCandidate W)
      → List (Turn W)
      → Runner W
      → Progress W
  guarded (err _) o c ms ts r = going r
  guarded (ok _) o c ms ts r =
      let p = momentum_loop o c (take max_judged_per_cycle ms) r in
      elim p.raised [ true ↦ p | false ↦ run_pairs_phase o c ts p.runner ]

  unfoldable pub run_cycle :
      KillSwitch W
      → Outside W
      → AccountState W
      → List (BrokerPosition W)
      → List (Moment W × MomentumCandidate W)
      → List (Turn W)
      → Runner W
      → Progress W
  unfolding guarded
  run_cycle k o account positions ms ts r =
      guarded (guard k) o (cycle_context account positions) ms ts r

  -- An order of the momentum strategy at a moment of the cycle, or a leg of one of its pairs.
  abbrev pub IsApproved :
      (Moment W → Type 0) → Outside W → PortfolioContext W → List (Turn W) → Payload W → Type 0
  IsApproved P o c ts x =
      IsBacked P o c x ⊎ ((t : Turn W) × Among t ts × (IsLegA c t x ⊎ IsLegB c t x))

  abbrev pub AllApproved :
      (Moment W → Type 0)
      → Outside W
      → PortfolioContext W
      → List (Turn W)
      → List (Payload W)
      → Type 0
  AllApproved P o c ts xs = All (IsApproved P o c ts) xs

  backed-AllApproved :
      (P : Moment W → Type 0) (o : Outside W) (c : PortfolioContext W) (ts : List (Turn W))
      (xs : List (Payload W))
      → AllBacked P o c xs
      → AllApproved P o c ts xs
  backed-AllApproved P o c ts [] h = tt
  backed-AllApproved P o c ts (x ∷ xs) (b, h) = (inl b, backed-AllApproved P o c ts xs h)

  Posted-AllApproved :
      (P : Moment W → Type 0) (o : Outside W) (c : PortfolioContext W) (ts : List (Turn W))
      (before : List (Payload W)) (raised : Bool) (after : List (Payload W))
      → Posted c ts before raised after
      → AllApproved P o c ts before
      → AllApproved P o c ts after
  Posted-AllApproved P o c ts before raised after nothing h = h
  Posted-AllApproved P o c ts before raised after (first_leg t m a) h = (inr (t, m, inl a), h)
  Posted-AllApproved P o c ts before raised after (both_legs t m a b) h =
      (inr (t, m, inr b), (inr (t, m, inl a), h))

  take-moments :
      (P : Moment W → Type 0) (n : ℕ) (ms : List (Moment W × MomentumCandidate W))
      → All (λ x. P x.0) ms
      → All (λ x. P x.0) (take n ms)
  take-moments P zero ms h = tt
  take-moments P (suc n) [] h = tt
  take-moments P (suc n) (m ∷ ms) (p, h) = (p, take-moments P n ms h)

  guarded-AllApproved :
      (P : Moment W → Type 0) (g : Result Raised (Unit {0})) (o : Outside W)
      (c : PortfolioContext W) (ms : List (Moment W × MomentumCandidate W)) (ts : List (Turn W))
      (r : Runner W)
      → All (λ x. P x.0) ms
      → r.orders ≡ []
      → AllApproved P o c (take 5 ts) (guarded g o c ms ts r).runner.orders
  unfolding guarded
  guarded-AllApproved P (err x) o c ms ts r held start = rw start tt
  guarded-AllApproved P (ok x) o c ms ts r held start =
      let first = take max_judged_per_cycle ms in
      let p = momentum_loop o c first r in
      let bought : AllApproved P o c (take 5 ts) p.runner.orders =
        backed-AllApproved P o c (take 5 ts) p.runner.orders (
          momentum_loop-AllBacked P o c first r (take-moments P max_judged_per_cycle ms held)
            (rw start tt)) in
      elim (Bool-cases p.raised) [
        | inl stopped ↦ rw (stopped, guarded) bought
        | inr ongoing ↦
            rw (ongoing, guarded)
              (Posted-AllApproved P o c (take 5 ts) p.runner.orders
                (run_pairs_phase o c ts p.runner).raised
                (run_pairs_phase o c ts p.runner).runner.orders
                (run_pairs_phase-Posted o c ts p.runner) bought)
      ]

  -- Every order of a cycle that starts with none is one of two: a buy of the momentum strategy, which
  -- the engine approved at a moment of the cycle for a proposal on the quote of the order's own
  -- instrument, or a leg of one of the first five pairs, on its own instrument and side, which the
  -- engine approved at the moment of that leg for the proposal that is built from them and its own
  -- quote. Each has at least one unit and the size that was approved, in the context of the positions
  -- and the account from the start of the cycle, and the stop and the target of its quote.
  pub run_cycle-AllApproved :
      (P : Moment W → Type 0) (k : KillSwitch W) (o : Outside W) (account : AccountState W)
      (positions : List (BrokerPosition W)) (ms : List (Moment W × MomentumCandidate W))
      (ts : List (Turn W)) (r : Runner W)
      → All (λ x. P x.0) ms
      → r.orders ≡ []
      → AllApproved P o
          (cycle_context account positions)
          (take 5 ts)
          (run_cycle k o account positions ms ts r).runner.orders
  unfolding run_cycle
  run_cycle-AllApproved P k o account positions ms ts r held start =
      guarded-AllApproved P (guard k) o (cycle_context account positions) ms ts r held start
