-- ===== src/Evaluation/Backtest/Planned.antt =====
-- No lookahead in src/evaluation/backtest.py, trade by trade.
use sibilla.Base.{Text, text_key, List, [], ◌∷◌, All, Among, some, Dict, lookup, ◌≡◌, IsSorted}
use sibilla.Float.{Float, IsFloat, ◌⊕◌, ◌⊖◌, one}
use sibilla.Enums.Market.{Direction, parse_direction}
use sibilla.Schemas.Market.{Instrument}
use sibilla.Quant.Features.{Series, is_earlier, price_at_or_before, realized_volatility}
use sibilla.Quant.NoLookahead.{up_to}
use sibilla.Evaluation.Backtest.{
  Event, Settings, BacktestTrade, Plan, Exit, next, trade_of, plan, exit_of,
}
use sibilla.Evaluation.Backtest.Truncated.{IsFor, plan_from-IsFor}

pub map-All :
    {A : Type 0} (P Q : A → Type 0) (xs : List A) → ((x : A) → P x → Q x) → All P xs → All Q xs
map-All P Q [] f h = tt
map-All P Q (x ∷ xs) f (p, h) = (f x p, map-All P Q xs f h)

module _ {W : Type 0} ⦃F : Float W⦄ where
  abbrev pub AllSorted : Dict Text (Series W) → Type 0
  AllSorted d = All (λ e. IsSorted is_earlier e.1) d

module _ {W : Type 0} ⦃F : Float W⦄ (ln : W → W) (g : Settings W) (d : Dict Text (Series W))
    (instruments : Dict Text (Instrument W)) (events : List (Event W)) where
  -- A trade that is made of one of the events, from its series up to the time of the decision and, for
  -- its exit, up to its own deadline.
  pub record IsPlanned (t : BacktestTrade W) : Type 0 where
    pub event : Event W
    pub series : Series W
    pub instrument : Instrument W
    pub direction : Direction
    pub equity : W
    pub plan_made : Plan W
    pub exit_made : Exit W
    pub among : Among event events
    pub given : lookup event.epic d ≡ some series
    pub known : lookup event.epic instruments ≡ some instrument
    pub parsed : parse_direction event.direction ≡ some direction
    pub planned :
        plan ln g instrument equity event direction (up_to (event.ts ⊕ g.decision_delay_s) series)
        ≡ next plan_made
    pub exited :
        exit_of plan_made (up_to ((event.ts ⊕ g.decision_delay_s) ⊕ g.holding_s) series)
        ≡ next exit_made
    pub same : t ≡ trade_of instrument event plan_made exit_made

module _ {W : Type 0} ⦃F : Float W⦄ (L : IsFloat W) where
  -- The times of a plan that was made for an event.
  pub plan-IsFor :
      (ln : W → W) (g : Settings W) (i : Instrument W) (equity : W) (e : Event W) (v : Direction)
      (s : Series W)
      → IsFor g e (plan ln g i equity e v s)
  unfolding plan
  plan-IsFor ln g i equity e v s =
      plan_from-IsFor g i equity e v (price_at_or_before s (e.ts ⊖ one))
        (price_at_or_before s (e.ts ⊕ g.decision_delay_s))
        (realized_volatility ln (F.lit 3600 0) (e.ts ⊕ g.decision_delay_s) s)
