-- ===== src/Evaluation/Backtest/Truncated.antt =====
-- What src/evaluation/backtest.py reads of a series: its decisions no prices after their own time, its
-- exits none after their deadline.
use mathlib.Core.Option.{some-injective}
use sibilla.Base.{
  Text, text_key, List, [], ◌∷◌, All, map, Option, none, some, Bool-cases, inl, inr, ◌||◌, Dict,
  lookup, select-yes, select-no, ◌≡◌, refl, sym, ap, ◌∙◌, subst, IsSorted, if◌then◌else◌, arith,
}
use sibilla.Float.{Float, IsFloat, ◌⊕◌, ◌⊖◌, ◌≤?◌, ◌<?◌, ◌≼◌, ◌≺◌, one, nought}
use sibilla.Float.Laws.{sub-le, le-add_right, nought-le-one}
use sibilla.Enums.Market.{Direction, parse_direction}
use sibilla.Schemas.Market.{Instrument}
use sibilla.Quant.Features.{Series, is_earlier, price_at_or_before, realized_volatility}
use sibilla.Quant.NoLookahead.{
  up_to, price_at_or_before-up_to, realized_volatility-up_to, up_to-late,
}
use sibilla.Evaluation.Backtest.{
  Event, Settings, BacktestTrade, Replay, Plan, Step, skip, failed, next, divides_by_zero,
  is_missing, price_or, plan_at, plan_from, net_alpha, terms, exit_at, plan, first_exit, exit_or,
  exit_of, with_exit, with_plan, event_trade, directed, with_data, unless_raised, add_step, replay,
  simulate_event_trades,
}

module _ {W : Type 0} ⦃F : Float W⦄ where
  abbrev pub truncated : W → Dict Text (Series W) → Dict Text (Series W)
  truncated end d = map (λ e. (e.0, up_to end e.1)) d

  -- The series of an epic, cut.
  abbrev pub cut_of : W → Option (Series W) → Option (Series W)
  cut_of end none = none
  cut_of end (some s) = some (up_to end s)

  pub lookup-truncated :
      (end : W) (key : Text) (d : Dict Text (Series W))
      → lookup key (truncated end d) ≡ cut_of end (lookup key d)
  lookup-truncated end key [] = refl
  lookup-truncated end key ((k, s) ∷ d) = elim (Bool-cases (text_key.beq k key)) [
    | inl same ↦ rw (same) refl
    | inr other ↦ rw (other) (lookup-truncated end key d)
  ]

  -- What is found under a key is one of the values.
  pub lookup-All :
      (P : Series W → Type 0) (key : Text) (d : Dict Text (Series W)) (s : Series W)
      → All (λ e. P e.1) d
      → lookup key d ≡ some s
      → P s
  lookup-All P key [] s h e = ground arith
  lookup-All P key ((k, t) ∷ d) s (b, h) e = elim (Bool-cases (text_key.beq k key)) [
    | inl same ↦
        subst P (some-injective t s (ap (λ x. if x then some t else lookup key d) (sym same) ∙ e)) b
    | inr other ↦
        lookup-All P key d s h (ap (λ x. if x then some t else lookup key d) (sym other) ∙ e)
  ]

  -- A series in the order of its times that has begun by `end`, unless it is empty.
  abbrev pub IsBegun : W → Series W → Type 0
  IsBegun end [] = Unit {0}
  IsBegun end (p ∷ s) = (p.0 ≼ end) × IsSorted is_earlier (p ∷ s)

  abbrev pub AllBegun : W → Dict Text (Series W) → Type 0
  AllBegun end d = All (λ e. IsBegun end e.1) d

  abbrev pub deadline_of : Settings W → Event W → W
  deadline_of g e = (e.ts ⊕ g.decision_delay_s) ⊕ g.holding_s

  -- A plan, if there is one, for that event.
  abbrev pub IsFor : Settings W → Event W → Step (Plan W) → Type 0
  IsFor g e (skip why) = Unit {0}
  IsFor g e failed = Unit {0}
  IsFor g e (next p) = (p.decision_ts ≡ e.ts ⊕ g.decision_delay_s) × (p.deadline ≡ deadline_of g e)

  plan_at-IsFor :
      (g : Settings W) (i : Instrument W) (equity : W) (e : Event W) (d : Direction)
      (before at_decision : W) (vol : Option W)
      → IsFor g e (plan_at g i equity e d before at_decision vol)
  unfolding plan_at terms
  plan_at-IsFor g i equity e d before at_decision vol =
      elim (Bool-cases (net_alpha g i e d before at_decision <? g.min_net_alpha_pct)) [
        | inl low ↦ rw (low, plan_at) tt
        | inr enough ↦ elim (Bool-cases (divides_by_zero g i d at_decision vol)) [
          | inl zero_divisor ↦ rw (enough, plan_at) (rw (zero_divisor, plan_at) tt)
          | inr sound ↦ rw (enough, plan_at) (rw (sound, plan_at) (refl, refl))
        ]
      ]

  pub plan_from-IsFor :
      (g : Settings W) (i : Instrument W) (equity : W) (e : Event W) (d : Direction)
      (before at_decision vol : Option W)
      → IsFor g e (plan_from g i equity e d before at_decision vol)
  unfolding plan_from
  plan_from-IsFor g i equity e d before at_decision vol =
      elim (Bool-cases (is_missing before || is_missing at_decision)) [
        | inl missing ↦ rw (missing, plan_from) tt
        | inr known ↦
            rw (known, plan_from)
              (plan_at-IsFor g i equity e d (price_or before) (price_or at_decision) vol)
      ]

module _ {W : Type 0} ⦃F : Float W⦄ (L : IsFloat W) where
  exit_at-late : (p : Plan W) (u mid : W) → p.deadline ≺ u → exit_at p u mid none ≡ none
  unfolding exit_at
  exit_at-late p u mid h = ground arith

  -- No exit comes from points that are all after the deadline.
  first_exit-late :
      (end : W) (p : Plan W) (s : Series W)
      → p.deadline ≼ end
      → All (λ q. end ≺ q.0) s
      → first_exit p s ≡ none
  unfolding first_exit
  first_exit-late end p [] h k = refl
  first_exit-late end p ((u, mid) ∷ s) h (k, ks) =
      ap (exit_at p u mid) (first_exit-late end p s h ks)
      ∙ exit_at-late p u mid (ground (arith, L.le_trans u p.deadline end))

  All-late : (end u : W) (s : Series W) → end ≺ u → All (λ q. u ≼ q.0) s → All (λ q. end ≺ q.0) s
  All-late end u [] h k = tt
  All-late end u (q ∷ s) h (k, ks) = (ground (arith, L.le_trans u q.0 end), All-late end u s h ks)

  first_exit-up_to :
      (end : W) (p : Plan W) (s : Series W)
      → p.deadline ≼ end
      → IsSorted is_earlier s
      → first_exit p (up_to end s) ≡ first_exit p s
  unfolding first_exit
  first_exit-up_to end p [] h k = refl
  first_exit-up_to end p ((u, mid) ∷ s) h (k, ks) = elim (Bool-cases (u ≤? end)) [
    | inl early ↦
        ap (first_exit p) (select-yes (λ q. q.0 ≤? end) (u, mid) s early)
        ∙ ap (exit_at p u mid) (first_exit-up_to end p s h ks)
    | inr late ↦
        ap (first_exit p)
          (select-no (λ q. q.0 ≤? end) (u, mid) s late ∙ up_to-late L u end s late k)
        ∙ sym (first_exit-late end p ((u, mid) ∷ s) h (late, All-late end u s late k))
  ]

  -- The decision on an event, with its entry, its size and its levels, depends only on the prices by
  -- the time of the decision.
  pub plan-up_to :
      (ln : W → W) (g : Settings W) (i : Instrument W) (equity end : W) (e : Event W)
      (d : Direction) (s : Series W)
      → nought ≼ g.decision_delay_s
      → e.ts ⊕ g.decision_delay_s ≼ end
      → plan ln g i equity e d (up_to end s) ≡ plan ln g i equity e d s
  unfolding plan
  plan-up_to ln g i equity end e d s h k =
      let decision_ts = e.ts ⊕ g.decision_delay_s in
      let start =
        L.le_trans (e.ts ⊖ one) e.ts end (sub-le L e.ts one (nought-le-one L))
          (L.le_trans e.ts decision_ts end (le-add_right L e.ts g.decision_delay_s h) k) in
      ap
        (λ b.
          plan_from g i equity e d b (price_at_or_before (up_to end s) decision_ts)
            (realized_volatility ln (F.lit 3600 0) decision_ts (up_to end s)))
        (price_at_or_before-up_to L (e.ts ⊖ one) end s start)
      ∙ ap
          (λ b.
            plan_from g i equity e d (price_at_or_before s (e.ts ⊖ one)) b
              (realized_volatility ln (F.lit 3600 0) decision_ts (up_to end s)))
          (price_at_or_before-up_to L decision_ts end s k)
      ∙ ap
          (plan_from g i equity e d (price_at_or_before s (e.ts ⊖ one))
            (price_at_or_before s decision_ts))
          (realized_volatility-up_to L ln (F.lit 3600 0) decision_ts end s k)

  pub exit_of-up_to :
      (end : W) (p : Plan W) (s : Series W)
      → p.deadline ≼ end
      → IsSorted is_earlier s
      → exit_of p (up_to end s) ≡ exit_of p s
  unfolding exit_of
  exit_of-up_to end p s h k =
      ap (λ o. exit_or p o (first_exit p (up_to end s)))
        (price_at_or_before-up_to L p.deadline end s h)
      ∙ ap (exit_or p (price_at_or_before s p.deadline)) (first_exit-up_to end p s h k)

  with_plan-up_to :
      (g : Settings W) (i : Instrument W) (e : Event W) (end : W) (s : Series W)
      (step : Step (Plan W))
      → IsFor g e step
      → deadline_of g e ≼ end
      → IsSorted is_earlier s
      → with_plan i e (up_to end s) step ≡ with_plan i e s step
  unfolding with_plan
  with_plan-up_to g i e end s (skip why) h k sorted = refl
  with_plan-up_to g i e end s failed h k sorted = refl
  with_plan-up_to g i e end s (next p) h k sorted =
      ap (with_exit i e p) (exit_of-up_to end p s (subst (λ x. x ≼ end) (sym h.1) k) sorted)

  -- An event whose deadline is at most `end`.
  abbrev pub IsDue : W → Settings W → Event W → Type 0
  IsDue end g e = deadline_of g e ≼ end

  event_trade-up_to :
      (ln : W → W) (g : Settings W) (i : Instrument W) (equity end : W) (e : Event W) (s : Series W)
      (d : Direction)
      → nought ≼ g.decision_delay_s
      → nought ≼ g.holding_s
      → IsDue end g e
      → IsSorted is_earlier s
      → event_trade ln g i equity e (up_to end s) d ≡ event_trade ln g i equity e s d
  unfolding event_trade plan
  event_trade-up_to ln g i equity end e s d h k due sorted =
      let decision_ts = e.ts ⊕ g.decision_delay_s in
      let decided =
        L.le_trans decision_ts (deadline_of g e) end (le-add_right L decision_ts g.holding_s k)
          due in
      ap (with_plan i e (up_to end s)) (plan-up_to ln g i equity end e d s h decided)
      ∙ with_plan-up_to g i e end s (plan ln g i equity e d s)
          (plan_from-IsFor g i equity e d (price_at_or_before s (e.ts ⊖ one))
            (price_at_or_before s decision_ts)
            (realized_volatility ln (F.lit 3600 0) decision_ts s))
          due sorted

  directed-up_to :
      (ln : W → W) (g : Settings W) (i : Instrument W) (equity end : W) (e : Event W) (s : Series W)
      (d : Option Direction)
      → nought ≼ g.decision_delay_s
      → nought ≼ g.holding_s
      → IsDue end g e
      → IsSorted is_earlier s
      → directed ln g i equity e (up_to end s) d ≡ directed ln g i equity e s d
  unfolding directed
  directed-up_to ln g i equity end e s none h k due sorted = refl
  directed-up_to ln g i equity end e s (some d) h k due sorted =
      ap some (event_trade-up_to ln g i equity end e s d h k due sorted)

  with_data-up_to :
      (ln : W → W) (g : Settings W) (equity end : W) (e : Event W) (o : Option (Series W))
      (i : Option (Instrument W))
      → nought ≼ g.decision_delay_s
      → nought ≼ g.holding_s
      → IsDue end g e
      → ((s : Series W) → o ≡ some s → IsBegun end s)
      → with_data ln g equity e (cut_of end o) i ≡ with_data ln g equity e o i
  unfolding with_data
  with_data-up_to ln g equity end e none i h k due begun = refl
  with_data-up_to ln g equity end e (some []) i h k due begun = refl
  with_data-up_to ln g equity end e (some (p ∷ s)) none h k due begun =
      ap (λ x. with_data ln g equity e (some x) none)
        (select-yes (λ q. q.0 ≤? end) p s (begun (p ∷ s) refl).0)
  with_data-up_to ln g equity end e (some (p ∷ s)) (some i) h k due begun =
      let (early, sorted) = begun (p ∷ s) refl in
      let cut = select-yes (λ q. q.0 ≤? end) p s early in
      ap (λ x. with_data ln g equity e (some x) (some i)) cut
      ∙ ap (λ x. directed ln g i equity e x (parse_direction e.direction)) (sym cut)
      ∙ directed-up_to ln g i equity end e (p ∷ s) (parse_direction e.direction) h k due sorted

  unless_raised-same :
      (o : Option (Step (BacktestTrade W))) (f g : Step (BacktestTrade W) → Option (Replay W))
      → ((s : Step (BacktestTrade W)) → f s ≡ g s)
      → unless_raised o f ≡ unless_raised o g
  unless_raised-same none f g h = refl
  unless_raised-same (some (skip why)) f g h = h (skip why)
  unless_raised-same (some failed) f g h = refl
  unless_raised-same (some (next t)) f g h = h (next t)

  replay-truncated :
      (ln : W → W) (g : Settings W) (end : W) (d : Dict Text (Series W))
      (instruments : Dict Text (Instrument W)) (r : Replay W) (events : List (Event W))
      → nought ≼ g.decision_delay_s
      → nought ≼ g.holding_s
      → AllBegun end d
      → All (IsDue end g) events
      → replay ln g (truncated end d) instruments r events ≡ replay ln g d instruments r events
  unfolding replay
  replay-truncated ln g end d instruments r [] h k begun due = refl
  replay-truncated ln g end d instruments r (e ∷ events) h k begun (now, due) =
      let i = lookup e.epic instruments in
      let o = with_data ln g r.equity e (lookup e.epic d) i in
      let same =
        ap (λ x. with_data ln g r.equity e x i) (lookup-truncated end e.epic d)
        ∙ with_data-up_to ln g r.equity end e (lookup e.epic d) i h k now
            (λ s q. lookup-All (IsBegun end) e.epic d s begun q) in
      ap
        (λ x.
          unless_raised x (λ s. replay ln g (truncated end d) instruments (add_step r s) events))
        same
      ∙ unless_raised-same o (λ s. replay ln g (truncated end d) instruments (add_step r s) events)
          (λ s. replay ln g d instruments (add_step r s) events)
          (λ s. replay-truncated ln g end d instruments (add_step r s) events h k begun due)

  -- Where every deadline is at most `end`, and each series is in the order of its times
  -- and has begun by then or is empty, prices after `end` change nothing in the replay: neither the
  -- trades nor the events that are skipped, nor whether a direction is refused.
  pub simulate_event_trades-truncated :
      (ln : W → W) (g : Settings W) (events : List (Event W)) (end : W) (d : Dict Text (Series W))
      (instruments : Dict Text (Instrument W)) (equity : W)
      → nought ≼ g.decision_delay_s
      → nought ≼ g.holding_s
      → AllBegun end d
      → All (IsDue end g) events
      → simulate_event_trades ln g events (truncated end d) instruments equity
        ≡ simulate_event_trades ln g events d instruments equity
  unfolding simulate_event_trades
  simulate_event_trades-truncated ln g events end d instruments equity =
      replay-truncated ln g end d instruments
        (record {
          result = record { trades = []; skipped = []; equity_start = equity };
          equity = equity;
        })
        events
