-- ===== src/Etoro/Runner/Pairs/Legs.antt =====
-- What the pairs phase posts in one cycle.
use sibilla.Base.{
  ℕ, Text, text, digits, ◌++◌, Dict, Among, List, [], ◌∷◌, Option, none, some, Bool, Bool-cases,
  inl, inr, true, false, ◌&&◌, lookup, nat_key, ◌≡◌, refl, subst, take, arith,
}
use sibilla.Float.{Float, ◌⊗◌, one}
use sibilla.Etoro.Legs.{build_leg_proposal, leg_entry_price, leg_stop_and_target}
use sibilla.Enums.Market.{Direction}
use sibilla.Schemas.Market.{Quote}
use sibilla.Schemas.Trade.{TradeProposal}
use sibilla.Risk.Engine.Context.{PortfolioContext}
use sibilla.Risk.Engine.{evaluate}
use sibilla.Etoro.Proposal.{size_from_decision}
use sibilla.Etoro.Gateway.{Payload, payload_of, transaction_of}
use sibilla.Etoro.Screener.{PairSignal}
use sibilla.Etoro.Runner.{Outside, Moment, Runner, send, is_positive}
use sibilla.Etoro.Runner.Pairs.{
  PairProgress, Turn, proposal_a, proposal_b, leg_payload, send_legs, decided, proposed,
  with_quotes, pair_step, pairs_from, run_pairs_phase, max_pairs_tried_per_cycle,
}

and_left : (a b : Bool) → (a && b) ≡ true → a ≡ true
and_left a b h = ground arith

and_right : (a b : Bool) → (a && b) ≡ true → b ≡ true
and_right a b h = ground arith

module _ {W : Type 0} where
  abbrev pub label_of : PairSignal W → Text
  label_of s = text "pair-" ++ (digits s.instrument_a_id ++ (text "-" ++ digits s.instrument_b_id))

module _ {W : Type 0} ⦃F : Float W⦄ where
  -- An order for one side of a pair: the engine, at that moment and in the context of the cycle, approved
  -- the proposal that is built for the instrument, its side and its own quote, with a hundredth of the
  -- equity at risk; the size of that decision gives the units, and the quote the stop and the target.
  pub record IsLeg (c : PortfolioContext W) (m : Moment W) (quotes : Dict ℕ (Quote W)) (id : ℕ)
      (name label : Text) (d : Direction) (x : Payload W) : Type 0 where
    pub quote : Quote W
    pub proposal : TradeProposal W
    pub quoted : lookup id quotes ≡ some quote
    pub built :
        build_leg_proposal id name d quote label (some (c.account.equity ⊗ F.lit 1 2))
        ≡ some proposal
    pub approved : (evaluate m.engine m.now proposal c one).approved ≡ true
    pub units_eq : x.units ≡ size_from_decision (evaluate m.engine m.now proposal c one)
    pub units_positive : is_positive x.units ≡ true
    pub id_eq : x.instrument_id ≡ id
    pub side_eq : x.transaction ≡ transaction_of d
    pub stop_eq : x.stop_loss_rate ≡ (leg_stop_and_target d (leg_entry_price d quote)).0
    pub target_eq : x.take_profit_rate ≡ (leg_stop_and_target d (leg_entry_price d quote)).1

  -- The two sides of the signal of a turn.
  abbrev pub IsLegA : PortfolioContext W → Turn W → Payload W → Type 0
  IsLegA c t x =
      IsLeg c t.at_a t.quotes t.sig.instrument_a_id t.sig.instrument_a_name (label_of t.sig)
        t.sig.direction_a x

  abbrev pub IsLegB : PortfolioContext W → Turn W → Payload W → Type 0
  IsLegB c t x =
      IsLeg c t.at_b t.quotes t.sig.instrument_b_id t.sig.instrument_b_name (label_of t.sig)
        t.sig.direction_b x

  -- The orders after the phase over those turns: none more, both legs of the signal of one turn, or,
  -- where the first one's post raised, that one alone.
  pub data Posted (c : PortfolioContext W) (ts : List (Turn W)) (before : List (Payload W))
      : Bool → List (Payload W) → Type 0 where
    nothing : {raised : Bool} → Posted c ts before raised before
    first_leg :
        {a : Payload W} (t : Turn W)
        → Among t ts
        → IsLegA c t a
        → Posted c ts before true (a ∷ before)
    both_legs :
        {raised : Bool} {a b : Payload W} (t : Turn W)
        → Among t ts
        → IsLegA c t a
        → IsLegB c t b
        → Posted c ts before raised (b ∷ (a ∷ before))

  later_turn :
      (c : PortfolioContext W) (t : Turn W) (ts : List (Turn W)) (before after : List (Payload W))
      (raised : Bool)
      → Posted c ts before raised after
      → Posted c (t ∷ ts) before raised after
  later_turn c t ts before after raised nothing = nothing
  later_turn c t ts before after raised (first_leg u m a) = first_leg u (inr m) a
  later_turn c t ts before after raised (both_legs u m a b) = both_legs u (inr m) a b

  -- A pair that neither raised nor was opened posted nothing.
  abbrev PostedBy : PortfolioContext W → Turn W → Runner W → PairProgress W → Type 0
  PostedBy c t r p =
      Posted c (t ∷ []) r.orders p.raised p.runner.orders
      × (p.raised ≡ false → p.opened ≡ false → p.runner.orders ≡ r.orders)

  send_legs-PostedBy :
      (o : Outside W) (c : PortfolioContext W) (t : Turn W) (a b : Payload W) (r : Runner W)
      → IsLegA c t a
      → IsLegB c t b
      → PostedBy c t r (send_legs o a b r)
  unfolding send_legs send
  send_legs-PostedBy o c t a b r leg_a leg_b = elim (Bool-cases (send o a r).raised) [
    | inl stopped ↦ rw (stopped, send_legs) (first_leg t (inl refl) leg_a, λ h k. ground arith)
    | inr sent ↦ rw (sent, send_legs) (both_legs t (inl refl) leg_a leg_b, λ h k. ground arith)
  ]

  leg_payload-IsLeg :
      (c : PortfolioContext W) (t : Moment W) (quotes : Dict ℕ (Quote W)) (p : TradeProposal W)
      (id : ℕ) (name label : Text) (d : Direction) (q : Quote W)
      → lookup id quotes ≡ some q
      → build_leg_proposal id name d q label (some (c.account.equity ⊗ F.lit 1 2)) ≡ some p
      → (evaluate t.engine t.now p c one).approved ≡ true
      → is_positive (size_from_decision (evaluate t.engine t.now p c one)) ≡ true
      → IsLeg c t quotes id name label d
          (leg_payload id d q (size_from_decision (evaluate t.engine t.now p c one)))
  unfolding leg_payload payload_of
  leg_payload-IsLeg c t quotes p id name label d q l b a u = record {
    quote = q;
    proposal = p;
    quoted = l;
    built = b;
    approved = a;
    units_eq = refl;
    units_positive = u;
    id_eq = refl;
    side_eq = refl;
    stop_eq = refl;
    target_eq = refl;
  }

  proposed-PostedBy :
      (o : Outside W) (c : PortfolioContext W) (t : Turn W) (qa qb : Quote W)
      (pa pb : Option (TradeProposal W)) (r : Runner W)
      → lookup t.sig.instrument_a_id t.quotes ≡ some qa
      → lookup t.sig.instrument_b_id t.quotes ≡ some qb
      → proposal_a c t.sig qa ≡ pa
      → proposal_b c t.sig qb ≡ pb
      → PostedBy c t r (proposed o c t.at_a t.at_b t.sig qa qb pa pb r)
  unfolding proposed decided
  proposed-PostedBy o c t qa qb none pb r la lb ba bb = (nothing, λ h k. refl)
  proposed-PostedBy o c t qa qb (some pa) none r la lb ba bb = (nothing, λ h k. refl)
  proposed-PostedBy o c t qa qb (some pa) (some pb) r la lb ba bb =
      let s = t.sig in
      let da = evaluate t.at_a.engine t.at_a.now pa c one in
      let db = evaluate t.at_b.engine t.at_b.now pb c one in
      let ua = is_positive (size_from_decision da) in
      let ub = is_positive (size_from_decision db) in
      elim (Bool-cases (da.approved && db.approved)) [
        | inr refused ↦ rw (refused, decided) (nothing, λ h k. refl)
        | inl a ↦ elim (Bool-cases (ua && ub)) [
          | inr too_small ↦ rw (a, decided) (rw (too_small, decided) (nothing, λ h k. refl))
          | inl u ↦
              rw (a, decided)
                (rw (u, decided)
                  (send_legs-PostedBy o c t
                    (leg_payload s.instrument_a_id s.direction_a qa (size_from_decision da))
                    (leg_payload s.instrument_b_id s.direction_b qb (size_from_decision db)) r
                    (leg_payload-IsLeg c t.at_a t.quotes pa s.instrument_a_id s.instrument_a_name
                      (label_of s) s.direction_a qa la ba (and_left da.approved db.approved a)
                      (and_left ua ub u))
                    (leg_payload-IsLeg c t.at_b t.quotes pb s.instrument_b_id s.instrument_b_name
                      (label_of s) s.direction_b qb lb bb (and_right da.approved db.approved a)
                      (and_right ua ub u))))
        ]
      ]

  with_quotes-PostedBy :
      (o : Outside W) (c : PortfolioContext W) (t : Turn W) (qa qb : Option (Quote W))
      (r : Runner W)
      → lookup t.sig.instrument_a_id t.quotes ≡ qa
      → lookup t.sig.instrument_b_id t.quotes ≡ qb
      → PostedBy c t r (with_quotes o c t.at_a t.at_b t.sig qa qb r)
  unfolding with_quotes
  with_quotes-PostedBy o c t none qb r la lb = (nothing, λ h k. refl)
  with_quotes-PostedBy o c t (some qa) none r la lb = (nothing, λ h k. refl)
  with_quotes-PostedBy o c t (some qa) (some qb) r la lb =
      proposed-PostedBy o c t qa qb (proposal_a c t.sig qa) (proposal_b c t.sig qb) r la lb refl
        refl

  own_turn :
      (c : PortfolioContext W) (t : Turn W) (ts : List (Turn W)) (before after : List (Payload W))
      (raised : Bool)
      → Posted c (t ∷ []) before raised after
      → Posted c (t ∷ ts) before raised after
  own_turn c t ts before after raised nothing = nothing
  own_turn c t ts before after raised (first_leg u (inl e) a) = first_leg u (inl e) a
  own_turn c t ts before after raised (first_leg u (inr m) a) = absurd m
  own_turn c t ts before after raised (both_legs u (inl e) a b) = both_legs u (inl e) a b
  own_turn c t ts before after raised (both_legs u (inr m) a b) = absurd m

  pairs_from-Posted :
      (o : Outside W) (c : PortfolioContext W) (ts : List (Turn W)) (r : Runner W)
      → Posted c ts r.orders (pairs_from o c ts r).raised (pairs_from o c ts r).runner.orders
  unfolding pairs_from pair_step
  pairs_from-Posted o c [] r = nothing
  pairs_from-Posted o c (t ∷ ts) r =
      let p = pair_step o c t r in
      let (posted, idle) =
        with_quotes-PostedBy o c t (lookup t.sig.instrument_a_id t.quotes)
          (lookup t.sig.instrument_b_id t.quotes) r refl refl in
      let here = own_turn c t ts r.orders p.runner.orders p.raised posted in
      elim (Bool-cases p.raised) [
        | inl stopped ↦
            rw (stopped, pairs_from)
              (subst (λ x. Posted c (t ∷ ts) r.orders x p.runner.orders) stopped here)
        | inr ongoing ↦ elim (Bool-cases p.opened) [
          | inl opened ↦
              rw (ongoing, pairs_from)
                (rw (opened, pairs_from)
                  (subst (λ x. Posted c (t ∷ ts) r.orders x p.runner.orders) ongoing here))
          | inr skipped ↦
              let rest = pairs_from o c ts p.runner in
              rw (ongoing, pairs_from)
                (rw (skipped, pairs_from)
                  (later_turn c t ts r.orders rest.runner.orders rest.raised (
                    subst (λ xs. Posted c ts xs rest.raised rest.runner.orders)
                      (idle ongoing skipped) (pairs_from-Posted o c ts p.runner))))
        ]
      ]

  -- In one cycle the pairs phase posts at most one pair, of one of the first five signals: nothing,
  -- both of its legs, or the first leg alone, and that only where its post raised, which ends the
  -- cycle. Each leg is an order on its own instrument and side, with the stop and the target of its
  -- own quote and at least one unit, and the engine approved its size for the proposal that is built
  -- from these, at the moment of the leg and in the context of the cycle.
  pub run_pairs_phase-Posted :
      (o : Outside W) (c : PortfolioContext W) (ts : List (Turn W)) (r : Runner W)
      → Posted c
          (take 5 ts)
          r.orders
          (run_pairs_phase o c ts r).raised
          (run_pairs_phase o c ts r).runner.orders
  unfolding run_pairs_phase
  run_pairs_phase-Posted o c ts r = pairs_from-Posted o c (take max_pairs_tried_per_cycle ts) r
