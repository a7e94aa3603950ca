-- ===== src/Risk/Engine/Funded.antt =====
-- What an approved order of src/risk/engine.py leaves of the account.
use sibilla.Base.{
  List, if◌then◌else◌, [], ◌∷◌, ◌++◌, map, All, Bool-cases, inl, inr, true, ok, ◌≡◌, refl, sym, ◌∙◌,
  subst, arith,
}
use sibilla.Base.Int.{negsuc}
use sibilla.Float.{Float, ◌<?◌, IsFloat, ◌⊕◌, ◌⊖◌, ◌⊗◌, ◌⊘◌, ◌≼◌, ◌≺◌, nought, one, fmin}
use sibilla.Float.Laws.{fmin-le_left, fmin-le_right}
use sibilla.Market.Registry.{fsum, fsum_from}
use sibilla.Pricing.{effective_leverage}
use sibilla.Config.{RiskLimits}
use sibilla.Schemas.Trade.{TradeProposal}
use sibilla.Risk.Correlation.{OpenExposure, build_exposure}
use sibilla.Risk.Correlation.Totals.{build_exposure-totals}
use sibilla.Risk.Margin.{
  StressRequest, stressed_ratio, scenarios, usage_after, free_ratio_after, margin_stress_test,
}
use sibilla.Risk.Margin.Laws.{neg_one-lt}
use sibilla.Risk.Sizing.{SizingResult, compute_size}
use sibilla.Risk.Engine.Context.{
  RiskEngine, PortfolioContext, all_passed, open_risk_eur, least_from, least_or_one,
}
use sibilla.Risk.Engine.Exposure.{
  exposure_checks, margin_checks, stress_of, leverage_within, corr_risk, new_exposure,
}
use sibilla.Risk.Engine.{sizing_request, evaluate}
use sibilla.Risk.Engine.Decision.{approval}
use sibilla.Risk.Engine.Approved.{checks_after-split}

module _ {W : Type 0} ⦃F : Float W⦄ where
  -- The equity that `loss` leaves is positive, and its share that `margin` leaves free is, to four
  -- places, at least `floor`.
  abbrev pub Survives : W → W → W → W → Type 0
  Survives floor equity margin loss =
      (nought ≺ equity ⊖ loss) × (floor ≼ F.round 4 (((equity ⊖ loss) ⊖ margin) ⊘ (equity ⊖ loss)))

  -- The account once a position of that notional, margin and risk is open besides those that are.
  pub record IsFunded (e : RiskEngine W) (p : TradeProposal W) (c : PortfolioContext W)
      (s : SizingResult W) : Type 0 where
    pub equity_positive : nought ≺ c.account.equity
    pub leverage :
        (fsum (map (λ o. o.notional) c.open_positions) ⊕ s.notional) ⊘ c.account.equity
        ≼ e.limits.max_effective_leverage
    pub usage :
        (c.account.margin_used ⊕ s.margin_required) ⊘ c.account.equity ≼ e.limits.max_margin_usage
    pub free :
        e.limits.min_free_margin
        ≼ (c.account.equity ⊖ (c.account.margin_used ⊕ s.margin_required)) ⊘ c.account.equity
    pub correlated :
        Survives e.limits.stress_min_free_margin c.account.equity
          (c.account.margin_used ⊕ s.margin_required)
          (s.risk_eur ⊕ corr_risk e p c)
    pub stopped :
        Survives e.limits.stress_min_free_margin c.account.equity
          (c.account.margin_used ⊕ s.margin_required)
          (s.risk_eur ⊕ fsum (map (λ o. o.risk_eur) c.open_positions))

  fsum_from-last :
      (acc : W) (os : List (OpenExposure W)) (o : OpenExposure W)
      → fsum_from acc (map (λ x. x.notional) (os ++ (o ∷ [])))
        ≡ fsum_from acc (map (λ x. x.notional) os) ⊕ o.notional
  fsum_from-last acc [] o = refl
  fsum_from-last acc (x ∷ os) o = fsum_from-last (acc ⊕ x.notional) os o

  leverage_lem :
      (limit total equity : W)
      → leverage_within limit (effective_leverage total equity) ≡ true
      → (nought ≺ equity) × (total ⊘ equity ≼ limit)
  unfolding effective_leverage
  leverage_lem limit total equity h = ground arith

module _ {W : Type 0} ⦃F : Float W⦄ (L : IsFloat W) where
  least_from-All :
      (floor x : W) (xs : List W) → floor ≼ least_from x xs → All (λ y. floor ≼ y) (x ∷ xs)
  least_from-All floor x [] h = (h, tt)
  least_from-All floor x (y ∷ ys) h =
      let (first, rest) = least_from-All floor (fmin x y) ys h in
      (
        L.le_trans floor (fmin x y) x first (fmin-le_left L x y),
        (L.le_trans floor (fmin x y) y first (fmin-le_right L x y), rest),
      )

  least_or_one-All : (floor : W) (xs : List W) → floor ≼ least_or_one xs → All (λ y. floor ≼ y) xs
  least_or_one-All floor [] h = tt
  least_or_one-All floor (x ∷ xs) h = least_from-All floor x xs h

  last_two :
      (floor a b : W) (xs : List W)
      → All (λ y. floor ≼ y) (map (λ v. F.round 4 v) (xs ++ (a ∷ (b ∷ []))))
      → (floor ≼ F.round 4 a) × (floor ≼ F.round 4 b)
  last_two floor a b [] (first, (second, _)) = (first, second)
  last_two floor a b (x ∷ xs) (_, h) = last_two floor a b xs h

  ratio-Survives :
      (floor equity margin loss : W)
      → nought ≼ floor
      → floor ≼ F.round 4 (stressed_ratio margin (equity ⊖ loss))
      → Survives floor equity margin loss
  ratio-Survives floor equity margin loss h k = elim (Bool-cases (nought <? (equity ⊖ loss))) [
    | inl kept ↦ (ground arith, rw (kept, stressed_ratio) at k)
    | inr lost ↦
        let sunk : F.round 4 (F.neg one) ≡ F.neg one =
          subst (λ t. F.round 4 t ≡ t) L.of_int-neg_one (L.round-of_int 4 (negsuc 0)) in
        let below : floor ≼ F.neg one =
          subst (λ t. floor ≼ t) sunk
            (subst
              (λ b.
                floor
                ≼ F.round 4 (if b then ((equity ⊖ loss) ⊖ margin) ⊘ (equity ⊖ loss) else F.neg one))
              lost k) in
        absurd (ground (arith, neg_one-lt L, L.le_trans nought floor (F.neg one) h below))
  ]

  stress-Survives :
      (limits : RiskLimits W) (r : StressRequest W)
      → nought ≼ limits.stress_min_free_margin
      → limits.stress_min_free_margin ≼ least_or_one (margin_stress_test limits r).scenarios
      → Survives limits.stress_min_free_margin r.account.equity
          (r.account.margin_used ⊕ r.new_margin)
          (r.new_risk_eur ⊕ r.correlated_risk_eur)
        × Survives limits.stress_min_free_margin r.account.equity
            (r.account.margin_used ⊕ r.new_margin)
            (r.new_risk_eur ⊕ r.open_risk_eur)
  unfolding margin_stress_test scenarios
  stress-Survives limits r h k =
      let floor = limits.stress_min_free_margin in
      let margin = r.account.margin_used ⊕ r.new_margin in
      let equity = r.account.equity in
      let correlated = r.new_risk_eur ⊕ r.correlated_risk_eur in
      let stopped = r.new_risk_eur ⊕ r.open_risk_eur in
      let (c, s) =
        last_two floor (stressed_ratio margin (equity ⊖ correlated))
          (stressed_ratio margin (equity ⊖ stopped))
          (map (λ x. stressed_ratio margin (equity ⊖ r.new_risk_eur ⊗ x)) limits.stress_scenarios_r)
          (least_or_one-All floor (margin_stress_test limits r).scenarios k) in
      (
        ratio-Survives floor equity margin correlated h c,
        ratio-Survives floor equity margin stopped h s,
      )

  usage_lem :
      (r : StressRequest W)
      → nought ≺ r.account.equity
      → (usage_after r ≡ (r.account.margin_used ⊕ r.new_margin) ⊘ r.account.equity)
        × (free_ratio_after r
            ≡ (r.account.equity ⊖ (r.account.margin_used ⊕ r.new_margin)) ⊘ r.account.equity)
  unfolding usage_after free_ratio_after
  usage_lem r h = (rw (h) refl, rw (h) refl)

  checks-IsFunded :
      (e : RiskEngine W) (p : TradeProposal W) (s : SizingResult W) (c : PortfolioContext W)
      → nought ≼ e.limits.stress_min_free_margin
      → all_passed (exposure_checks e.limits p s c) ≡ true
      → all_passed (margin_checks e.limits (stress_of e p s c)) ≡ true
      → IsFunded e p c s
  unfolding exposure_checks margin_checks stress_of margin_stress_test open_risk_eur
  checks-IsFunded e p s c floor h k =
      let r : StressRequest W = record {
        account = c.account;
        new_margin = s.margin_required;
        new_risk_eur = s.risk_eur;
        open_risk_eur = open_risk_eur c;
        correlated_risk_eur = corr_risk e p c;
      } in
      let total = (build_exposure (c.open_positions ++ (new_exposure p s ∷ []))).total_notional in
      let sum : total ≡ fsum (map (λ o. o.notional) c.open_positions) ⊕ s.notional =
        (build_exposure-totals p.epic (c.open_positions ++ (new_exposure p s ∷ []))).3
        ∙ fsum_from-last nought c.open_positions (new_exposure p s) in
      let (positive, leverage) =
        leverage_lem e.limits.max_effective_leverage total c.account.equity (ground arith) in
      let (used, free) = usage_lem r positive in
      let (correlated, stopped) = stress-Survives e.limits r floor (ground arith) in
      record {
        equity_positive = positive;
        leverage = subst (λ t. t ⊘ c.account.equity ≼ e.limits.max_effective_leverage) sum leverage;
        usage = subst (λ t. t ≼ e.limits.max_margin_usage) used (ground arith);
        free = subst (λ t. e.limits.min_free_margin ≼ t) free (ground arith);
        correlated = correlated;
        stopped = stopped;
      }

  -- An approved proposal leaves the account so, once it is open with the notional, the margin and the
  -- risk of the size that was decided: the equity is positive; all notionals over it stay within the
  -- largest leverage; the margin used stays within the limit and the free one over its floor; and
  -- when the new trade hits its stop together with the correlated risk, or with all open positions,
  -- equity is left, of which the free share is, to four places, at least the stress limit. The
  -- stress limit is not negative.
  pub evaluate-IsFunded :
      (e : RiskEngine W) (now : W) (p : TradeProposal W) (c : PortfolioContext W) (fx : W)
      → nought ≼ e.limits.stress_min_free_margin
      → (evaluate e now p c fx).approved ≡ true
      → (s : SizingResult W) × (compute_size e.limits (sizing_request p c.account.equity fx) ≡ ok s)
        × (s.size ≡ (evaluate e now p c fx).size)
        × IsFunded e p c s
  evaluate-IsFunded e now p c fx floor h =
      let a = approval e now p c fx h in
      let (sizes, risks, exposures, margins) = checks_after-split e p c a.sizing a.after in
      (a.sizing, a.sized, sym a.size_eq, checks-IsFunded e p a.sizing c floor exposures margins)
