-- ===== src/Risk/Margin/Laws.antt =====
-- What a margin stress test that passes guarantees.
use sibilla.Base.{List, [], ◌∷◌, map, all-append, true, ◌≡◌, arith, Bool-cases, inl, inr}
use sibilla.Float.{Float, IsFloat, ◌⊕◌, ◌⊖◌, ◌⊗◌, ◌⊘◌, ◌≤?◌, ◌≼◌, ◌≺◌, nought, one}
use sibilla.Float.Laws.{neg-nought}
use sibilla.Config.{RiskLimits}
use sibilla.Risk.Margin.{
  StressRequest, stressed_ratio, scenarios, stress_passes, usage_after, free_ratio_after,
  margin_after,
}

module _ {W : Type 0} ⦃F : Float W⦄ (L : IsFloat W) where
  pub neg_one-lt : F.neg (F.lit 1 0) ≺ F.lit 0 0
  neg_one-lt =
      ground (arith, L.neg_anti nought (F.neg one), L.neg_neg one, neg-nought L, L.nought-lt-one)

  -- A ratio that is not negative comes from an equity that is positive.
  stressed_ratio-pos : (m eq floor : W) → nought ≼ floor → floor ≼ stressed_ratio m eq → nought ≺ eq
  stressed_ratio-pos m eq floor h k = elim (Bool-cases (eq ≤? nought)) [
    | inl lost ↦ absurd (ground (arith, neg_one-lt, L.le_trans nought floor (F.neg one) h))
    | inr kept ↦ kept
  ]

  -- If the stress limit is not negative, a test that passes keeps the margin usage and the free
  -- margin within the limits, and leaves equity on the account when the new trade and every
  -- correlated position, or every open position, hit their stops together; in each of the two cases
  -- the free margin ratio is at least the stress limit.
  pub stress_passes-survives :
      (limits : RiskLimits W) (r : StressRequest W)
      → nought ≼ limits.stress_min_free_margin
      → stress_passes limits r ≡ true
      → let correlated = r.account.equity ⊖ (r.new_risk_eur ⊕ r.correlated_risk_eur) in
        let stopped = r.account.equity ⊖ (r.new_risk_eur ⊕ r.open_risk_eur) in
        (usage_after r ≼ limits.max_margin_usage)
        × (limits.min_free_margin ≼ free_ratio_after r)
        × (nought ≺ correlated)
        × (nought ≺ stopped)
        × (limits.stress_min_free_margin ≼ (correlated ⊖ margin_after r) ⊘ correlated)
        × (limits.stress_min_free_margin ≼ (stopped ⊖ margin_after r) ⊘ stopped)
  unfolding stress_passes scenarios
  stress_passes-survives limits r h pass =
      let floor = limits.stress_min_free_margin in
      let correlated = r.account.equity ⊖ (r.new_risk_eur ⊕ r.correlated_risk_eur) in
      let stopped = r.account.equity ⊖ (r.new_risk_eur ⊕ r.open_risk_eur) in
      let m = margin_after r in
      let rest : List W = stressed_ratio m correlated ∷ stressed_ratio m stopped ∷ [] in
      let single : List W =
        map (λ x. stressed_ratio m (r.account.equity ⊖ r.new_risk_eur ⊗ x))
          limits.stress_scenarios_r in
      let split = all-append (λ ratio. floor ≤? ratio) single rest in
      ground (
        arith,
        split,
        stressed_ratio-pos m correlated floor h,
        stressed_ratio-pos m stopped floor h,
      )
