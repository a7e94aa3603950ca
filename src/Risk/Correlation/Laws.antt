-- ===== src/Risk/Correlation/Laws.antt =====
-- The correlated risk is a part of the open risk.
use sibilla.Base.{Text, List, [], ◌∷◌, map, All, arith, Bool-cases, inl, inr, Dict, subst}
use sibilla.Float.{Float, IsFloat, ◌⊕◌, ◌⊗◌, ◌⊘◌, ◌≤?◌, ◌≼◌, nought, one, fmin}
use sibilla.Float.Laws.{
  le_refl, add_mono_both, mul-le_left, nought-le-one, fmin-le_left, le-fmax_left, fmax-le,
  neg-nought, le-add_right,
}
use sibilla.Enums.Market.{Direction, Factor, sign}
use sibilla.Market.Registry.{
  InstrumentRegistry, cosine, norm, dot, correlation_proxy, fsum, fsum_from, factor_vector,
}
use sibilla.Risk.Correlation.{OpenExposure, effective_correlation, correlated_from, correlated_risk}

module _ {W : Type 0} ⦃F : Float W⦄ where
  -- No position has a negative risk.
  abbrev pub HasRisks : List (OpenExposure W) → Type 0
  HasRisks ps = All (λ p. nought ≼ p.risk_eur) ps

  -- `sum(p.risk_eur for p in ps)`
  abbrev pub total_risk : List (OpenExposure W) → W
  total_risk ps = fsum (map (λ p. p.risk_eur) ps)

  -- Between -1 and 1.
  abbrev pub IsCorrelation : W → Type 0
  IsCorrelation x = (F.neg one ≼ x) × (x ≼ one)

module _ {W : Type 0} ⦃F : Float W⦄ (L : IsFloat W) where
  neg_one-le : F.neg (F.lit 1 0) ≼ F.lit 0 0
  neg_one-le = ground (arith, L.neg_anti nought one (nought-le-one L), neg-nought L)

  neg_one-le-one : F.neg (F.lit 1 0) ≼ F.lit 1 0
  neg_one-le-one = L.le_trans (F.neg one) nought one neg_one-le (nought-le-one L)

  cosine-IsCorrelation : (a b : Dict Factor W) → IsCorrelation (cosine a b)
  unfolding cosine
  cosine-IsCorrelation a b =
      let x = dot a b ⊘ (norm a ⊗ norm b) in
      ground (
        arith,
        neg_one-le,
        nought-le-one L,
        le-fmax_left L (F.neg one) (fmin one x),
        fmax-le L (F.neg one) (fmin one x) one neg_one-le-one (fmin-le_left L one x),
      )

  -- The structural correlation of any two factor vectors lies between -1 and 1.
  pub correlation_proxy-IsCorrelation :
      (a b : Dict Factor W) → IsCorrelation (correlation_proxy a b)
  unfolding correlation_proxy
  correlation_proxy-IsCorrelation [] b = (neg_one-le, nought-le-one L)
  correlation_proxy-IsCorrelation (x ∷ a) [] = (neg_one-le, nought-le-one L)
  correlation_proxy-IsCorrelation (x ∷ a) (y ∷ b) = cosine-IsCorrelation (x ∷ a) (y ∷ b)

  signed-IsCorrelation :
      (x : W) (d : Direction) → IsCorrelation x → IsCorrelation (x ⊗ F.of_int (sign d))
  unfolding sign
  signed-IsCorrelation x Direction.buy h = rw (L.of_int-one, L.mul-one x) h
  signed-IsCorrelation x Direction.sell h =
      rw (L.of_int-neg_one, L.mul-neg x one, L.mul-one x)
        (
          L.neg_anti x one h.1,
          subst (λ t. F.neg x ≼ t) (L.neg_neg one) (L.neg_anti (F.neg one) x h.0),
        )

  effective-le-one :
      (base : Dict Factor W) (d : Direction) (p : OpenExposure W)
      → effective_correlation base d p ≼ one
  unfolding effective_correlation
  effective-le-one base d p =
      let corr = correlation_proxy base p.factors in
      (signed-IsCorrelation (corr ⊗ F.of_int (sign d)) p.direction
        (signed-IsCorrelation corr d (correlation_proxy-IsCorrelation base p.factors))).1

  correlated_from-le :
      (min_corr : W) (base : Dict Factor W) (d : Direction) (acc total : W)
      (ps : List (OpenExposure W))
      → HasRisks ps
      → acc ≼ total
      → correlated_from min_corr base d acc ps ≼ fsum_from total (map (λ p. p.risk_eur) ps)
  unfolding correlated_from
  correlated_from-le min_corr base d acc total [] h le = le
  correlated_from-le min_corr base d acc total (p ∷ ps) (risk, rest) le =
      let effective = effective_correlation base d p in
      let part = p.risk_eur ⊗ effective in
      let counted : acc ⊕ part ≼ total ⊕ p.risk_eur =
        add_mono_both L acc total part p.risk_eur le
          (mul-le_left L p.risk_eur effective risk (effective-le-one base d p)) in
      let skipped : acc ≼ total ⊕ p.risk_eur =
        L.le_trans acc total (total ⊕ p.risk_eur) le (le-add_right L total p.risk_eur risk) in
      elim (Bool-cases (min_corr ≤? effective)) [
        | inl moves ↦
            rw moves
              (correlated_from-le min_corr base d (acc ⊕ part) (total ⊕ p.risk_eur) ps rest counted)
        | inr still ↦
            rw still (correlated_from-le min_corr base d acc (total ⊕ p.risk_eur) ps rest skipped)
      ]

  -- Whatever the threshold and the directions are, the risk that moves with a new trade is at most the
  -- open risk, if no position has a negative risk.
  pub correlated_risk-le :
      (min_corr : W) (registry : InstrumentRegistry W) (epic : Text) (d : Direction)
      (ps : List (OpenExposure W))
      → HasRisks ps
      → correlated_risk min_corr registry epic d ps ≼ total_risk ps
  unfolding correlated_risk
  correlated_risk-le min_corr registry epic d ps h =
      correlated_from-le min_corr (factor_vector epic registry) d nought nought ps h
        (le_refl L nought)
