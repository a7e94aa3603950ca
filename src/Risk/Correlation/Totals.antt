-- ===== src/Risk/Correlation/Totals.antt =====
-- The entries of an exposure report are the sums over the positions with that key.
use sibilla.Base.{
  Text, List, [], ◌∷◌, map, select, ◌=?◌, ◌≡◌, refl, ap, sym, ◌∙◌, if◌then◌else◌, arith, Dict, get,
  text_key, get-insert, =?_iff,
}
use sibilla.Float.{Float, ◌⊕◌, nought}
use sibilla.Market.Registry.{fsum, fsum_from}
use sibilla.Risk.Correlation.{
  OpenExposure, ExposureReport, add_to, add_position, build_from, build_exposure, empty_report,
}

module _ {W : Type 0} ⦃F : Float W⦄ where
  -- The sum of the notionals of the positions whose key is `key`, in the order of the portfolio.
  abbrev pub notional_of : (OpenExposure W → Text) → Text → List (OpenExposure W) → W
  notional_of key_of key ps = fsum (map (λ p. p.notional) (select (λ p. key_of p =? key) ps))

  abbrev from : W → (OpenExposure W → Text) → Text → List (OpenExposure W) → W
  from acc key_of key ps = fsum_from acc (map (λ p. p.notional) (select (λ p. key_of p =? key) ps))

  -- One of the dictionaries of the loop.
  abbrev totals : (OpenExposure W → Text) → Dict Text W → List (OpenExposure W) → Dict Text W
  totals key_of d [] = d
  totals key_of d (p ∷ ps) = totals key_of (add_to (key_of p) p.notional d) ps

  get-add_to :
      (i j : Text) (x : W) (d : Dict Text W)
      → get j nought (add_to i x d) ≡ (if i =? j then get j nought d ⊕ x else get j nought d)
  get-add_to i j x d = ground (arith, get-insert i j (get i nought d ⊕ x) nought d, =?_iff i j)

  from-cons :
      (acc : W) (key_of : OpenExposure W → Text) (key : Text) (p : OpenExposure W)
      (ps : List (OpenExposure W))
      → from acc key_of key (p ∷ ps)
        ≡ from (if key_of p =? key then acc ⊕ p.notional else acc) key_of key ps
  from-cons acc key_of key p ps = ground arith

  get-totals :
      (key_of : OpenExposure W → Text) (key : Text) (d : Dict Text W) (ps : List (OpenExposure W))
      → get key nought (totals key_of d ps) ≡ from (get key nought d) key_of key ps
  get-totals key_of key d [] = refl
  get-totals key_of key d (p ∷ ps) =
      get-totals key_of key (add_to (key_of p) p.notional d) ps
      ∙ ap (λ t. from t key_of key ps) (get-add_to (key_of p) key p.notional d)
      ∙ sym (from-cons (get key nought d) key_of key p ps)

  build_from-totals :
      (r : ExposureReport W) (ps : List (OpenExposure W))
      → ((build_from r ps).by_epic ≡ totals (λ p. p.epic) r.by_epic ps)
        × ((build_from r ps).by_asset_class ≡ totals (λ p. p.asset_class) r.by_asset_class ps)
        × ((build_from r ps).by_currency ≡ totals (λ p. p.currency) r.by_currency ps)
        × ((build_from r ps).total_notional ≡ fsum_from r.total_notional (map (λ p. p.notional) ps))
  unfolding build_from
  build_from-totals r [] = (refl, refl, refl, refl)
  build_from-totals r (p ∷ ps) = build_from-totals (add_position r p) ps

  -- Each entry by instrument, by class and by currency is the sum of the notionals of exactly the
  -- positions with that key, and the total is the sum over all of them; a key without positions has zero.
  pub build_exposure-totals :
      (key : Text) (ps : List (OpenExposure W))
      → let r = build_exposure ps in
        (get key nought r.by_epic ≡ notional_of (λ p. p.epic) key ps)
        × (get key nought r.by_asset_class ≡ notional_of (λ p. p.asset_class) key ps)
        × (get key nought r.by_currency ≡ notional_of (λ p. p.currency) key ps)
        × (r.total_notional ≡ fsum (map (λ p. p.notional) ps))
  unfolding build_exposure
  build_exposure-totals key ps =
      let (epics, classes, currencies, total) = build_from-totals empty_report ps in
      (
        ap (get key nought) epics ∙ get-totals (λ p. p.epic) key [] ps,
        ap (get key nought) classes ∙ get-totals (λ p. p.asset_class) key [] ps,
        ap (get key nought) currencies ∙ get-totals (λ p. p.currency) key [] ps,
        total,
      )
