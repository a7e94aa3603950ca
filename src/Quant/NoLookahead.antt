-- ===== src/Quant/NoLookahead.antt =====
-- The prices and the volatility of src/quant/features.py at a time do not depend on later points.
use sibilla.Base.{
  [], ◌∷◌, All, select, select-yes, select-no, ltb, &&-split, map, length, Option, none, some, Bool,
  Bool-cases, inl, inr, true, false, ◌&&◌, ◌≡◌, refl, ap, ◌∙◌, IsSorted, sort_by-IsSorted,
  sort_by-selected, if◌then◌else◌, arith,
}
use sibilla.Float.{Float, IsFloat, ◌⊖◌, ◌≤?◌, ◌≼◌, ◌≺◌}
use sibilla.Quant.Features.{
  Series, is_earlier, sorted_points, last_before, price_at_or_before, points_within,
  realized_volatility, log_returns, stdev,
}

module _ {W : Type 0} ⦃F : Float W⦄ where
  -- The points of a series up to a time.
  abbrev pub up_to : W → Series W → Series W
  up_to ts series = select (λ p. p.0 ≤? ts) series

module _ {W : Type 0} ⦃F : Float W⦄ (L : IsFloat W) where
  sorted_points-IsSorted : (s : Series W) → IsSorted is_earlier (sorted_points s)
  unfolding sorted_points
  sorted_points-IsSorted s =
      sort_by-IsSorted is_earlier (λ p q. L.le_total p.0 q.0) (λ p q r. L.le_trans p.0 q.0 r.0) s

  sorted_points-up_to :
      (ts : W) (s : Series W) → sorted_points (up_to ts s) ≡ up_to ts (sorted_points s)
  unfolding sorted_points
  sorted_points-up_to ts s =
      sort_by-selected is_earlier (λ p q. L.le_total p.0 q.0) (λ p q r. L.le_trans p.0 q.0 r.0)
        (λ p. p.0 ≤? ts) s

  -- Nothing is selected from points that are all too late.
  pub up_to-late : (t ts : W) (s : Series W) → ts ≺ t → All (λ q. t ≼ q.0) s → up_to ts s ≡ []
  up_to-late t ts [] h k = refl
  up_to-late t ts (q ∷ s) h (k, ks) = ground (arith, L.le_trans t q.0 ts, up_to-late t ts s h ks)

  later : (t ts u : W) → t ≼ ts → ts ≺ u → (u ≤? t) ≡ false
  later t ts u h late = ground (arith, L.le_trans u t ts)

  last_before-up_to :
      (t ts : W) (best : Option W) (s : Series W)
      → t ≼ ts
      → IsSorted is_earlier s
      → last_before t best (up_to ts s) ≡ last_before t best s
  last_before-up_to t ts best [] h k = refl
  last_before-up_to t ts best ((u, v) ∷ s) h (k, ks) = elim (Bool-cases (u ≤? ts)) [
    | inl early ↦
        ap (last_before t best) (select-yes (λ p. p.0 ≤? ts) (u, v) s early)
        ∙ ap (λ o. if u ≤? t then o else best) (last_before-up_to t ts (some v) s h ks)
    | inr late ↦
        ap (last_before t best)
          (select-no (λ p. p.0 ≤? ts) (u, v) s late ∙ up_to-late u ts s late k)
        ∙ rw (later t ts u h late) refl
  ]

  -- The price at a time depends on the points up to that time, or any later one, only.
  pub price_at_or_before-up_to :
      (t ts : W) (s : Series W)
      → t ≼ ts
      → price_at_or_before (up_to ts s) t ≡ price_at_or_before s t
  unfolding price_at_or_before
  price_at_or_before-up_to t ts s h =
      ap (last_before t none) (sorted_points-up_to ts s)
      ∙ last_before-up_to t ts none (sorted_points s) h (sorted_points-IsSorted s)

  select-both :
      (p q : W × W → Bool)
      → ((x : W × W) → p x ≡ true → q x ≡ true)
      → (s : Series W) → select p (select q s) ≡ select p s
  select-both p q h [] = refl
  select-both p q h (x ∷ s) = ground (arith, h x, select-both p q h s)

  pub points_within-up_to :
      (window_s t ts : W) (s : Series W)
      → t ≼ ts
      → points_within window_s t (up_to ts s) ≡ points_within window_s t s
  unfolding points_within
  points_within-up_to window_s t ts s h =
      let window : W × W → Bool = λ p. (t ⊖ window_s ≤? p.0) && (p.0 ≤? t) in
      ap (select window) (sorted_points-up_to ts s)
      ∙ select-both window (λ p. p.0 ≤? ts)
          (λ p k. L.le_trans p.0 t ts (&&-split (t ⊖ window_s ≤? p.0) (p.0 ≤? t) k).1 h)
          (sorted_points s)

  -- So does the volatility.
  pub realized_volatility-up_to :
      (ln : W → W) (window_s t ts : W) (s : Series W)
      → t ≼ ts
      → realized_volatility ln window_s t (up_to ts s) ≡ realized_volatility ln window_s t s
  unfolding realized_volatility
  realized_volatility-up_to ln window_s t ts s h =
      ap
        (λ points.
          let rets = log_returns ln (map (λ p. p.1) points) in
          if ltb (length points) 5
          then none
          else (if ltb (length rets) 3 then none else some (stdev rets)))
        (points_within-up_to window_s t ts s h)
