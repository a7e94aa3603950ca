-- ===== src/Etoro/Screener/Ranking.antt =====
-- The order of the signals of `find_pair_signals`, src/strategies/etoro_pairs.py.
use sibilla.Base.{
  List, [], ◌∷◌, All, select, take, drop, ◌≡◌, IsSorted, sort_by-select, sort_by-IsSorted,
  take-first, arith,
}
use sibilla.Float.{Float, IsFloat, ◌=F◌, ◌≼◌, fabs}
use sibilla.Etoro.Screener.{PairSignal, Entry, find_pair_signals, scan, is_eligible, is_farther}
use sibilla.Etoro.Runner.Pairs.{max_pairs_tried_per_cycle}

module _ {W : Type 0} ⦃F : Float W⦄ where
  -- Each element is at least as far from its mean as every later one.
  abbrev pub IsDecreasing : List (PairSignal W) → Type 0
  IsDecreasing [] = Unit
  IsDecreasing (s ∷ ss) = All (λ t. fabs t.z_score ≼ fabs s.z_score) ss × IsDecreasing ss

module _ {W : Type 0} ⦃F : Float W⦄ (L : IsFloat W) where
  sorted-IsDecreasing : (ss : List (PairSignal W)) → IsSorted is_farther ss → IsDecreasing ss
  sorted-IsDecreasing [] h = tt
  sorted-IsDecreasing (s ∷ ss) (first, h) = (first, sorted-IsDecreasing ss h)

  -- The signals are those of the scan, by decreasing distance of the ratio from its mean, and those
  -- at one distance keep the scan's order.
  pub find_pair_signals-IsSorted :
      (pairs : List (Entry W))
      → IsDecreasing (find_pair_signals pairs)
        × ((z : W)
            → select (λ s. fabs s.z_score =F z) (find_pair_signals pairs)
              ≡ select (λ s. fabs s.z_score =F z) (scan (select is_eligible pairs)))
  unfolding find_pair_signals
  find_pair_signals-IsSorted pairs =
      let found = scan (select is_eligible pairs) in
      (
        sort_by-IsSorted is_farther (λ s t. L.le_total (fabs t.z_score) (fabs s.z_score))
            (λ s t u h k. L.le_trans (fabs u.z_score) (fabs t.z_score) (fabs s.z_score) k h) found,
        λ z.
            sort_by-select is_farther (λ s. fabs s.z_score =F z)
              (λ s t h k. ground (arith, L.le_trans (fabs t.z_score) z (fabs s.z_score))) found,
      )

  -- Each signal that the runner tries in a cycle is at least as far from its mean as each that it
  -- leaves.
  pub find_pair_signals-first :
      (pairs : List (Entry W))
      → All
          (λ s.
            All
              (λ t. fabs t.z_score ≼ fabs s.z_score)
              (drop max_pairs_tried_per_cycle (find_pair_signals pairs)))
          (take max_pairs_tried_per_cycle (find_pair_signals pairs))
  find_pair_signals-first pairs =
      take-first is_farther max_pairs_tried_per_cycle (find_pair_signals pairs)
        (find_pair_signals-IsSorted pairs).0
