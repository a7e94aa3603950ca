-- ===== src/Etoro/Universe.antt =====
-- `InstrumentUniverse` of src/collectors/etoro/instruments.py. The search of the broker is a parameter: for
-- each page the items of its answer, or an exception. The file of the cache holds what was saved last.
pub mod Tradable
use sibilla.Base.{
  ℕ, zero, suc, Text, List, [], ◌∷◌, ◌++◌, length, take, ltb, leb, Option, none, some, Bool, true,
  false, not, ◌&&◌, ◌||◌, Result, ok, err,
}
use sibilla.Float.{Float, ◌⊖◌, ◌≤?◌, ◌<?◌}
use sibilla.Etoro.Momentum.{InstrumentCandidate}

abbrev pub page_size : ℕ
page_size = 500

abbrev pub target_universe_size : ℕ
target_universe_size = 200

abbrev pub max_pages : ℕ
max_pages = 10

-- An item of an answer, with `none` for a missing field; a missing flag is false.
pub record SearchItem (W : Type 0) : Type 0 where
  pub instrument_id : Option ℕ
  pub displayname : Option Text
  pub current_rate : Option W
  pub is_currently_tradable : Bool
  pub is_delisted : Bool

-- The file of the cache.
pub record SavedUniverse (W : Type 0) : Type 0 where
  pub cached_at : W
  pub candidates : List (InstrumentCandidate W)

-- What a call of `refresh` gives, the pages that it asked for, and the file that it leaves.
pub record Refreshed (W E : Type 0) : Type 0 where
  pub candidates : Result E (List (InstrumentCandidate W))
  pub asked : List ℕ
  pub saved : Option (SavedUniverse W)

pub record Found (W E : Type 0) : Type 0 where
  pub candidates : Result E (List (InstrumentCandidate W))
  pub asked : List ℕ

module _ {W : Type 0} ⦃F : Float W⦄ where
  -- `now` is the clock, in seconds.
  unfoldable pub load_cache :
      W → W → Option (SavedUniverse W) → Option (List (InstrumentCandidate W))
  load_cache cache_ttl_s now none = none
  load_cache cache_ttl_s now (some s) = elim (cache_ttl_s <? (now ⊖ s.cached_at)) [
    | true ↦ none
    | false ↦ some s.candidates
  ]

  abbrev pub is_cheap : W → Option W → Bool
  is_cheap max_price_usd none = false
  is_cheap max_price_usd (some rate) = rate ≤? max_price_usd

  abbrev pub is_wanted : W → SearchItem W → Bool
  is_wanted max_price_usd item =
      item.is_currently_tradable && not item.is_delisted && is_cheap max_price_usd item.current_rate

module _ {W : Type 0} where
  -- `len(candidates) >= TARGET_UNIVERSE_SIZE or len(items) < PAGE_SIZE`
  abbrev pub is_enough : List (SearchItem W) → List (InstrumentCandidate W) → Bool
  is_enough items found = leb target_universe_size (length found) || ltb (length items) page_size

module _ {W E : Type 0} where
  -- The cut to the target and `_save_cache`; an exception of the loop leaves the file.
  unfoldable pub save_cache : W → Option (SavedUniverse W) → Found W E → Refreshed W E
  save_cache now saved f = elim f.candidates [
    | err e ↦ record { candidates = err e; asked = f.asked; saved = saved }
    | ok found ↦ record {
      candidates = ok (take target_universe_size found);
      asked = f.asked;
      saved = some (record { cached_at = now; candidates = take target_universe_size found });
    }
  ]

-- `missing` is the exception for a missing key.
module _ {W E : Type 0} ⦃F : Float W⦄ (missing : E) where
  abbrev pub candidate_of : Option ℕ → Option Text → Option W → Result E (InstrumentCandidate W)
  candidate_of (some i) (some n) (some rate) =
      ok (record { instrument_id = i; name = n; price = rate })
  candidate_of (some i) (some n) none = err missing
  candidate_of (some i) none rate = err missing
  candidate_of none n rate = err missing

  -- The loop over the items of a page, which adds to the candidates that are found.
  unfoldable pub add_items :
      W
      → List (SearchItem W)
      → List (InstrumentCandidate W)
      → Result E (List (InstrumentCandidate W))
  add_items max_price_usd [] found = ok found
  add_items max_price_usd (item ∷ items) found = elim (is_wanted max_price_usd item) [
    | false ↦ add_items max_price_usd items found
    | true ↦ elim (candidate_of item.instrument_id item.displayname item.current_rate) [
      | err e ↦ err e
      | ok c ↦ add_items max_price_usd items (found ++ (c ∷ []))
    ]
  ]

  -- The loop over the pages: `left` more from `page` on.
  unfoldable pub pages_from :
      (ℕ → Result E (List (SearchItem W)))
      → W
      → ℕ
      → ℕ
      → List ℕ
      → List (InstrumentCandidate W)
      → Found W E
  unfolding add_items
  pages_from search max_price_usd zero page asked found = record {
    candidates = ok found;
    asked = asked;
  }
  pages_from search max_price_usd (suc left) page asked found = elim (search page) [
    | err e ↦ record { candidates = err e; asked = asked ++ (page ∷ []) }
    | ok [] ↦ record { candidates = ok found; asked = asked ++ (page ∷ []) }
    | ok (item ∷ items) ↦ elim (add_items max_price_usd (item ∷ items) found) [
      | err e ↦ record { candidates = err e; asked = asked ++ (page ∷ []) }
      | ok more ↦ elim (is_enough (item ∷ items) more) [
        | true ↦ record { candidates = ok more; asked = asked ++ (page ∷ []) }
        | false ↦ pages_from search max_price_usd left (suc page) (asked ++ (page ∷ [])) more
      ]
    ]
  ]

  unfoldable pub refresh :
      (ℕ → Result E (List (SearchItem W))) → W → W → W → Option (SavedUniverse W) → Refreshed W E
  unfolding load_cache pages_from save_cache
  refresh search max_price_usd cache_ttl_s now saved = elim (load_cache cache_ttl_s now saved) [
    | some cached ↦ record { candidates = ok cached; asked = []; saved = saved }
    | none ↦ save_cache now saved (pages_from search max_price_usd max_pages 1 [] [])
  ]
