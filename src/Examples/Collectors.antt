-- ===== src/Examples/Collectors.antt =====
-- The broker's universe of two shares and its quotes, src/collectors/etoro.
use sibilla.Base.{
  ℕ, text, Text, List, [], ◌∷◌, length, map, Option, some, true, false, Result, ok, ◌≡◌, ◌≤◌, All,
  refl,
}
use sibilla.Base.Int.{◌+ℤ◌}
use sibilla.Float.Fixed.{Fixed, fixed, lit}
use sibilla.Etoro.Momentum.{InstrumentCandidate}
use sibilla.Etoro.Universe.{
  SearchItem, SavedUniverse, load_cache, refresh, max_pages, target_universe_size,
}
use sibilla.Etoro.Universe.Tradable.{OkHas, IsListed, refresh-AllListed}
use sibilla.Etoro.Rates.{RawRate, quotes_for}
use sibilla.Etoro.Rates.Quoted.{rate_for, quoted, quotes_for-quoted}
use sibilla.Examples.Fixture.{whole}

abbrev item : ℕ → Fixed → SearchItem Fixed
item i rate = record {
  instrument_id = some i;
  displayname = some (text "ACME");
  current_rate = some rate;
  is_currently_tradable = true;
  is_delisted = false;
}

-- The second share is too dear.
abbrev search : ℕ → Result Text (List (SearchItem Fixed))
search page = ok (item 7 (whole 5) ∷ (item 8 (whole 50) ∷ []))

abbrev expired : Option (SavedUniverse Fixed)
expired = some (record { cached_at = whole 1; candidates = [] })

abbrev acme : InstrumentCandidate Fixed
acme = record { instrument_id = 7; name = text "ACME"; price = whole 5 }

refresh-AllListed_example :
    OkHas
      (λ cs. All (IsListed search (whole 10)) cs × (length cs ≤ target_universe_size))
      (refresh (text "KeyError") search (whole 10) (whole 60) (whole 100) expired).candidates
    × (length (refresh (text "KeyError") search (whole 10) (whole 60) (whole 100) expired).asked
        ≤ max_pages)
unfolding load_cache ◌+ℤ◌ lit
refresh-AllListed_example =
    refresh-AllListed (text "KeyError") (whole 10) search (whole 60) (whole 100) expired refl

abbrev price : ℕ → Fixed
price i = whole i

abbrev answer : List ℕ → Result Text (List (RawRate Fixed))
answer ids = ok (map (rate_for price price) ids)

quotes_for-quoted_example :
    quotes_for (text "KeyError") (whole 1) answer (7 ∷ (8 ∷ []))
    ≡ ok (quoted price price (whole 1) 7 ∷ (quoted price price (whole 1) 8 ∷ []))
quotes_for-quoted_example =
    quotes_for-quoted (text "KeyError") (whole 1) price price answer (7 ∷ (8 ∷ [])) (λ c n. refl)
