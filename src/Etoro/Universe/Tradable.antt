-- ===== src/Etoro/Universe/Tradable.antt =====
-- What `refresh` of src/collectors/etoro/instruments.py gives, and when it asks the broker.
use sibilla.Base.{
  ℕ, zero, suc, ◌+◌, ◌≤◌, Text, List, [], ◌∷◌, ◌++◌, All, All-append, Among, length, length-append,
  length-take, take, Option, none, some, Bool-cases, true, false, Result, ok, err, inl, inr, ◌≡◌,
  refl, sym, subst, arith,
}
use sibilla.Float.{Float, ◌⊖◌, ◌≼◌}
use sibilla.Etoro.Momentum.{InstrumentCandidate}
use sibilla.Etoro.Universe.{
  SearchItem, SavedUniverse, Found, load_cache, is_cheap, is_wanted, candidate_of, add_items,
  is_enough, pages_from, save_cache, refresh, max_pages, target_universe_size,
}

module _ {E A : Type 0} where
  -- What a result holds, if it is one.
  abbrev pub OkHas : (A → Type 0) → Result E A → Type 0
  OkHas P (ok x) = P x
  OkHas P (err e) = Unit

module _ {A : Type 0} where
  All-Among : (Q : A → Type 0) (xs : List A) → ((x : A) → Among x xs → Q x) → All Q xs
  All-Among Q [] h = tt
  All-Among Q (x ∷ xs) h = (h x (inl refl), All-Among Q xs (λ y m. h y (inr m)))

  All-take : (P : A → Type 0) (n : ℕ) (xs : List A) → All P xs → All P (take n xs)
  All-take P zero xs h = tt
  All-take P (suc n) [] h = tt
  All-take P (suc n) (x ∷ xs) (p, h) = (p, All-take P n xs h)

module _ {W E : Type 0} ⦃F : Float W⦄ where
  -- A candidate is an item of a page of the search: tradable, not delisted, at its current rate.
  pub record IsListed (search : ℕ → Result E (List (SearchItem W))) (max_price_usd : W)
      (c : InstrumentCandidate W) : Type 0 where
    pub page : ℕ
    pub items : List (SearchItem W)
    pub item : SearchItem W
    pub answered : search page ≡ ok items
    pub among : Among item items
    pub tradable : item.is_currently_tradable ≡ true
    pub not_delisted : item.is_delisted ≡ false
    pub id_given : item.instrument_id ≡ some c.instrument_id
    pub rate_given : item.current_rate ≡ some c.price
    pub cheap : c.price ≼ max_price_usd

module _ {W E : Type 0} ⦃F : Float W⦄ (missing : E) (max_price_usd : W) where
  candidate_of-terms :
      (i : Option ℕ) (n : Option Text) (rate : Option W)
      → is_cheap max_price_usd rate ≡ true
      → OkHas
          (λ c. (i ≡ some c.instrument_id) × (rate ≡ some c.price) × (c.price ≼ max_price_usd))
          (candidate_of missing i n rate)
  candidate_of-terms (some i) (some n) (some rate) h = (refl, refl, h)
  candidate_of-terms (some i) (some n) none h = tt
  candidate_of-terms (some i) none rate h = tt
  candidate_of-terms none n rate h = tt

  module _ (P : InstrumentCandidate W → Type 0) where
    add_one :
        (r : Result E (InstrumentCandidate W)) (items : List (SearchItem W))
        (found : List (InstrumentCandidate W))
        → OkHas P r
        → ((c : InstrumentCandidate W)
            → P c
            → OkHas (All P) (add_items missing max_price_usd items (found ++ (c ∷ []))))
        → OkHas (All P) (elim r [
          | err e ↦ err e
          | ok c ↦ add_items missing max_price_usd items (found ++ (c ∷ []))
        ])
    add_one (ok c) items found p rest = rest c p
    add_one (err e) items found p rest = tt

    add_items-All :
        (items : List (SearchItem W)) (found : List (InstrumentCandidate W))
        → All
            (λ item.
              is_wanted max_price_usd item ≡ true
              → OkHas P
                  (candidate_of missing item.instrument_id item.displayname item.current_rate))
            items
        → All P found
        → OkHas (All P) (add_items missing max_price_usd items found)
    unfolding add_items
    add_items-All [] found hs h = h
    add_items-All (item ∷ items) found (q, hs) h =
        elim (Bool-cases (is_wanted max_price_usd item)) [
          | inl wanted ↦
              rw (wanted, OkHas)
                (add_one
                  (candidate_of missing item.instrument_id item.displayname item.current_rate) items
                  found (q wanted)
                  (λ c p.
                    add_items-All items (found ++ (c ∷ [])) hs
                      (All-append P found (c ∷ []) h (p, tt))))
          | inr unwanted ↦ rw (unwanted, OkHas) (add_items-All items found hs h)
        ]

  wanted_parts :
      (item : SearchItem W)
      → is_wanted max_price_usd item ≡ true
      → (item.is_currently_tradable ≡ true)
        × (item.is_delisted ≡ false)
        × (is_cheap max_price_usd item.current_rate ≡ true)
  wanted_parts item h = ground arith

  module _ (search : ℕ → Result E (List (SearchItem W))) where
    abbrev IsGood : ℕ → Found W E → Type 0
    IsGood n f = OkHas (All (IsListed search max_price_usd)) f.candidates × (length f.asked ≤ n)

    found_item :
        (page : ℕ) (items : List (SearchItem W)) (item : SearchItem W)
        → search page ≡ ok items
        → Among item items
        → is_wanted max_price_usd item ≡ true
        → (r : Result E (InstrumentCandidate W))
        → OkHas
            (λ c.
              (item.instrument_id ≡ some c.instrument_id)
              × (item.current_rate ≡ some c.price)
              × (c.price ≼ max_price_usd))
            r
        → OkHas (IsListed search max_price_usd) r
    found_item page items item e m h (err _) t = tt
    found_item page items item e m h (ok c) (i, rate, cheap) = record {
      page = page;
      items = items;
      item = item;
      answered = e;
      among = m;
      tradable = (wanted_parts item h).0;
      not_delisted = (wanted_parts item h).1;
      id_given = i;
      rate_given = rate;
      cheap = cheap;
    }

    page-All :
        (page : ℕ) (items : List (SearchItem W)) (found : List (InstrumentCandidate W))
        → search page ≡ ok items
        → All (IsListed search max_price_usd) found
        → OkHas (All (IsListed search max_price_usd)) (add_items missing max_price_usd items found)
    page-All page items found e h =
        add_items-All (IsListed search max_price_usd) items found
          (All-Among
            (λ item.
              is_wanted max_price_usd item ≡ true
              → OkHas (IsListed search max_price_usd)
                  (candidate_of missing item.instrument_id item.displayname item.current_rate))
            items
            (λ item m w.
              found_item page items item e m w
                (candidate_of missing item.instrument_id item.displayname item.current_rate)
                (candidate_of-terms item.instrument_id item.displayname item.current_rate
                  (wanted_parts item w).2)))
          h

    length-asked :
        (page left : ℕ) (asked : List ℕ) → length (asked ++ (page ∷ [])) ≤ length asked + suc left
    length-asked page left asked = omega (arith, length-append asked (page ∷ []))

    more_lem :
        (page left : ℕ) (asked : List ℕ) (items : List (SearchItem W))
        (r : Result E (List (InstrumentCandidate W)))
        → OkHas (All (IsListed search max_price_usd)) r
        → ((more : List (InstrumentCandidate W))
            → All (IsListed search max_price_usd) more
            → IsGood (length (asked ++ (page ∷ [])) + left) (
                pages_from missing search max_price_usd left
                  (suc page)
                  (asked ++ (page ∷ []))
                  more))
        → IsGood (length asked + suc left) (elim r [
          | err e ↦ record { candidates = err e; asked = asked ++ (page ∷ []) }
          | ok more ↦ elim (is_enough items more) [
            | true ↦ record { candidates = ok more; asked = asked ++ (page ∷ []) }
            | false ↦
                pages_from missing search max_price_usd left (suc page) (asked ++ (page ∷ [])) more
          ]
        ])
    more_lem page left asked items (err e) t rest = (tt, length-asked page left asked)
    more_lem page left asked items (ok more) t rest = elim (Bool-cases (is_enough items more)) [
      | inl enough ↦ rw (enough, IsGood) (t, length-asked page left asked)
      | inr few ↦
          rw (few, IsGood)
            ((rest more t).0, omega (arith, (rest more t).1, length-append asked (page ∷ [])))
    ]

    after_page :
        (left page : ℕ) (asked : List ℕ) (found : List (InstrumentCandidate W))
        (r : Result E (List (SearchItem W)))
        → search page ≡ r
        → All (IsListed search max_price_usd) found
        → ((more : List (InstrumentCandidate W))
            → All (IsListed search max_price_usd) more
            → IsGood (length (asked ++ (page ∷ [])) + left) (
                pages_from missing search max_price_usd left
                  (suc page)
                  (asked ++ (page ∷ []))
                  more))
        → IsGood
            (length asked + suc left)
            (pages_from missing search max_price_usd (suc left) page asked found)
    unfolding pages_from
    after_page left page asked found (err e) q h rest =
        rw (q, IsGood, pages_from) (tt, length-asked page left asked)
    after_page left page asked found (ok []) q h rest =
        rw (q, IsGood, pages_from) (h, length-asked page left asked)
    after_page left page asked found (ok (item ∷ items)) q h rest =
        rw (q, IsGood, pages_from)
          (more_lem page left asked (item ∷ items)
            (add_items missing max_price_usd (item ∷ items) found)
            (page-All page (item ∷ items) found q h) rest)

    pages_from-IsGood :
        (left page : ℕ) (asked : List ℕ) (found : List (InstrumentCandidate W))
        → All (IsListed search max_price_usd) found
        → IsGood
            (length asked + left)
            (pages_from missing search max_price_usd left page asked found)
    unfolding pages_from
    pages_from-IsGood zero page asked found h = (h, omega arith)
    pages_from-IsGood (suc left) page asked found h =
        after_page left page asked found (search page) refl h
          (λ more t. pages_from-IsGood left (suc page) (asked ++ (page ∷ [])) more t)

    saved-IsGood :
        (now : W) (saved : Option (SavedUniverse W)) (r : Result E (List (InstrumentCandidate W)))
        (asked : List ℕ)
        → OkHas (All (IsListed search max_price_usd)) r
        → OkHas
            (λ cs. All (IsListed search max_price_usd) cs × (length cs ≤ target_universe_size))
            (save_cache now saved (record { candidates = r; asked = asked })).candidates
    unfolding save_cache
    saved-IsGood now saved (ok found) asked h = (
      All-take (IsListed search max_price_usd) target_universe_size found h,
      omega (arith, length-take target_universe_size found),
    )
    saved-IsGood now saved (err e) asked h = tt

    asked_lem :
        (now : W) (saved : Option (SavedUniverse W)) (r : Result E (List (InstrumentCandidate W)))
        (asked : List ℕ)
        → (save_cache now saved (record { candidates = r; asked = asked })).asked ≡ asked
    unfolding save_cache
    asked_lem now saved (ok found) asked = refl
    asked_lem now saved (err e) asked = refl

    -- A refresh without a cache that holds asks for ten pages at most. What it gives are at most 200
    -- candidates, and each is an item of a page that the search answered: marked as tradable and not as
    -- delisted, with the price that the item has, which is not over the threshold.
    pub refresh-AllListed :
        (cache_ttl_s now : W) (saved : Option (SavedUniverse W))
        → load_cache cache_ttl_s now saved ≡ none
        → OkHas
            (λ cs. All (IsListed search max_price_usd) cs × (length cs ≤ target_universe_size))
            (refresh missing search max_price_usd cache_ttl_s now saved).candidates
          × (length (refresh missing search max_price_usd cache_ttl_s now saved).asked ≤ max_pages)
    unfolding refresh
    refresh-AllListed cache_ttl_s now saved e =
        let f = pages_from missing search max_price_usd max_pages 1 [] [] in
        let g = pages_from-IsGood max_pages 1 [] [] tt in
        rw (e, refresh, OkHas)
          (
            saved-IsGood now saved f.candidates f.asked g.0,
            subst (λ n. length n ≤ max_pages) (sym (asked_lem now saved f.candidates f.asked)) g.1,
          )

    saved-kept :
        (now later cache_ttl_s : W) (saved : Option (SavedUniverse W))
        (r : Result E (List (InstrumentCandidate W))) (asked : List ℕ)
        → (later ⊖ now) ≼ cache_ttl_s
        → OkHas
            (λ cs.
              load_cache cache_ttl_s later
                (save_cache now saved (record { candidates = r; asked = asked })).saved
              ≡ some cs)
            (save_cache now saved (record { candidates = r; asked = asked })).candidates
    unfolding save_cache load_cache
    saved-kept now later cache_ttl_s saved (ok found) asked h = rw (h, load_cache) refl
    saved-kept now later cache_ttl_s saved (err x) asked h = tt

    refresh_lem :
        (cache_ttl_s now : W) (saved : Option (SavedUniverse W))
        → load_cache cache_ttl_s now saved ≡ none
        → refresh missing search max_price_usd cache_ttl_s now saved
          ≡ save_cache now saved (pages_from missing search max_price_usd max_pages 1 [] [])
    unfolding refresh
    refresh_lem cache_ttl_s now saved e = rw (e, refresh) refl

    -- What a refresh took from the broker is given again, without a call, by each refresh from its file
    -- until the time to live has passed, whatever the search would answer then.
    pub refresh-again :
        (search' : ℕ → Result E (List (SearchItem W))) (cache_ttl_s now later : W)
        (saved : Option (SavedUniverse W)) (cs : List (InstrumentCandidate W))
        → load_cache cache_ttl_s now saved ≡ none
        → (refresh missing search max_price_usd cache_ttl_s now saved).candidates ≡ ok cs
        → (later ⊖ now) ≼ cache_ttl_s
        → let file = (refresh missing search max_price_usd cache_ttl_s now saved).saved in
          refresh missing search' max_price_usd cache_ttl_s later file
          ≡ record { candidates = ok cs; asked = []; saved = file }
    unfolding refresh
    refresh-again search' cache_ttl_s now later saved cs e q h =
        let f = pages_from missing search max_price_usd max_pages 1 [] [] in
        let file = (refresh missing search max_price_usd cache_ttl_s now saved).saved in
        let kept : OkHas (λ c. load_cache cache_ttl_s later file ≡ some c)
            (refresh missing search max_price_usd cache_ttl_s now saved).candidates =
          subst (λ r. OkHas (λ c. load_cache cache_ttl_s later r.saved ≡ some c) r.candidates)
            (sym (refresh_lem cache_ttl_s now saved e))
            (saved-kept now later cache_ttl_s saved f.candidates f.asked h) in
        rw (subst (λ r. OkHas (λ c. load_cache cache_ttl_s later file ≡ some c) r) q kept, refresh)
          refl
