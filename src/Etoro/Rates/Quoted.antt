-- ===== src/Etoro/Rates/Quoted.antt =====
-- What `quotes_for` of src/collectors/etoro/rates.py asks for and gives.
use sibilla.Base.{
  ℕ, zero, suc, ◌≤◌, text, List, [], ◌∷◌, ◌++◌, map, All, length, length-drop, length-take, take,
  drop, take-append-drop, none, some, Result, ok, ◌≡◌, refl, sym, ap, ◌∙◌, arith,
}
use mathlib.Core.List.{append_assoc, append-nil, map-append}
use sibilla.Enums.Market.{MarketStatus}
use sibilla.Schemas.Market.{Quote}
use sibilla.Etoro.Gateway.{etoro_epic}
use sibilla.Etoro.Rates.{
  RawRate, chunks, add_rates, quotes_from, quotes_for, max_ids_per_rates_call,
}

module _ {A : Type 0} where
  abbrev pub join : List (List A) → List A
  join [] = []
  join (xs ∷ xss) = xs ++ join xss

chunks-join_at : (fuel : ℕ) (ids : List ℕ) → length ids ≤ fuel → join (chunks fuel ids) ≡ ids
unfolding chunks
chunks-join_at zero [] h = refl
chunks-join_at zero (i ∷ ids) h = absurd (omega (arith, h))
chunks-join_at (suc fuel) [] h = refl
chunks-join_at (suc fuel) (i ∷ ids) h =
    ap (λ r. take max_ids_per_rates_call (i ∷ ids) ++ r)
      (chunks-join_at fuel (drop max_ids_per_rates_call (i ∷ ids))
        (omega (arith, h, length-drop max_ids_per_rates_call (i ∷ ids))))
    ∙ take-append-drop max_ids_per_rates_call (i ∷ ids)

chunks-All :
    (fuel : ℕ) (ids : List ℕ) → All (λ c. length c ≤ max_ids_per_rates_call) (chunks fuel ids)
unfolding chunks
chunks-All zero ids = tt
chunks-All (suc fuel) [] = tt
chunks-All (suc fuel) (i ∷ ids) = (
  omega (arith, length-take max_ids_per_rates_call (i ∷ ids)),
  chunks-All fuel (drop max_ids_per_rates_call (i ∷ ids)),
)

module _ {W : Type 0} (bid ask : ℕ → W) where
  -- The entry of an answer for an identifier.
  abbrev pub rate_for : ℕ → RawRate W
  rate_for i = record {
    instrument_id_upper = some i;
    instrument_id_camel = none;
    bid = some (bid i);
    ask = some (ask i);
  }

  -- The quote at the two prices, at the time `now`.
  abbrev pub quoted : W → ℕ → Quote W
  quoted now i = record {
    epic = etoro_epic i;
    bid = bid i;
    offer = ask i;
    ts = now;
    market_status = MarketStatus.tradeable;
    source = text "etoro-rest";
    high = none;
    low = none;
    change_pct = none;
    delay_ms = 0;
  }

module _ {W E : Type 0} (missing : E) (now : W) (bid ask : ℕ → W) where
  add_rates-quoted :
      (ids : List ℕ) (out : List (Quote W))
      → add_rates missing now (map (rate_for bid ask) ids) out
        ≡ ok (out ++ map (quoted bid ask now) ids)
  unfolding add_rates
  add_rates-quoted [] out = ap ok (sym (append-nil out))
  add_rates-quoted (i ∷ ids) out =
      add_rates-quoted ids (out ++ (quoted bid ask now i ∷ []))
      ∙ ap ok (append_assoc out (quoted bid ask now i ∷ []) (map (quoted bid ask now) ids))

  module _ (rates : List ℕ → Result E (List (RawRate W))) where
    quotes_from-quoted :
        (cs : List (List ℕ)) (out : List (Quote W))
        → All (λ c. length c ≤ max_ids_per_rates_call) cs
        → ((c : List ℕ)
            → length c ≤ max_ids_per_rates_call
            → rates c ≡ ok (map (rate_for bid ask) c))
        → quotes_from missing now rates cs out ≡ ok (out ++ map (quoted bid ask now) (join cs))
    unfolding quotes_from
    quotes_from-quoted [] out small h = ap ok (sym (append-nil out))
    quotes_from-quoted (c ∷ cs) out (n, small) h =
        rw (h c n, add_rates-quoted c out, quotes_from)
          (quotes_from-quoted cs (out ++ map (quoted bid ask now) c) small h
            ∙ ap ok (
                append_assoc out (map (quoted bid ask now) c) (map (quoted bid ask now) (join cs))
                ∙ ap (◌++◌ out) (sym (map-append (quoted bid ask now) c (join cs)))))

    -- Where the broker answers each request of at most a hundred identifiers with their prices in order,
    -- the quotes are one for each identifier, in order, however many identifiers there are.
    pub quotes_for-quoted :
        (ids : List ℕ)
        → ((c : List ℕ)
            → length c ≤ max_ids_per_rates_call
            → rates c ≡ ok (map (rate_for bid ask) c))
        → quotes_for missing now rates ids ≡ ok (map (quoted bid ask now) ids)
    unfolding quotes_for
    quotes_for-quoted ids h =
        quotes_from-quoted (chunks (length ids) ids) [] (chunks-All (length ids) ids) h
        ∙ ap (λ js. ok (map (quoted bid ask now) js))
            (chunks-join_at (length ids) ids (omega arith))
