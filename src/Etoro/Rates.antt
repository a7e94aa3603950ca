-- ===== src/Etoro/Rates.antt =====
-- `RatesCollector` of src/collectors/etoro/rates.py. The client's call is a parameter: for the identifiers of
-- a request the entries of its answer, or an exception.
pub mod Quoted
use sibilla.Base.{
  ℕ, zero, suc, text, List, [], ◌∷◌, ◌++◌, length, take, drop, Option, none, some, Result, ok, err,
}
use sibilla.Enums.Market.{MarketStatus}
use sibilla.Schemas.Market.{Quote}
use sibilla.Etoro.Gateway.{etoro_epic}

abbrev pub max_ids_per_rates_call : ℕ
max_ids_per_rates_call = 100

-- An entry of an answer, with `none` for a missing field: "instrumentID", "instrumentId", "bid", "ask".
pub record RawRate (W : Type 0) : Type 0 where
  pub instrument_id_upper : Option ℕ
  pub instrument_id_camel : Option ℕ
  pub bid : Option W
  pub ask : Option W

-- `r.get("instrumentID", r.get("instrumentId"))`
abbrev pub id_of : Option ℕ → Option ℕ → Option ℕ
id_of none camel = camel
id_of (some i) camel = some i

-- `ids[0:100]`, `ids[100:200]` and so on, in at most `fuel` steps; with as many as there are
-- identifiers every one is in a slice.
unfoldable pub chunks : ℕ → List ℕ → List (List ℕ)
chunks zero ids = []
chunks (suc fuel) [] = []
chunks (suc fuel) (i ∷ ids) =
    take max_ids_per_rates_call (i ∷ ids) ∷ chunks fuel (drop max_ids_per_rates_call (i ∷ ids))

-- `now` is the clock of the quotes, and `missing` the exception for a missing key.
module _ {W E : Type 0} (missing : E) (now : W) where
  abbrev pub quote_of : ℕ → Option W → Option W → Result E (Quote W)
  quote_of i (some bid) (some ask) = ok (record {
    epic = etoro_epic i;
    bid = bid;
    offer = ask;
    ts = now;
    market_status = MarketStatus.tradeable;
    source = text "etoro-rest";
    high = none;
    low = none;
    change_pct = none;
    delay_ms = 0;
  })
  quote_of i (some bid) none = err missing
  quote_of i none ask = err missing

  unfoldable pub add_rates : List (RawRate W) → List (Quote W) → Result E (List (Quote W))
  add_rates [] out = ok out
  add_rates (r ∷ rs) out = elim (id_of r.instrument_id_upper r.instrument_id_camel) [
    | none ↦ add_rates rs out
    | some i ↦ elim (quote_of i r.bid r.ask) [
      | err e ↦ err e
      | ok q ↦ add_rates rs (out ++ (q ∷ []))
    ]
  ]

  unfoldable pub quotes_from :
      (List ℕ → Result E (List (RawRate W)))
      → List (List ℕ)
      → List (Quote W)
      → Result E (List (Quote W))
  unfolding add_rates
  quotes_from rates [] out = ok out
  quotes_from rates (chunk ∷ more) out = elim (rates chunk) [
    | err e ↦ err e
    | ok raw ↦ elim (add_rates raw out) [ err e ↦ err e | ok out' ↦ quotes_from rates more out' ]
  ]

  unfoldable pub quotes_for :
      (List ℕ → Result E (List (RawRate W))) → List ℕ → Result E (List (Quote W))
  unfolding chunks quotes_from
  quotes_for rates ids = quotes_from rates (chunks (length ids) ids) []
