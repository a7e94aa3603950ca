-- ===== src/Enums/Market.antt =====
-- src/core/enums.py: the enumerations of instruments, orders and market states.
use sibilla.Base.{
  Text, text, upper, one_of, [], ◌∷◌, Option, none, some, Bool, true, false, if◌then◌else◌,
}
use sibilla.Base.Int.{ℤ, pos, negsuc}
use sibilla.Float.{Float, ◌≤?◌}
use sibilla.Enums.StrEnum.{StrEnum, of_value}

pub data AssetClass : Type 0 where
  indices forex commodities equity_cfd crypto_cfd rates bonds other : AssetClass

abbrev pub asset_class_value : AssetClass → Text
asset_class_value AssetClass.indices = text "INDICES"
asset_class_value AssetClass.forex = text "FOREX"
asset_class_value AssetClass.commodities = text "COMMODITIES"
asset_class_value AssetClass.equity_cfd = text "EQUITY_CFD"
asset_class_value AssetClass.crypto_cfd = text "CRYPTO_CFD"
asset_class_value AssetClass.rates = text "RATES"
asset_class_value AssetClass.bonds = text "BONDS"
asset_class_value AssetClass.other = text "OTHER"

instance abbrev pub asset_class_enum : StrEnum AssetClass
asset_class_enum = record {
  value = asset_class_value;
  members =
      AssetClass.indices ∷ AssetClass.forex ∷ AssetClass.commodities ∷ AssetClass.equity_cfd
      ∷ AssetClass.crypto_cfd ∷ AssetClass.rates ∷ AssetClass.bonds ∷ AssetClass.other ∷ [];
}

pub data Direction : Type 0 where
  buy sell : Direction

abbrev pub direction_value : Direction → Text
direction_value Direction.buy = text "BUY"
direction_value Direction.sell = text "SELL"

instance abbrev pub direction_enum : StrEnum Direction
direction_enum = record { value = direction_value; members = Direction.buy ∷ Direction.sell ∷ [] }

pub data EntryType : Type 0 where
  market limit stop : EntryType

pub data MarketStatus : Type 0 where
  tradeable closed suspended edits_only offline on_auction on_auction_no_edits unknown :
      MarketStatus

abbrev pub market_status_value : MarketStatus → Text
market_status_value MarketStatus.tradeable = text "TRADEABLE"
market_status_value MarketStatus.closed = text "CLOSED"
market_status_value MarketStatus.suspended = text "SUSPENDED"
market_status_value MarketStatus.edits_only = text "EDITS_ONLY"
market_status_value MarketStatus.offline = text "OFFLINE"
market_status_value MarketStatus.on_auction = text "ON_AUCTION"
market_status_value MarketStatus.on_auction_no_edits = text "ON_AUCTION_NO_EDITS"
market_status_value MarketStatus.unknown = text "UNKNOWN"

instance abbrev pub market_status_enum : StrEnum MarketStatus
market_status_enum = record {
  value = market_status_value;
  members =
      MarketStatus.tradeable ∷ MarketStatus.closed ∷ MarketStatus.suspended
      ∷ MarketStatus.edits_only ∷ MarketStatus.offline ∷ MarketStatus.on_auction
      ∷ MarketStatus.on_auction_no_edits ∷ MarketStatus.unknown ∷ [];
}

pub data TimeHorizon : Type 0 where
  seconds minutes intraday overnight multi_day : TimeHorizon

pub data Factor : Type 0 where
  us_equity eu_equity asia_equity usd eur jpy gbp rates oil gold crypto risk_on risk_off
        volatility :
      Factor

abbrev pub factor_value : Factor → Text
factor_value Factor.us_equity = text "US_EQUITY"
factor_value Factor.eu_equity = text "EU_EQUITY"
factor_value Factor.asia_equity = text "ASIA_EQUITY"
factor_value Factor.usd = text "USD"
factor_value Factor.eur = text "EUR"
factor_value Factor.jpy = text "JPY"
factor_value Factor.gbp = text "GBP"
factor_value Factor.rates = text "RATES"
factor_value Factor.oil = text "OIL"
factor_value Factor.gold = text "GOLD"
factor_value Factor.crypto = text "CRYPTO"
factor_value Factor.risk_on = text "RISK_ON"
factor_value Factor.risk_off = text "RISK_OFF"
factor_value Factor.volatility = text "VOLATILITY"

instance abbrev pub factor_enum : StrEnum Factor
factor_enum = record {
  value = factor_value;
  members =
      Factor.us_equity ∷ Factor.eu_equity ∷ Factor.asia_equity ∷ Factor.usd ∷ Factor.eur
      ∷ Factor.jpy ∷ Factor.gbp ∷ Factor.rates ∷ Factor.oil ∷ Factor.gold ∷ Factor.crypto
      ∷ Factor.risk_on ∷ Factor.risk_off ∷ Factor.volatility ∷ [];
}

-- The member, or `unknown` where the lookup raised.
abbrev pub or_unknown : Option MarketStatus → MarketStatus
or_unknown none = MarketStatus.unknown
or_unknown (some status) = status

module _ {W : Type 0} ⦃F : Float W⦄ where
  -- `TimeHorizon.from_seconds`.
  unfoldable pub horizon_from_seconds : W → TimeHorizon
  horizon_from_seconds elapsed =
      if elapsed ≤? F.lit 120 0
      then TimeHorizon.seconds
      else (if elapsed ≤? F.lit 1800 0
          then TimeHorizon.minutes
          else (if elapsed ≤? F.lit 28_800 0
              then TimeHorizon.intraday
              else (if elapsed ≤? F.lit 86_400 0
                  then TimeHorizon.overnight
                  else TimeHorizon.multi_day)))

-- `Direction.sign`.
unfoldable pub sign : Direction → ℤ
sign Direction.buy = pos 1
sign Direction.sell = negsuc 0

unfoldable pub opposite : Direction → Direction
opposite Direction.buy = Direction.sell
opposite Direction.sell = Direction.buy

-- `Direction.parse`; `none` is the `ValueError`.
unfoldable pub parse_direction : Text → Option Direction
parse_direction value =
    let word = upper value in
    if one_of word (text "BUY" ∷ text "LONG" ∷ [])
    then some Direction.buy
    else (if one_of word (text "SELL" ∷ text "SHORT" ∷ []) then some Direction.sell else none)

-- `MarketStatus.parse`: an absent, empty or unknown status is `unknown`.
unfoldable pub parse_market_status : Option Text → MarketStatus
unfolding of_value
parse_market_status none = MarketStatus.unknown
parse_market_status (some []) = MarketStatus.unknown
parse_market_status (some (c ∷ s)) = or_unknown (of_value (upper (c ∷ s)))

-- `MarketStatus.tradeable`.
unfoldable pub is_tradeable : MarketStatus → Bool
is_tradeable MarketStatus.tradeable = true
is_tradeable _ = false
