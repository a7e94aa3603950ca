-- ===== src/Etoro/Gateway.antt =====
-- src/execution/etoro/gateway.py: orders, positions and balances. What the broker answers to a call of
-- the client, which goes over the network, is an argument: an exception, or the fields of the answer.
use sibilla.Base.{
  ℕ, Text, text, digits, parse_nat, parse_nat-digits, ◌==◌, List, [], ◌∷◌, ◌++◌, map, Option, none,
  some, Bool, true, false, Result, ok, err, ◌≡◌, if◌then◌else◌,
}
use sibilla.Base.Int.{ℤ}
use sibilla.Float.{Float, ◌⊕◌, nought}
use sibilla.Enums.Market.{Direction}
use sibilla.Enums.News.{EventType}
use sibilla.Schemas.Trade.{AccountState}
use sibilla.Store.{World, emit}

unfoldable pub etoro_epic : ℕ → Text
etoro_epic instrument_id = text "ETORO:" ++ digits instrument_id

-- `s.split(":", 1)[1]`; without a colon it raises.
abbrev pub after_colon : Text → Option Text
after_colon [] = none
after_colon (c ∷ s) = if c == b':' then some s else after_colon s

abbrev pub parse_rest : Option Text → Option ℕ
parse_rest none = none
parse_rest (some s) = parse_nat s

unfoldable pub instrument_id_from_epic : Text → Option ℕ
instrument_id_from_epic epic = parse_rest (after_colon epic)

-- The identifier that is read from an epic is the one that it was made from.
pub instrument_id_from_epic-etoro_epic : (n : ℕ) → instrument_id_from_epic (etoro_epic n) ≡ some n
unfolding instrument_id_from_epic etoro_epic
instrument_id_from_epic-etoro_epic n = parse_nat-digits n

-- The fields of `payload` that vary; `action`, `orderType` and `settlementType` are constant.
pub record Payload (W : Type 0) : Type 0 where
  pub transaction : Text
  pub instrument_id : ℕ
  pub leverage : ℕ
  pub units : ℤ
  pub stop_loss_rate : W
  pub take_profit_rate : W

pub record OrderResult (W : Type 0) : Type 0 where
  pub client_order_id : Text
  pub deal_id : Option Text
  pub status : Text
  pub filled_size : W
  pub fill_price : Option W
  pub requested_size : ℤ
  pub is_error : Bool

-- A position in the broker's answer, with `none` for a missing field.
pub record RawPosition (W : Type 0) : Type 0 where
  pub position_id : Text
  pub instrument_id : ℕ
  pub is_buy : Option Bool
  pub units : W
  pub open_rate : W
  pub stop_loss_rate : Option W
  pub take_profit_rate : Option W

pub record BrokerPosition (W : Type 0) : Type 0 where
  pub deal_id : Text
  pub epic : Text
  pub direction : Direction
  pub size : W
  pub level : W
  pub stop_level : Option W
  pub limit_level : Option W
  pub currency : Text

-- The bus events so far and how the call ended.
pub record Sent (W : Type 0) : Type 0 where
  pub world : World W
  pub result : Result Text (OrderResult W)

abbrev pub transaction_of : Direction → Text
transaction_of Direction.buy = text "buy"
transaction_of Direction.sell = text "sellShort"

abbrev pub direction_of : Option Bool → Direction
direction_of none = Direction.buy
direction_of (some true) = Direction.buy
direction_of (some false) = Direction.sell

abbrev pub reply_event : Option Text → EventType
reply_event none = EventType.order_rejected
reply_event (some _) = EventType.order_confirmed

module _ {W : Type 0} where
  unfoldable pub payload_of : ℕ → Direction → ℤ → W → W → ℕ → Payload W
  payload_of instrument_id direction units stop_loss take_profit leverage = record {
    transaction = transaction_of direction;
    instrument_id = instrument_id;
    leverage = leverage;
    units = units;
    stop_loss_rate = stop_loss;
    take_profit_rate = take_profit;
  }

  unfoldable pub position_of : RawPosition W → BrokerPosition W
  position_of p = record {
    deal_id = p.position_id;
    epic = etoro_epic p.instrument_id;
    direction = direction_of p.is_buy;
    size = p.units;
    level = p.open_rate;
    stop_level = p.stop_loss_rate;
    limit_level = p.take_profit_rate;
    currency = text "USD";
  }

  unfoldable pub positions : List (RawPosition W) → List (BrokerPosition W)
  positions ps = map position_of ps

module _ {W : Type 0} ⦃F : Float W⦄ where
  -- The result by the `orderId` of the answer.
  unfoldable pub order_result : ℤ → Option Text → OrderResult W
  order_result units none = record {
    client_order_id = [];
    deal_id = none;
    status = text "REJECTED";
    filled_size = nought;
    fill_price = none;
    requested_size = units;
    is_error = true;
  }
  order_result units (some order_id) = record {
    client_order_id = order_id;
    deal_id = none;
    status = text "CONFIRMED";
    filled_size = nought;
    fill_price = none;
    requested_size = units;
    is_error = false;
  }

  -- `open_market_order` once its payload stands, by what `post_order` gives.
  unfoldable pub open_market_order : Result Text (Option Text) → Payload W → World W → Sent W
  open_market_order (err e) payload w = record {
    world = emit EventType.order_submitted w;
    result = err e;
  }
  open_market_order (ok reply) payload w = record {
    world = emit (reply_event reply) (emit EventType.order_submitted w);
    result = ok (order_result payload.units reply);
  }

  unfoldable pub close_position : Result Text Text → World W → World W × Result Text Text
  close_position (err e) w = (w, err e)
  close_position (ok answer) w = (emit EventType.position_closed w, ok answer)

  -- `portfolio.get(key, 0.0)`
  abbrev pub or_zero : Option W → W
  or_zero none = nought
  or_zero (some x) = x

  unfoldable pub balances : (credit unrealized : Option W) → AccountState W
  balances credit unrealized = record {
    account_id = text "etoro";
    currency = text "USD";
    balance = or_zero credit;
    deposit = nought;
    profit_loss = nought;
    available = or_zero credit;
    margin_used = nought;
    equity = or_zero credit ⊕ or_zero unrealized;
    source = text "etoro-rest";
  }
