-- ===== src/Enums/News.antt =====
-- src/core/enums.py: the enumerations of news and bus events, with the freshness of a story.
use sibilla.Base.{Text, text, [], ◌∷◌, if◌then◌else◌}
use sibilla.Float.{Float, ◌<?◌}
use sibilla.Enums.StrEnum.{StrEnum}

pub data Category : Type 0 where
  crypto politics sports macro economics technology geopolitics companies science entertainment
        weather other :
      Category

pub data SourceTier : Type 0 where
  tier_1 tier_2 tier_3 tier_4 tier_5 : SourceTier

pub data FreshnessBucket : Type 0 where
  t_0_30s t_30_120s t_2_5m t_5_30m t_over_30m : FreshnessBucket

pub data EventType : Type 0 where
  price_changed news_detected wallet_trade macro_release polymarket_repricing anomaly_detected
        event_detected signal_created trade_proposed trade_approved trade_rejected order_submitted
        order_confirmed order_rejected position_opened position_updated position_closed
        thesis_invalidated market_resolved kill_switch_triggered config_changed alert :
      EventType

abbrev pub event_type_value : EventType → Text
event_type_value EventType.price_changed = text "PRICE_CHANGED"
event_type_value EventType.news_detected = text "NEWS_DETECTED"
event_type_value EventType.wallet_trade = text "WALLET_TRADE"
event_type_value EventType.macro_release = text "MACRO_RELEASE"
event_type_value EventType.polymarket_repricing = text "POLYMARKET_REPRICING"
event_type_value EventType.anomaly_detected = text "ANOMALY_DETECTED"
event_type_value EventType.event_detected = text "EVENT_DETECTED"
event_type_value EventType.signal_created = text "SIGNAL_CREATED"
event_type_value EventType.trade_proposed = text "TRADE_PROPOSED"
event_type_value EventType.trade_approved = text "TRADE_APPROVED"
event_type_value EventType.trade_rejected = text "TRADE_REJECTED"
event_type_value EventType.order_submitted = text "ORDER_SUBMITTED"
event_type_value EventType.order_confirmed = text "ORDER_CONFIRMED"
event_type_value EventType.order_rejected = text "ORDER_REJECTED"
event_type_value EventType.position_opened = text "POSITION_OPENED"
event_type_value EventType.position_updated = text "POSITION_UPDATED"
event_type_value EventType.position_closed = text "POSITION_CLOSED"
event_type_value EventType.thesis_invalidated = text "THESIS_INVALIDATED"
event_type_value EventType.market_resolved = text "MARKET_RESOLVED"
event_type_value EventType.kill_switch_triggered = text "KILL_SWITCH_TRIGGERED"
event_type_value EventType.config_changed = text "CONFIG_CHANGED"
event_type_value EventType.alert = text "ALERT"

instance abbrev pub event_type_enum : StrEnum EventType
event_type_enum = record {
  value = event_type_value;
  members =
      EventType.price_changed ∷ EventType.news_detected ∷ EventType.wallet_trade
      ∷ EventType.macro_release ∷ EventType.polymarket_repricing ∷ EventType.anomaly_detected
      ∷ EventType.event_detected ∷ EventType.signal_created ∷ EventType.trade_proposed
      ∷ EventType.trade_approved ∷ EventType.trade_rejected ∷ EventType.order_submitted
      ∷ EventType.order_confirmed ∷ EventType.order_rejected ∷ EventType.position_opened
      ∷ EventType.position_updated ∷ EventType.position_closed ∷ EventType.thesis_invalidated
      ∷ EventType.market_resolved ∷ EventType.kill_switch_triggered ∷ EventType.config_changed
      ∷ EventType.alert ∷ [];
}

module _ {W : Type 0} ⦃F : Float W⦄ where
  -- `SourceTier.reliability`.
  unfoldable pub reliability : SourceTier → W
  reliability SourceTier.tier_1 = F.lit 97 2
  reliability SourceTier.tier_2 = F.lit 88 2
  reliability SourceTier.tier_3 = F.lit 72 2
  reliability SourceTier.tier_4 = F.lit 58 2
  reliability SourceTier.tier_5 = F.lit 30 2

  -- `FreshnessBucket.from_seconds`.
  unfoldable pub bucket_from_seconds : W → FreshnessBucket
  bucket_from_seconds seconds =
      if seconds <? F.lit 30 0
      then FreshnessBucket.t_0_30s
      else (if seconds <? F.lit 120 0
          then FreshnessBucket.t_30_120s
          else (if seconds <? F.lit 300 0
              then FreshnessBucket.t_2_5m
              else (if seconds <? F.lit 1800 0
                  then FreshnessBucket.t_5_30m
                  else FreshnessBucket.t_over_30m)))

  -- `FreshnessBucket.weight`.
  unfoldable pub weight : FreshnessBucket → W
  weight FreshnessBucket.t_0_30s = F.lit 1 0
  weight FreshnessBucket.t_30_120s = F.lit 8 1
  weight FreshnessBucket.t_2_5m = F.lit 55 2
  weight FreshnessBucket.t_5_30m = F.lit 25 2
  weight FreshnessBucket.t_over_30m = F.lit 5 2
