-- ===== src/Enums/State.antt =====
-- src/core/enums.py: the operating state of the system and the reasons that are recorded.
use sibilla.Base.{Text, text, [], ◌∷◌, Bool, true, false}
use sibilla.Enums.StrEnum.{StrEnum}

pub data ExecutionMode : Type 0 where
  shadow paper demo live_small live : ExecutionMode

pub data ExitReason : Type 0 where
  stop_hit target_hit time_stop thesis_invalidated kill_switch manual risk_reduction market_close :
      ExitReason

pub data SignalType : Type 0 where
  breaking_news_repricing polymarket_asset_signal cross_asset_lag macro_release company_event
        limitless_mispricing :
      SignalType

pub data ReasonCode : Type 0 where
  news_not_fully_priced macro_repricing polymarket_repricing cross_asset_lag company_event
        wallet_consensus anomaly_investigated limitless_mispricing manual_override
        exit_target_reached exit_stop exit_time_stop exit_invalidated :
      ReasonCode

pub data KillSwitchReason : Type 0 where
  api_unavailable stale_market_data market_suspended corrupted_data excessive_latency
        excessive_drawdown abnormal_llm_behavior repeated_rejected_orders reconciliation_mismatch
        balance_mismatch margin_breach manual :
      KillSwitchReason

abbrev pub kill_switch_reason_value : KillSwitchReason → Text
kill_switch_reason_value KillSwitchReason.api_unavailable = text "API_UNAVAILABLE"
kill_switch_reason_value KillSwitchReason.stale_market_data = text "STALE_MARKET_DATA"
kill_switch_reason_value KillSwitchReason.market_suspended = text "MARKET_SUSPENDED"
kill_switch_reason_value KillSwitchReason.corrupted_data = text "CORRUPTED_DATA"
kill_switch_reason_value KillSwitchReason.excessive_latency = text "EXCESSIVE_LATENCY"
kill_switch_reason_value KillSwitchReason.excessive_drawdown = text "EXCESSIVE_DRAWDOWN"
kill_switch_reason_value KillSwitchReason.abnormal_llm_behavior = text "ABNORMAL_LLM_BEHAVIOR"
kill_switch_reason_value KillSwitchReason.repeated_rejected_orders = text "REPEATED_REJECTED_ORDERS"
kill_switch_reason_value KillSwitchReason.reconciliation_mismatch = text "RECONCILIATION_MISMATCH"
kill_switch_reason_value KillSwitchReason.balance_mismatch = text "BALANCE_MISMATCH"
kill_switch_reason_value KillSwitchReason.margin_breach = text "MARGIN_BREACH"
kill_switch_reason_value KillSwitchReason.manual = text "MANUAL"

instance abbrev pub kill_switch_reason_enum : StrEnum KillSwitchReason
kill_switch_reason_enum = record {
  value = kill_switch_reason_value;
  members =
      KillSwitchReason.api_unavailable ∷ KillSwitchReason.stale_market_data
      ∷ KillSwitchReason.market_suspended ∷ KillSwitchReason.corrupted_data
      ∷ KillSwitchReason.excessive_latency ∷ KillSwitchReason.excessive_drawdown
      ∷ KillSwitchReason.abnormal_llm_behavior ∷ KillSwitchReason.repeated_rejected_orders
      ∷ KillSwitchReason.reconciliation_mismatch ∷ KillSwitchReason.balance_mismatch
      ∷ KillSwitchReason.margin_breach ∷ KillSwitchReason.manual ∷ [];
}

pub data SystemState : Type 0 where
  running paused stopped killed : SystemState

abbrev pub system_state_value : SystemState → Text
system_state_value SystemState.running = text "RUNNING"
system_state_value SystemState.paused = text "PAUSED"
system_state_value SystemState.stopped = text "STOPPED"
system_state_value SystemState.killed = text "KILLED"

instance abbrev pub system_state_enum : StrEnum SystemState
system_state_enum = record {
  value = system_state_value;
  members =
      SystemState.running ∷ SystemState.paused ∷ SystemState.stopped ∷ SystemState.killed ∷ [];
}

pub data PortfolioDecision : Type 0 where
  enter enter_small wait cancel exit reduce pass_ : PortfolioDecision

-- `ExecutionMode.sends_orders_to_broker`.
unfoldable pub sends_orders_to_broker : ExecutionMode → Bool
sends_orders_to_broker ExecutionMode.demo = true
sends_orders_to_broker ExecutionMode.live_small = true
sends_orders_to_broker ExecutionMode.live = true
sends_orders_to_broker _ = false

-- `ExecutionMode.uses_real_money`.
unfoldable pub uses_real_money : ExecutionMode → Bool
uses_real_money ExecutionMode.live_small = true
uses_real_money ExecutionMode.live = true
uses_real_money _ = false
