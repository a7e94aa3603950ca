-- ===== src/Examples/Switch.antt =====
-- Calls on the kill switch and on the limits, src/risk/kill_switch.py and src/risk/limits.py.
use sibilla.Base.{text, List, [], ◌∷◌, none, some, true, false, ◌≡◌, refl, ok, err, arith}
use sibilla.Base.Int.{◌+ℤ◌}
use sibilla.Enums.StrEnum.{of_value}
use sibilla.Float.Fixed.{Fixed, fixed, lit}
use sibilla.Enums.State.{KillSwitchReason, SystemState}
use sibilla.Config.{default_limits, is_valid}
use sibilla.Store.{World}
use sibilla.Risk.KillSwitch.{KillSwitch, Raised, new, guard, trigger, clear, set_state}
use sibilla.Risk.KillSwitch.Laws.{Call, trip, lift, put, reload, run, trigger_unaudited, run-guard}
use sibilla.Risk.KillSwitch.Restart.{
  restarted, trigger-restarted, clear-restarted, set_state-running_not_durable,
}
use sibilla.Risk.Limits.{current_limits}
use sibilla.Risk.Limits.Laws.{Change, update_all, update_all-is_valid}
use sibilla.Examples.Fixture.{blank, whole, cents}

-- A switch that a drawdown tripped, and the database after it.
abbrev tripped : KillSwitch Fixed
tripped = record {
  reason = some KillSwitchReason.excessive_drawdown;
  details = [];
  state = SystemState.killed;
  triggered_at = some (whole 5);
}

abbrev after_trip : World Fixed
after_trip = record blank {
  kill_switch_events =
      record {
        ts = whole 5;
        reason = text "EXCESSIVE_DRAWDOWN";
        triggered_by = text "system";
        details = [];
        cleared_at = none;
        cleared_by = none;
      }
      ∷ [];
}

trigger_unaudited_example :
    let o =
      trigger true false
        (whole 7)
        KillSwitchReason.margin_breach
        (text "system")
        []
        tripped
        after_trip in
    (guard o.switch ≡ err Raised.kill_switch_active)
    × (o.result ≡ err Raised.db_error)
    × (o.world.emitted ≡ after_trip.emitted)
trigger_unaudited_example =
    trigger_unaudited true (whole 7) KillSwitchReason.margin_breach (text "system") [] tripped
      after_trip refl

-- A reload, a vain attempt to lift the block, a pause and a second trip.
abbrev calls : List (Call Fixed)
calls =
    reload true
    ∷ lift true true (whole 6) (text "agent-7")
    ∷ put true false (whole 7) SystemState.paused (text "ops")
    ∷ trip false true (whole 8) KillSwitchReason.manual (text "ops") []
    ∷ []

run-guard_example : guard (run calls (tripped, after_trip)).0 ≡ err Raised.kill_switch_active
run-guard_example =
    run-guard calls tripped after_trip (tt, (refl, ((λ e. ground arith), (tt, tt)))) refl

trigger-restarted_example :
    guard (
      restarted
        (trigger true false
          (whole 5)
          KillSwitchReason.balance_mismatch
          (text "system")
          []
          new
          blank).world)
    ≡ err Raised.kill_switch_active
trigger-restarted_example =
    trigger-restarted false (whole 5) KillSwitchReason.balance_mismatch (text "system") [] new blank
      refl

clear-restarted_example :
    guard (restarted (clear true true (whole 9) (text "dario") tripped after_trip).world) ≡ ok tt
clear-restarted_example = clear-restarted true (whole 9) (text "dario") tripped after_trip refl

set_state-running_not_durable_example :
    let o = set_state true true (whole 9) SystemState.running (text "llm") tripped after_trip in
    (guard o.switch ≡ ok tt) × (guard (restarted o.world) ≡ err Raised.kill_switch_active)
unfolding of_value
set_state-running_not_durable_example =
    set_state-running_not_durable true (whole 9) (text "llm") tripped after_trip
      (record {
        ts = whole 5;
        reason = text "EXCESSIVE_DRAWDOWN";
        triggered_by = text "system";
        details = [];
        cleared_at = none;
        cleared_by = none;
      })
      KillSwitchReason.excessive_drawdown refl refl

-- A change that the validators refuse, and one that they let through.
abbrev changes : List (Change Fixed)
changes =
    record {
      audit_ok = true;
      now = whole 3;
      actor = text "dario";
      changes = λ l. record l { max_risk_per_trade = cents 30 };
    }
    ∷ record {
      audit_ok = true;
      now = whole 4;
      actor = text "dario";
      changes = λ l. record l { max_risk_per_trade = cents 1 };
    }
    ∷ []

update_all-is_valid_example :
    is_valid (current_limits default_limits (update_all default_limits changes none blank)) ≡ true
unfolding is_valid current_limits lit ◌+ℤ◌
update_all-is_valid_example = update_all-is_valid default_limits changes none blank refl
