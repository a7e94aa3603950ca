-- ===== src/Risk/KillSwitch/Restart.antt =====
-- What a new process reads back from the database after a call on the switch.
use sibilla.Base.{
  Text, Bool, true, false, ◌≡◌, refl, ap, none, some, List, [], ◌∷◌, ok, err, arith, text_key,
  lookup-insert,
}
use sibilla.Enums.StrEnum.{value, of_value}
use sibilla.Enums.State.{KillSwitchReason, kill_switch_reason_enum, SystemState, system_state_enum}
use sibilla.Enums.Laws.{of_value-value_reason}
use sibilla.Store.{
  World, Details, KillSwitchEvent, SystemStateRecord, first_open, clear_events, active_kill_switch,
  get_state, set_state_record, value_or,
}
use sibilla.Risk.KillSwitch.Laws.{HasReason-guard, load_state-reason}
use sibilla.Risk.KillSwitch.{
  KillSwitch, Raised, new, guard, is_machine, is_reason, trigger, clear, set_state, load,
  load_state, state_key,
}

module _ {W : Type 0} where
  -- The switch of a process that starts on this database.
  unfoldable pub restarted : World W → KillSwitch W
  restarted w = load true w new

  -- A cleared table holds no open event.
  first_open-clear_events :
      (now : W) (by : Text) (es : List (KillSwitchEvent W))
      → first_open (clear_events now by es) ≡ none
  first_open-clear_events now by [] = refl
  first_open-clear_events now by (e ∷ es) = ground (arith, first_open-clear_events now by es)

  load_state-value :
      (s : SystemState) (k : KillSwitch W) → load_state (value s) k ≡ record k { state = s }
  unfolding of_value
  load_state-value SystemState.running k = refl
  load_state-value s k = refl

  get_state-set_state_record :
      (now : W) (v by default : Text) (details : Details) (w : World W)
      → get_state state_key default (set_state_record now state_key v by details w) ≡ v
  get_state-set_state_record now v by default details w =
      let row : SystemStateRecord W = record {
        value = v;
        details = details;
        updated_by = by;
        updated_at = now;
      } in
      ap (value_or default) (lookup-insert state_key state_key row w.system_states)

  -- A database whose newest open event has a known reason blocks the process that starts on it.
  restarted_blocked :
      (w : World W) (e : KillSwitchEvent W) (r : KillSwitchReason)
      → active_kill_switch w ≡ some e
      → of_value e.reason ≡ some r
      → guard (restarted w) ≡ err Raised.kill_switch_active
  unfolding restarted load
  restarted_blocked w e r open_event known =
      let state = get_state state_key (value SystemState.running) w in
      let k : KillSwitch W = record new { reason = some r; details = e.details } in
      HasReason-guard (load true w new) (rw (open_event, known) (rw (load_state-reason state k)))

  -- The row that `trigger` adds.
  abbrev tripped : W → KillSwitchReason → Text → Details → KillSwitchEvent W
  tripped now r by details = record {
    ts = now;
    reason = value r;
    triggered_by = by;
    details = details;
    cleared_at = none;
    cleared_by = none;
  }

  trigger-active_kill_switch :
      (audit_ok : Bool) (now : W) (r : KillSwitchReason) (by : Text) (details : Details)
      (k : KillSwitch W) (w : World W)
      → is_reason k.reason r ≡ false
      → active_kill_switch (trigger true audit_ok now r by details k w).world
        ≡ some (tripped now r by details)
  unfolding trigger
  trigger-active_kill_switch true now r by details k w h = rw h
  trigger-active_kill_switch false now r by details k w h = rw h

  -- A trip for a reason that is not yet active, once persisted, blocks the process that starts on
  -- the database next, whether or not it was audited.
  pub trigger-restarted :
      (audit_ok : Bool) (now : W) (r : KillSwitchReason) (by : Text) (details : Details)
      (k : KillSwitch W) (w : World W)
      → is_reason k.reason r ≡ false
      → guard (restarted (trigger true audit_ok now r by details k w).world)
        ≡ err Raised.kill_switch_active
  trigger-restarted audit_ok now r by details k w h =
      restarted_blocked (trigger true audit_ok now r by details k w).world
        (tripped now r by details) r (trigger-active_kill_switch audit_ok now r by details k w h)
        (of_value-value_reason r)

  -- A database with no open event and the state `running` does not block.
  restarted_idle :
      (w : World W)
      → active_kill_switch w ≡ none
      → get_state state_key (value SystemState.running) w ≡ value SystemState.running
      → guard (restarted w) ≡ ok tt
  unfolding restarted load guard
  restarted_idle w closed state = rw (closed, state) (rw (load_state-value SystemState.running new))

  clear-active_kill_switch :
      (audit_ok : Bool) (now : W) (by : Text) (k : KillSwitch W) (w : World W)
      → is_machine by ≡ false
      → active_kill_switch (clear true audit_ok now by k w).world ≡ none
  unfolding clear
  clear-active_kill_switch true now by k w h =
      rw h (first_open-clear_events now by w.kill_switch_events)
  clear-active_kill_switch false now by k w h =
      rw h (first_open-clear_events now by w.kill_switch_events)

  clear-get_state :
      (audit_ok : Bool) (now : W) (by : Text) (k : KillSwitch W) (w : World W)
      → is_machine by ≡ false
      → get_state state_key (value SystemState.running) (clear true audit_ok now by k w).world
        ≡ value SystemState.running
  unfolding clear
  clear-get_state true now by k w h = rw h (
      get_state-set_state_record now (value SystemState.running) by (value SystemState.running) []
        w)
  clear-get_state false now by k w h = rw h (
      get_state-set_state_record now (value SystemState.running) by (value SystemState.running) []
        w)

  -- After a `clear` that is no machine's and was committed, the process that starts on the database
  -- next is not blocked, whether or not the call was audited.
  pub clear-restarted :
      (audit_ok : Bool) (now : W) (by : Text) (k : KillSwitch W) (w : World W)
      → is_machine by ≡ false
      → guard (restarted (clear true audit_ok now by k w).world) ≡ ok tt
  clear-restarted audit_ok now by k w h =
      restarted_idle (clear true audit_ok now by k w).world
        (clear-active_kill_switch audit_ok now by k w h) (clear-get_state audit_ok now by k w h)

  -- Where the newest open event has a known reason, a committed return to `running` lifts the block
  -- in this process, whoever asks for it, while the process that starts on the database next is
  -- blocked.
  pub set_state-running_not_durable :
      (audit_ok : Bool) (now : W) (by : Text) (k : KillSwitch W) (w : World W)
      (e : KillSwitchEvent W) (r : KillSwitchReason)
      → active_kill_switch w ≡ some e
      → of_value e.reason ≡ some r
      → let o = set_state true audit_ok now SystemState.running by k w in
        (guard o.switch ≡ ok tt) × (guard (restarted o.world) ≡ err Raised.kill_switch_active)
  unfolding guard set_state
  set_state-running_not_durable true now by k w e r open_event known = (
    refl,
    restarted_blocked (set_state true true now SystemState.running by k w).world e r open_event
        known,
  )
  set_state-running_not_durable false now by k w e r open_event known = (
    refl,
    restarted_blocked (set_state true false now SystemState.running by k w).world e r open_event
        known,
  )
