-- ===== src/Risk/KillSwitch.antt =====
-- src/risk/kill_switch.py: the switch in memory, its persistence, and the guard that every trade
-- passes. A call takes the time `now` and, for each transaction that it opens, whether that commits;
-- it gives the switch, the database and how the call ended.
pub mod Laws
pub mod Restart
use sibilla.Base.{
  Text, text, lower, starts_with, any, ◌=?◌, List, [], ◌∷◌, Option, none, some, Bool, true, false,
  ◌||◌, Result, ok, err, if◌then◌else◌,
}
use sibilla.Enums.StrEnum.{value, of_value}
use sibilla.Enums.News.{EventType}
use sibilla.Enums.State.{KillSwitchReason, kill_switch_reason_enum, SystemState, system_state_enum}
use sibilla.Store.{
  World, KillSwitchEvent, Details, add_kill_switch_event, active_kill_switch, clear_kill_switch,
  set_state_record, get_state, session_scope, audit, emit,
}

pub record KillSwitch (W : Type 0) : Type 0 where
  pub reason : Option KillSwitchReason
  pub details : Details
  pub state : SystemState
  pub triggered_at : Option W

-- Why a call raised.
pub data Raised : Type 0 where
  kill_switch_active system_paused human_required db_error : Raised

-- The end of a method call.
pub record Outcome (W : Type 0) : Type 0 where
  pub switch : KillSwitch W
  pub world : World W
  pub result : Result Raised (Unit {0})

abbrev pub state_key : Text
state_key = text "system_state"

abbrev pub is_some_reason : Option KillSwitchReason → Bool
is_some_reason none = false
is_some_reason (some _) = true

abbrev pub is_halted : SystemState → Bool
is_halted SystemState.stopped = true
is_halted SystemState.killed = true
is_halted SystemState.running = false
is_halted SystemState.paused = false

abbrev pub is_paused_state : SystemState → Bool
is_paused_state SystemState.paused = true
is_paused_state SystemState.running = false
is_paused_state SystemState.stopped = false
is_paused_state SystemState.killed = false

-- `self._active is reason`
abbrev pub is_reason : Option KillSwitchReason → KillSwitchReason → Bool
is_reason none r = false
is_reason (some q) r = value q =? value r

-- `by.lower().startswith(("llm", "agent", "system"))`
abbrev pub is_machine : Text → Bool
is_machine by = any (λ p. starts_with (lower by) p) (text "llm" ∷ text "agent" ∷ text "system" ∷ [])

module _ {W : Type 0} where
  -- `KillSwitch()`
  abbrev pub new : KillSwitch W
  new = record { reason = none; details = []; state = SystemState.running; triggered_at = none }

  unfoldable pub active : KillSwitch W → Bool
  active k = is_some_reason k.reason || is_halted k.state

  unfoldable pub paused : KillSwitch W → Bool
  paused k = is_paused_state k.state

  unfoldable pub guard : KillSwitch W → Result Raised (Unit {0})
  unfolding active paused
  guard k =
      if active k
      then err Raised.kill_switch_active
      else (if paused k then err Raised.system_paused else ok tt)

  -- A transaction of `audit` at the end of a call, and what follows it.
  abbrev pub audited :
      Bool → W → Text → Text → (World W → World W) → KillSwitch W → World W → Outcome W
  audited commits now action by rest k w =
      elim (audit commits now action by (some (text "system")) w) [
        | none ↦ record { switch = k; world = w; result = err Raised.db_error }
        | some w' ↦ record { switch = k; world = rest w'; result = ok tt }
      ]

  -- The block of `trigger` under `try`: a failure of the database is logged and passed over.
  abbrev pub persist_trigger : Bool → W → KillSwitchReason → Text → Details → World W → World W
  persist_trigger commits now reason by details w =
      elim (session_scope commits
        (λ v.
          set_state_record now state_key (value SystemState.killed) by
            ((text "reason", value reason) ∷ [])
            (add_kill_switch_event now (value reason) by details v))
        w) [ none ↦ w | some w' ↦ w' ]

  unfoldable pub trigger :
      (persisted audit_ok : Bool)
      → W
      → KillSwitchReason
      → Text
      → Details
      → KillSwitch W
      → World W
      → Outcome W
  unfolding audit
  trigger persisted audit_ok now reason by details k w =
      if is_reason k.reason reason
      then record { switch = k; world = w; result = ok tt }
      else audited audit_ok now (text "kill_switch_triggered") by
          (emit EventType.kill_switch_triggered)
          (record {
            reason = some reason;
            details = details;
            state = SystemState.killed;
            triggered_at = some now;
          })
          (persist_trigger persisted now reason by details w)

  -- A transaction that raises where it does not commit, and the audit that follows it.
  abbrev pub committed :
      (persisted audit_ok : Bool)
      → W
      → Text
      → Text
      → (World W → World W)
      → KillSwitch W
      → World W
      → Outcome W
  committed persisted audit_ok now action by block k w = elim (session_scope persisted block w) [
    | none ↦ record { switch = k; world = w; result = err Raised.db_error }
    | some w' ↦ audited audit_ok now action by (λ v. v) k w'
  ]

  unfoldable pub clear : (persisted audit_ok : Bool) → W → Text → KillSwitch W → World W → Outcome W
  unfolding audit
  clear persisted audit_ok now by k w =
      if is_machine by
      then record { switch = k; world = w; result = err Raised.human_required }
      else committed persisted audit_ok now (text "kill_switch_cleared") by
          (λ v.
            set_state_record now state_key (value SystemState.running) by []
              (clear_kill_switch now by v))
          (record k { reason = none; details = []; state = SystemState.running }) w

  -- `self._state = state`, and a return to `running` drops the reason.
  abbrev pub with_state : SystemState → KillSwitch W → KillSwitch W
  with_state SystemState.running k = record k { reason = none; state = SystemState.running }
  with_state SystemState.paused k = record k { state = SystemState.paused }
  with_state SystemState.stopped k = record k { state = SystemState.stopped }
  with_state SystemState.killed k = record k { state = SystemState.killed }

  unfoldable pub set_state :
      (persisted audit_ok : Bool) → W → SystemState → Text → KillSwitch W → World W → Outcome W
  unfolding audit
  set_state persisted audit_ok now state by k w =
      committed persisted audit_ok now (text "execution_mode_changed") by
        (set_state_record now state_key (value state) by []) (with_state state k) w

  -- `self._state = SystemState(state or "RUNNING")`; an unknown string raises, which is passed over.
  abbrev pub load_state : Text → KillSwitch W → KillSwitch W
  load_state [] k = record k { state = SystemState.running }
  load_state (c ∷ s) k = elim (of_value {E = SystemState} (c ∷ s)) [
    | none ↦ k
    | some state ↦ record k { state = state }
  ]

  -- `self._active = KillSwitchReason(active.reason)`, which raises before any assignment.
  abbrev pub load_reason : Option KillSwitchReason → Details → Text → KillSwitch W → KillSwitch W
  load_reason none details state k = k
  load_reason (some r) details state k =
      load_state state (record k { reason = some r; details = details })

  abbrev pub load_event : Option (KillSwitchEvent W) → Text → KillSwitch W → KillSwitch W
  load_event none state k = load_state state k
  load_event (some e) state k = load_reason (of_value e.reason) e.details state k

  -- `load`, by whether the database answers.
  unfoldable pub load : Bool → World W → KillSwitch W → KillSwitch W
  load false w k = k
  load true w k =
      load_event (active_kill_switch w) (get_state state_key (value SystemState.running) w) k
