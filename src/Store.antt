-- ===== src/Store.antt =====
-- The tables of src/core/models.py that the kill switch and the limits write, the queries of
-- src/core/repository.py on them, the transaction of src/core/db.py and `audit` of
-- src/core/audit.py. Rows are kept newest first, as the queries order them; the database itself is
-- not under the sources, so whether a transaction goes through is an argument.
use sibilla.Base.{
  Text, List, [], ◌∷◌, Option, none, some, Bool, Dict, lookup, insert, text_key, if◌then◌else◌,
}
use sibilla.Enums.News.{EventType}

abbrev pub Details : Type 0
Details = Dict Text Text

pub record KillSwitchEvent (W : Type 0) : Type 0 where
  pub ts : W
  pub reason : Text
  pub triggered_by : Text
  pub details : Details
  pub cleared_at : Option W
  pub cleared_by : Option Text

pub record SystemStateRecord (W : Type 0) : Type 0 where
  pub value : Text
  pub details : Details
  pub updated_by : Text
  pub updated_at : W

pub record AuditLog (W : Type 0) : Type 0 where
  pub ts : W
  pub action : Text
  pub actor : Text
  pub entity : Option Text

-- The database, and the events that were put on the bus.
pub record World (W : Type 0) : Type 0 where
  pub kill_switch_events : List (KillSwitchEvent W)
  pub system_states : Dict Text (SystemStateRecord W)
  pub audit_log : List (AuditLog W)
  pub emitted : List EventType

module _ {W : Type 0} where
  abbrev pub add_kill_switch_event : W → Text → Text → Details → World W → World W
  add_kill_switch_event now reason triggered_by details w =
      let event : KillSwitchEvent W = record {
        ts = now;
        reason = reason;
        triggered_by = triggered_by;
        details = details;
        cleared_at = none;
        cleared_by = none;
      } in
      record w { kill_switch_events = event ∷ w.kill_switch_events }

  abbrev pub first_open : List (KillSwitchEvent W) → Option (KillSwitchEvent W)
  first_open [] = none
  first_open (e ∷ es) = elim e.cleared_at [ none ↦ some e | some _ ↦ first_open es ]

  -- The newest event that was not cleared.
  abbrev pub active_kill_switch : World W → Option (KillSwitchEvent W)
  active_kill_switch w = first_open w.kill_switch_events

  abbrev pub clear_event : W → Text → KillSwitchEvent W → KillSwitchEvent W
  clear_event now by e = elim e.cleared_at [
    | none ↦ record e { cleared_at = some now; cleared_by = some by }
    | some _ ↦ e
  ]

  abbrev pub clear_events : W → Text → List (KillSwitchEvent W) → List (KillSwitchEvent W)
  clear_events now by [] = []
  clear_events now by (e ∷ es) = clear_event now by e ∷ clear_events now by es

  abbrev pub clear_kill_switch : W → Text → World W → World W
  clear_kill_switch now by w = record w {
    kill_switch_events = clear_events now by w.kill_switch_events;
  }

  abbrev pub set_state_record : W → Text → Text → Text → Details → World W → World W
  set_state_record now key value by details w =
      let row : SystemStateRecord W = record {
        value = value;
        details = details;
        updated_by = by;
        updated_at = now;
      } in
      record w { system_states = insert key row w.system_states }

  abbrev pub value_or : Text → Option (SystemStateRecord W) → Text
  value_or default none = default
  value_or default (some r) = r.value

  abbrev pub get_state : Text → Text → World W → Text
  get_state key default w = value_or default (lookup key w.system_states)

  -- `session_scope`: the block's writes are committed together, or the call raises and none is kept.
  abbrev pub session_scope : Bool → (World W → World W) → World W → Option (World W)
  session_scope commits block w = if commits then some (block w) else none

  unfoldable pub audit : Bool → W → Text → Text → Option Text → World W → Option (World W)
  audit commits now action actor entity = session_scope commits λ w. record w {
    audit_log = record { ts = now; action = action; actor = actor; entity = entity } ∷ w.audit_log;
  }

  -- `emit` on the in-memory bus.
  abbrev pub emit : EventType → World W → World W
  emit event w = record w { emitted = event ∷ w.emitted }
