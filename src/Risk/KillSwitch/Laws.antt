-- ===== src/Risk/KillSwitch/Laws.antt =====
-- What blocks an execution in src/risk/kill_switch.py, and who may lift it.
use sibilla.Base.{
  Text, Bool, true, false, ◌≡◌, refl, Option, none, some, List, [], ◌∷◌, All, err, arith, ◌≢◌,
}
use sibilla.Enums.StrEnum.{value, of_value}
use sibilla.Enums.State.{KillSwitchReason, kill_switch_reason_enum, SystemState, system_state_enum}
use sibilla.Store.{World, Details, KillSwitchEvent, active_kill_switch, get_state}
use sibilla.Risk.KillSwitch.{
  KillSwitch, Raised, Outcome, guard, is_some_reason, is_machine, is_reason, trigger, clear,
  set_state, load, load_state, load_reason, load_event, state_key,
}

-- `trigger` blocks execution at once, whether or not its two transactions commit.
pub trigger-guard :
    {W : Type 0} (persisted audit_ok : Bool) (now : W) (r : KillSwitchReason) (by : Text)
    (details : Details) (k : KillSwitch W) (w : World W)
    → guard (trigger persisted audit_ok now r by details k w).switch ≡ err Raised.kill_switch_active
unfolding guard trigger
trigger-guard persisted audit_ok now r by details k w = ground arith

-- A machine actor's `clear` raises and leaves the switch and the database as they were.
pub clear_machine :
    {W : Type 0} (persisted audit_ok : Bool) (now : W) (by : Text) (k : KillSwitch W) (w : World W)
    → is_machine by ≡ true
    → let o = clear persisted audit_ok now by k w in
      (o.switch ≡ k) × (o.world ≡ w) × (o.result ≡ err Raised.human_required)
unfolding clear
clear_machine persisted audit_ok now by k w h = rw h (refl, refl, refl)

-- Where its audit fails, `trigger` for a reason that is not yet active blocks, raises, and puts
-- nothing on the bus, whether or not the event is persisted.
pub trigger_unaudited :
    {W : Type 0} (persisted : Bool) (now : W) (r : KillSwitchReason) (by : Text) (details : Details)
    (k : KillSwitch W) (w : World W)
    → is_reason k.reason r ≡ false
    → let o = trigger persisted false now r by details k w in
      (guard o.switch ≡ err Raised.kill_switch_active)
      × (o.result ≡ err Raised.db_error)
      × (o.world.emitted ≡ w.emitted)
unfolding guard trigger
trigger_unaudited true now r by details k w h = ground arith
trigger_unaudited false now r by details k w h = ground arith

-- The calls on a switch, each with its time and the outcome of its transactions.
pub data Call (W : Type 0) : Type 0 where
  trip : Bool → Bool → W → KillSwitchReason → Text → Details → Call W
  lift : Bool → Bool → W → Text → Call W
  put : Bool → Bool → W → SystemState → Text → Call W
  reload : Bool → Call W

module _ {W : Type 0} where
  abbrev pub after : Outcome W → KillSwitch W × World W
  after o = (o.switch, o.world)

  unfoldable pub perform : Call W → KillSwitch W × World W → KillSwitch W × World W
  perform (trip p a now r by details) (k, w) = after (trigger p a now r by details k w)
  perform (lift p a now by) (k, w) = after (clear p a now by k w)
  perform (put p a now state by) (k, w) = after (set_state p a now state by k w)
  perform (reload answers) (k, w) = (load answers w k, w)

  unfoldable pub run : List (Call W) → KillSwitch W × World W → KillSwitch W × World W
  run [] s = s
  run (c ∷ cs) s = run cs (perform c s)

  -- A call that a machine may make, other than a return to `running`.
  abbrev pub KeepsBlock : Call W → Type 0
  KeepsBlock (trip _ _ _ _ _ _) = Unit
  KeepsBlock (lift _ _ _ by) = is_machine by ≡ true
  KeepsBlock (put _ _ _ state _) = state ≢ SystemState.running
  KeepsBlock (reload _) = Unit

  abbrev pub HasReason : KillSwitch W → Type 0
  HasReason k = is_some_reason k.reason ≡ true

  pub HasReason-guard : (k : KillSwitch W) → HasReason k → guard k ≡ err Raised.kill_switch_active
  unfolding guard
  HasReason-guard k h = rw h

  pub load_state-reason : (s : Text) (k : KillSwitch W) → (load_state s k).reason ≡ k.reason
  load_state-reason [] k = refl
  load_state-reason (c ∷ s) k = ground arith

  load_reason-HasReason :
      (r : Option KillSwitchReason) (details : Details) (s : Text) (k : KillSwitch W)
      → HasReason k
      → HasReason (load_reason r details s k)
  load_reason-HasReason none details s k h = h
  load_reason-HasReason (some r) details s k h =
      rw (load_state-reason s (record k { reason = some r; details = details }))

  load_event-HasReason :
      (e : Option (KillSwitchEvent W)) (s : Text) (k : KillSwitch W)
      → HasReason k
      → HasReason (load_event e s k)
  load_event-HasReason none s k h = rw (load_state-reason s k) h
  load_event-HasReason (some e) s k h = load_reason-HasReason (of_value e.reason) e.details s k h

  -- A reload never drops a reason.
  load-HasReason :
      (answers : Bool) (w : World W) (k : KillSwitch W) → HasReason k → HasReason (load answers w k)
  unfolding load
  load-HasReason false w k h = h
  load-HasReason true w k h =
      load_event-HasReason (active_kill_switch w)
        (get_state state_key (value SystemState.running) w) k h

  perform-HasReason :
      (c : Call W) (s : KillSwitch W × World W)
      → KeepsBlock c
      → HasReason s.0
      → HasReason (perform c s).0
  unfolding perform trigger clear set_state load
  perform-HasReason (trip p a now r by details) (k, w) c h = ground arith
  perform-HasReason (lift p a now by) (k, w) c h = rw c h
  perform-HasReason (put p a now SystemState.running by) (k, w) c h = absurd (c refl)
  perform-HasReason (put p a now SystemState.paused by) (k, w) c h = ground arith
  perform-HasReason (put p a now SystemState.stopped by) (k, w) c h = ground arith
  perform-HasReason (put p a now SystemState.killed by) (k, w) c h = ground arith
  perform-HasReason (reload answers) (k, w) c h = load-HasReason answers w k h

  run-HasReason :
      (cs : List (Call W)) (s : KillSwitch W × World W)
      → All KeepsBlock cs
      → HasReason s.0
      → HasReason (run cs s).0
  unfolding run
  run-HasReason [] s cs h = h
  run-HasReason (c ∷ cs) s (keeps, rest) h =
      run-HasReason cs (perform c s) rest (perform-HasReason c s keeps h)

  -- A switch with a reason stays blocked over any sequence of trips, reloads, changes to another
  -- state than `running`, and attempts of machine actors to clear it, whatever the database does. A change to `running`, which lifts the block for any actor, is
  -- not among these calls.
  pub run-guard :
      (cs : List (Call W)) (k : KillSwitch W) (w : World W)
      → All KeepsBlock cs
      → HasReason k
      → guard (run cs (k, w)).0 ≡ err Raised.kill_switch_active
  run-guard cs k w keeps h = HasReason-guard (run cs (k, w)).0 (run-HasReason cs (k, w) keeps h)
