-- ===== src/Bus.antt =====
-- `BusEvent` and `InMemoryBus` of src/core/bus.py. What runs between two suspensions of the event loop
-- is one action: a publication, the consumer's taking of an event, the end of its handlers. The payload
-- and the handlers are parameters; what a handler itself publishes is an action among the others.
pub mod Queue
pub mod History
pub mod Drain
use sibilla.Base.{
  ℕ, suc, ◌+◌, ◌-◌, Text, List, [], ◌∷◌, ◌++◌, length, drop, map, select, count, any, Option, none,
  some, Bool, true, false, not, ◌&&◌, ◌==◌, ltb, Dict, get, insert, if◌then◌else◌,
}
use sibilla.Enums.News.{EventType, event_type_value}
use sibilla.Enums.Laws.{event_type_key}

pub record BusEvent (T P : Type 0) : Type 0 where
  pub type_ : EventType
  pub ts : T
  pub payload : P
  pub source : Text

-- How the call of a handler ends: it returns, raises an `Exception`, is cancelled, or the call gives
-- no awaitable at all but raises at once.
pub data Outcome : Type 0 where
  returned raised cancelled refused : Outcome

-- A queue or a consumer that does not exist yet is an empty one, or one that does not run. `unfinished`
-- is the count of `asyncio.Queue` on which `join` waits, `in_flight` what the consumer works on.
pub record Bus (E H : Type 0) : Type 0 where
  pub handlers : Dict EventType (List H)
  pub history : List E
  pub queue : List E
  pub in_flight : Option (E × List H)
  pub unfinished : ℕ
  pub consuming : Bool
  pub delivered : ℕ
  pub errors : ℕ

abbrev pub max_history : ℕ
max_history = 2000

abbrev pub is_error : Outcome → Bool
is_error Outcome.raised = true
is_error _ = false

abbrev pub is_refused : Outcome → Bool
is_refused Outcome.refused = true
is_refused _ = false

-- `if len(history) > max_history: del history[:-max_history]`
abbrev pub trimmed : {E : Type 0} → List E → List E
trimmed es = if ltb max_history (length es) then drop (length es - max_history) es else es

abbrev pub is_empty : {H : Type 0} → List H → Bool
is_empty [] = true
is_empty (h ∷ hs) = false

-- What may happen to a bus, in any order.
pub data Action (T P H : Type 0) : Type 0 where
  subscribed : EventType → H → Action T P H
  published : BusEvent T P → Action T P H
  started : Action T P H
  taken : Action T P H
  finished : (H → Outcome) → Action T P H
  stopped : Action T P H

module _ {E H : Type 0} where
  abbrev pub new_bus : Bus E H
  new_bus = record {
    handlers = [];
    history = [];
    queue = [];
    in_flight = none;
    unfinished = 0;
    consuming = false;
    delivered = 0;
    errors = 0;
  }

  abbrev pub handlers_of : EventType → Bus E H → List H
  handlers_of t b = get t [] b.handlers

  unfoldable pub subscribe : EventType → H → Bus E H → Bus E H
  subscribe t h b = record b { handlers = insert t (handlers_of t b ++ (h ∷ [])) b.handlers }

  -- `_ensure_consumer`, `start`
  unfoldable pub start : Bus E H → Bus E H
  start b = record b { consuming = true }

  -- The loop over the results of one event's handlers: what is not an `Exception` is delivered.
  abbrev pub add_results : List Outcome → Bus E H → Bus E H
  add_results results b = record b {
    errors = b.errors + count is_error results;
    delivered = b.delivered + count (λ r. not (is_error r)) results;
  }

  -- `task_done`
  abbrev pub task_done : Bus E H → Bus E H
  task_done b = record b { in_flight = none; unfinished = b.unfinished - 1 }

  -- `join` returns.
  unfoldable pub is_drained : Bus E H → Bool
  is_drained b = b.unfinished == 0

  unfoldable pub pending : Bus E H → ℕ
  pending b = length b.queue

  -- `stop`, which ends the consumer once the queue is drained; until then it waits. Nothing happens
  -- between the return of `join` and the cancellation.
  unfoldable pub stop : Bus E H → Bus E H
  unfolding is_drained
  stop b = if is_drained b then record b { consuming = false } else b

  -- The end of `gather` for the event in hand.
  unfoldable pub finish_with : (H → Outcome) → Option (E × List H) → Bus E H → Bus E H
  finish_with o none b = b
  finish_with o (some (e, hs)) b =
      if any is_refused (map o hs)
      then record (task_done b) { consuming = false }
      else task_done (add_results (map o hs) b)

  unfoldable pub finish : (H → Outcome) → Bus E H → Bus E H
  unfolding finish_with
  finish o b = finish_with o b.in_flight b

module _ {T P H : Type 0} where
  unfoldable pub publish : BusEvent T P → Bus (BusEvent T P) H → Bus (BusEvent T P) H
  publish e b =
      let kept = record b { history = trimmed (b.history ++ (e ∷ [])) } in
      if is_empty (handlers_of e.type_ b) then kept else record kept {
        consuming = true;
        queue = b.queue ++ (e ∷ []);
        unfinished = suc b.unfinished;
      }

  -- `await self._queue.get()`, and the handlers as they are then.
  unfoldable pub take_from : List (BusEvent T P) → Bus (BusEvent T P) H → Bus (BusEvent T P) H
  take_from [] b = b
  take_from (e ∷ es) b = record b { queue = es; in_flight = some (e, handlers_of e.type_ b) }

  abbrev pub is_idle : Option (BusEvent T P × List H) → Bool
  is_idle none = true
  is_idle (some _) = false

  unfoldable pub take_next : Bus (BusEvent T P) H → Bus (BusEvent T P) H
  unfolding take_from
  take_next b = if b.consuming && is_idle b.in_flight then take_from b.queue b else b

  unfoldable pub events_of : EventType → Bus (BusEvent T P) H → List (BusEvent T P)
  events_of t b = select (λ e. event_type_key.beq e.type_ t) b.history

  unfoldable pub step : Action T P H → Bus (BusEvent T P) H → Bus (BusEvent T P) H
  unfolding subscribe publish start take_next finish stop
  step (subscribed t h) b = subscribe t h b
  step (published e) b = publish e b
  step started b = start b
  step taken b = take_next b
  step (finished o) b = finish o b
  step stopped b = stop b

  unfoldable pub run : List (Action T P H) → Bus (BusEvent T P) H → Bus (BusEvent T P) H
  unfolding step
  run [] b = b
  run (a ∷ acts) b = run acts (step a b)
