-- ===== src/Examples/Bus.antt =====
-- A bus with two subscribers, src/core/bus.py.
use sibilla.Base.{
  none, ℕ, ◌+◌, ◌-◌, ◌==◌, Text, text, List, [], ◌∷◌, ◌++◌, length, drop, true, false, ◌≡◌, refl,
  if◌then◌else◌, arith,
}
use sibilla.Enums.News.{EventType}
use sibilla.Bus.{
  Bus, BusEvent, Outcome, Action, new_bus, run, step, publish, subscribe, take_next, take_from,
  is_drained, pending, max_history, subscribed, published, taken, finished, stopped,
}
use sibilla.Bus.Queue.{accepted, consumed, run-queue}
use sibilla.Bus.History.{publications, run-history}
use sibilla.Bus.Drain.{rounds, owed_for, owed_in, run-drained, run-stuck}

abbrev event : EventType → ℕ → BusEvent ℕ Text
event t n = record { type_ = t; ts = n; payload = text "{}"; source = text "system" }

-- The second handler raises.
abbrev outcomes : ℕ → Outcome
outcomes n = if n == 2 then Outcome.raised else Outcome.returned

abbrev acts : List (Action ℕ Text ℕ)
acts =
    subscribed EventType.alert 1
    ∷ subscribed EventType.alert 2
    ∷ published (event EventType.alert 10)
    ∷ published (event EventType.config_changed 11)
    ∷ published (event EventType.alert 12)
    ∷ taken
    ∷ []

abbrev bus : Bus (BusEvent ℕ Text) ℕ
bus = run acts new_bus

run-queue_example :
    ((new_bus {E = BusEvent ℕ Text} {H = ℕ}).queue ++ accepted acts new_bus)
    ≡ consumed acts new_bus ++ (run acts new_bus).queue
run-queue_example = run-queue acts new_bus

run-history_example :
    (run acts new_bus).history ≡ drop (length (publications acts) - max_history) (publications acts)
run-history_example = run-history acts

run-drained_example :
    let d = run (rounds (pending bus) outcomes) bus in
    (is_drained d ≡ true)
    × (d.delivered + d.errors
        ≡ bus.delivered + bus.errors + owed_for bus.in_flight + owed_in bus.queue bus.handlers)
unfolding run step publish subscribe take_next take_from
run-drained_example = run-drained outcomes acts (λ n. ground arith) refl

run-stuck_example :
    let d = run (finished (λ n. Outcome.refused) ∷ (taken ∷ (stopped ∷ []))) bus in
    (is_drained d ≡ false)
    × (((d.consuming ≡ false) × (d.in_flight ≡ none))
        × ((d.queue ≡ bus.queue) × (d.unfinished ≡ 1)))
unfolding run step publish subscribe take_next take_from
run-stuck_example =
    run-stuck (λ n. Outcome.refused) bus (event EventType.alert 10) (1 ∷ (2 ∷ [])) 1
      (taken ∷ (stopped ∷ [])) refl refl refl (omega arith) refl
