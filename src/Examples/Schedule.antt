-- ===== src/Examples/Schedule.antt =====
-- An afternoon of the main loop, src/workers/etoro_runner.py.
use sibilla.Base.{ℕ, ◌+◌, ◌≤◌, text, [], ◌∷◌, none, refl}
use sibilla.Etoro.Runner.Schedule.{Tick, actions, closings, actions-closings}

-- A Tuesday at a number of seconds past 15:40 in New York.
abbrev tuesday : ℕ → Tick
tuesday seconds = record { weekday = 1; seconds = 56_400 + seconds; today = text "2026-09-01" }

actions-closings_example :
    closings (actions none (tuesday 0 ∷ tuesday 300 ∷ tuesday 600 ∷ tuesday 3000 ∷ [])) ≤ 1
actions-closings_example =
    actions-closings none (text "2026-09-01")
      (tuesday 0 ∷ tuesday 300 ∷ tuesday 600 ∷ tuesday 3000 ∷ []) (refl, (refl, (refl, (refl, tt))))
