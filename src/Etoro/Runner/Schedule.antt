-- ===== src/Etoro/Runner/Schedule.antt =====
-- The market hours of src/workers/etoro_runner.py and the turns of its main loop. A turn takes the
-- weekday and the seconds since midnight in New York, and the date in UTC.
use sibilla.Base.{
  ℕ, suc, ◌≤◌, Text, ◌=?◌, =?_iff, List, [], ◌∷◌, All, Option, none, some, Bool, inl, inr, true,
  false, not, ◌&&◌, leb, ltb, ◌≡◌, ◌≢◌, refl, sym, ap, subst, ◌⊎◌, ◌∙◌, if◌then◌else◌, arith,
}

pub record Tick : Type 0 where
  pub weekday : ℕ
  pub seconds : ℕ
  pub today : Text

-- What a turn does before it waits.
pub data Action : Type 0 where
  close_all cycle idle : Action

unfoldable pub is_market_open : Tick → Bool
is_market_open t = if leb 5 t.weekday then false else leb 34_200 t.seconds && ltb t.seconds 57_600

unfoldable pub is_time_stop : Tick → Bool
is_time_stop t = leb 56_400 t.seconds

-- `already_time_stopped_today != today`
abbrev pub is_new_day : Option Text → Text → Bool
is_new_day none today = true
is_new_day (some day) today = not (day =? today)

-- A turn of the loop, and `already_time_stopped_today` after it.
unfoldable pub loop_turn : Option Text → Tick → Action × Option Text
loop_turn already t =
    if is_time_stop t && is_new_day already t.today
    then (close_all, some t.today)
    else (if is_market_open t then (cycle, already) else (idle, already))

unfoldable pub actions : Option Text → List Tick → List Action
unfolding loop_turn
actions already [] = []
actions already (t ∷ ts) = (loop_turn already t).0 ∷ actions (loop_turn already t).1 ts

-- How often positions are closed.
abbrev pub closings : List Action → ℕ
closings [] = 0
closings (close_all ∷ rest) = suc (closings rest)
closings (cycle ∷ rest) = closings rest
closings (idle ∷ rest) = closings rest

=?_refl : (s : Text) → (s =? s) ≡ true
=?_refl s = (=?_iff s s).1 refl

loop_turn-stopped :
    (day : Text) (t : Tick)
    → t.today ≡ day
    → ((loop_turn (some day) t).0 ≢ close_all) × ((loop_turn (some day) t).1 ≡ some day)
unfolding loop_turn
loop_turn-stopped day t same = ground (arith, =?_refl day)

closings-cons :
    (a : Action) (rest : List Action) → a ≢ close_all → closings (a ∷ rest) ≡ closings rest
closings-cons close_all rest h = absurd (h refl)
closings-cons cycle rest h = refl
closings-cons idle rest h = refl

closings-stopped :
    (day : Text) (ts : List Tick)
    → All (λ t. t.today ≡ day) ts
    → closings (actions (some day) ts) ≡ 0
unfolding actions
closings-stopped day [] h = refl
closings-stopped day (t ∷ ts) (same, h) =
    let (open_, kept) = loop_turn-stopped day t same in
    closings-cons (loop_turn (some day) t).0 (actions (loop_turn (some day) t).1 ts) open_
    ∙ ap (λ x. closings (actions x ts)) kept
    ∙ closings-stopped day ts h

loop_turn-new :
    (already : Option Text) (t : Tick)
    → ((loop_turn already t ≡ (close_all, some t.today))
        ⊎ (((loop_turn already t).0 ≢ close_all) × ((loop_turn already t).1 ≡ already)))
unfolding loop_turn
loop_turn-new already t = ground arith

-- On one date the loop closes the positions at most once, whatever it did before.
pub actions-closings :
    (already : Option Text) (day : Text) (ts : List Tick)
    → All (λ t. t.today ≡ day) ts
    → closings (actions already ts) ≤ 1
unfolding actions
actions-closings already day [] h = omega arith
actions-closings already day (t ∷ ts) (same, h) = elim (loop_turn-new already t) [
  | inl closed ↦
      let none_more : closings (actions (some t.today) ts) ≡ 0 =
        subst (λ d. closings (actions (some d) ts) ≡ 0) (sym same) (closings-stopped day ts h) in
      subst (λ r. closings (r.0 ∷ actions r.1 ts) ≤ 1) (sym closed) (omega (arith, none_more))
  | inr (other, kept) ↦
      subst (λ n. n ≤ 1)
        (sym (
          closings-cons (loop_turn already t).0 (actions (loop_turn already t).1 ts) other
          ∙ ap (λ x. closings (actions x ts)) kept))
        (actions-closings already day ts h)
]

-- After the positions were closed on a weekday between 15:40 and 16:00, a later turn of the same date
-- before 16:00 runs a cycle, which may open positions again.
pub loop_turn-reopens :
    (already : Option Text) (stop next : Tick)
    → is_new_day already stop.today ≡ true
    → is_time_stop stop ≡ true
    → next.today ≡ stop.today
    → is_market_open next ≡ true
    → ((loop_turn already stop).0 ≡ close_all)
      × ((loop_turn (loop_turn already stop).1 next).0 ≡ cycle)
unfolding loop_turn
loop_turn-reopens already stop next fresh late same market = ground (arith, =?_refl stop.today)
