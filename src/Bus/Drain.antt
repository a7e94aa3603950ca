-- ===== src/Bus/Drain.antt =====
-- `drain` and `stop` of `InMemoryBus`, src/core/bus.py: with a consumer that runs, the queue empties;
-- with one that a handler has ended, it does not.
use sibilla.Base.{
  ℕ, zero, suc, ◌+◌, Bool-cases, inl, inr, ◌==◌, List, [], ◌∷◌, length, any, map, count-not,
  length-map, Option, none, some, Bool, true, false, ◌≡◌, refl, sym, ap, ◌∙◌, ==_iff, &&-split,
  subst, ◌<◌, all, Dict, get, arith,
}
use sibilla.Enums.News.{EventType}
use sibilla.Enums.Laws.{event_type_key}
use sibilla.Bus.{
  Bus, new_bus, BusEvent, Outcome, Action, is_refused, is_error, handlers_of, subscribe, take_from,
  take_next, finish_with, finish, is_drained, stop, step, run, pending, published, subscribed,
  started, taken, finished, stopped,
}
use sibilla.Bus.Queue.{run-IsCounted, in_hand}

none-refused :
    {H : Type 0} (o : H → Outcome)
    → ((h : H) → is_refused (o h) ≡ false)
    → (hs : List H) → any is_refused (map o hs) ≡ false
none-refused o never [] = refl
none-refused o never (h ∷ hs) = ground (arith, never h, none-refused o never hs)

module _ {T P H : Type 0} where
  -- The consumer's loop: finish what is in hand, take the next event, n times.
  abbrev pub rounds : ℕ → (H → Outcome) → List (Action T P H)
  rounds zero o = finished o ∷ []
  rounds (suc n) o = finished o ∷ (taken ∷ rounds n o)

  -- The calls of handlers that the events in hand and in the queue are owed.
  abbrev pub owed_for : Option (BusEvent T P × List H) → ℕ
  owed_for none = 0
  owed_for (some (e, hs)) = length hs

  abbrev pub owed_in : List (BusEvent T P) → Dict EventType (List H) → ℕ
  owed_in [] d = 0
  owed_in (e ∷ es) d = length (get e.type_ [] d) + owed_in es d

  -- The bus after the end of the handlers in hand, where none refuses.
  abbrev IsFinished : Bus (BusEvent T P) H → Bus (BusEvent T P) H → Type 0
  IsFinished b d =
      ((d.queue ≡ b.queue) × (d.handlers ≡ b.handlers))
      × ((d.in_flight ≡ none) × (d.consuming ≡ b.consuming))
      × (d.delivered + d.errors ≡ b.delivered + b.errors + owed_for b.in_flight)

  finish_with-IsFinished :
      (o : H → Outcome) (f : Option (BusEvent T P × List H)) (b : Bus (BusEvent T P) H)
      → ((h : H) → is_refused (o h) ≡ false)
      → b.in_flight ≡ f
      → IsFinished b (finish_with o f b)
  unfolding finish_with
  finish_with-IsFinished o none b never f = ((refl, refl), (f, refl), omega (arith, ap owed_for f))
  finish_with-IsFinished o (some (e, hs)) b never f =
      rw (none-refused o never hs, finish_with)
        (
          (refl, refl),
          (refl, refl),
          omega (arith, ap owed_for f, count-not is_error (map o hs), length-map o hs),
        )

  take_next-taken :
      (e : BusEvent T P) (es : List (BusEvent T P)) (b : Bus (BusEvent T P) H)
      → b.queue ≡ e ∷ es
      → b.in_flight ≡ none
      → b.consuming ≡ true
      → take_next b ≡ record b { queue = es; in_flight = some (e, handlers_of e.type_ b) }
  unfolding take_next take_from
  take_next-taken e es b q f c = rw (q, f, c, take_next) refl

  run-rounds :
      (o : H → Outcome) (es : List (BusEvent T P)) (b : Bus (BusEvent T P) H)
      → ((h : H) → is_refused (o h) ≡ false)
      → b.queue ≡ es
      → b.consuming ≡ true
      → let d = run (rounds (length es) o) b in
        ((d.queue ≡ []) × (d.in_flight ≡ none))
        × (d.delivered + d.errors
            ≡ b.delivered + b.errors + owed_for b.in_flight + owed_in es b.handlers)
  unfolding run step finish
  run-rounds o [] b never q c =
      let ((q1, _), (f1, _), n1) = finish_with-IsFinished o b.in_flight b never refl in
      ((q1 ∙ q, f1), omega (arith, n1))
  run-rounds o (e ∷ es) b never q c =
      let ended = finish o b in
      let ((q1, h1), (f1, c1), n1) = finish_with-IsFinished o b.in_flight b never refl in
      let next = record ended { queue = es; in_flight = some (e, handlers_of e.type_ ended) } in
      let (idle, n) = run-rounds o es next never refl (c1 ∙ c) in
      let handlers = ap (λ d. length (get e.type_ [] d) + owed_in es d) h1 in
      let total = b.delivered + b.errors + owed_for b.in_flight + owed_in (e ∷ es) b.handlers in
      subst
        (λ x.
          let d = run (rounds (length es) o) x in
          ((d.queue ≡ []) × (d.in_flight ≡ none)) × (d.delivered + d.errors ≡ total))
        (sym (take_next-taken e es ended (q1 ∙ q) f1 (c1 ∙ c)))
        (idle, omega (arith, n, n1, handlers))

  -- After any sequence of actions on a new bus whose consumer runs, if no handler refuses its call:
  -- once the consumer has gone over the events that are pending, and if nothing more is published,
  -- `drain` returns, and every handler's call that was owed is counted, as delivered or as an error.
  pub run-drained :
      (o : H → Outcome) (acts : List (Action T P H))
      → ((h : H) → is_refused (o h) ≡ false)
      → (run acts new_bus).consuming ≡ true
      → let b = run acts new_bus in
        let d = run (rounds (pending b) o) b in
        (is_drained d ≡ true)
        × (d.delivered + d.errors
            ≡ b.delivered + b.errors + owed_for b.in_flight + owed_in b.queue b.handlers)
  unfolding is_drained pending
  run-drained o acts never c =
      let b = run acts new_bus in
      let d = run (rounds (pending b) o) b in
      let ((q, f), n) = run-rounds o b.queue b never refl c in
      let counted = run-IsCounted (rounds (pending b) o) b (run-IsCounted acts new_bus refl) in
      ((==_iff d.unfinished 0).1 (omega (arith, counted, ap length q, ap in_hand f)), n)

  -- What neither publishes nor starts.
  abbrev pub is_quiet : Action T P H → Bool
  is_quiet (published e) = false
  is_quiet started = false
  is_quiet _ = true

  -- The consumer has ended with `queue` left, and `unfinished` events are not done.
  abbrev pub IsStuck : List (BusEvent T P) → ℕ → Bus (BusEvent T P) H → Type 0
  IsStuck queue unfinished b =
      ((b.consuming ≡ false) × (b.in_flight ≡ none))
      × ((b.queue ≡ queue) × (b.unfinished ≡ unfinished))

  take_next-idle : (b : Bus (BusEvent T P) H) → b.consuming ≡ false → take_next b ≡ b
  unfolding take_next
  take_next-idle b c = ground arith

  finish_with-IsStuck :
      (o : H → Outcome) (e : BusEvent T P) (hs : List H) (b : Bus (BusEvent T P) H) (n : ℕ)
      → any is_refused (map o hs) ≡ true
      → b.unfinished ≡ suc n
      → IsStuck b.queue n (finish_with o (some (e, hs)) b)
  unfolding finish_with
  finish_with-IsStuck o e hs b n broke u =
      rw (broke, finish_with) ((refl, refl), (refl, omega (arith, u)))

  step-IsStuck :
      (a : Action T P H) (q : List (BusEvent T P)) (n : ℕ) (b : Bus (BusEvent T P) H)
      → is_quiet a ≡ true
      → 0 < n
      → IsStuck q n b
      → IsStuck q n (step a b)
  unfolding step subscribe take_next finish stop is_drained
  step-IsStuck (subscribed t h) q n b k m stuck = stuck
  step-IsStuck (published e) q n b k m stuck = ground arith
  step-IsStuck started q n b k m stuck = ground arith
  step-IsStuck taken q n b k m ((c, f), u) =
      subst (IsStuck q n) (sym (take_next-idle b c)) ((c, f), u)
  step-IsStuck (finished o) q n b k m ((c, f), u) =
      subst (λ g. IsStuck q n (finish_with o g b)) (sym f) ((c, f), u)
  step-IsStuck stopped q n b k m ((c, f), (w, u)) = elim (Bool-cases (b.unfinished == 0)) [
    | inl none_left ↦ absurd (omega (arith, m, u, (==_iff b.unfinished 0).0 none_left))
    | inr left ↦ rw (left, stop) ((c, f), (w, u))
  ]

  run-IsStuck :
      (acts : List (Action T P H)) (q : List (BusEvent T P)) (n : ℕ) (b : Bus (BusEvent T P) H)
      → all is_quiet acts ≡ true
      → 0 < n
      → IsStuck q n b
      → IsStuck q n (run acts b)
  unfolding run
  run-IsStuck [] q n b k m stuck = stuck
  run-IsStuck (a ∷ acts) q n b k m stuck =
      let (now, later) = &&-split (is_quiet a) (all is_quiet acts) k in
      run-IsStuck acts q n (step a b) later m (step-IsStuck a q n b now m stuck)

  -- A consumer that ended on an event while another one is not done leaves `drain` waiting for ever,
  -- over any actions that neither publish nor start the bus: the event whose handler refused its call
  -- is done and no other one is, nothing is in hand, the consumer does not run again, and the queue
  -- stays as it was.
  pub run-stuck :
      (o : H → Outcome) (b : Bus (BusEvent T P) H) (e : BusEvent T P) (hs : List H) (n : ℕ)
      (acts : List (Action T P H))
      → b.in_flight ≡ some (e, hs)
      → any is_refused (map o hs) ≡ true
      → b.unfinished ≡ suc n
      → 0 < n
      → all is_quiet acts ≡ true
      → let d = run (finished o ∷ acts) b in
        (is_drained d ≡ false)
        × (((d.consuming ≡ false) × (d.in_flight ≡ none))
            × ((d.queue ≡ b.queue) × (d.unfinished ≡ n)))
  unfolding is_drained run step finish
  run-stuck o b e hs n acts f broke u m quiet =
      let stuck =
        subst (λ g. IsStuck b.queue n (finish_with o g b)) (sym f)
          (finish_with-IsStuck o e hs b n broke u) in
      let (ended, (w, left)) = run-IsStuck acts b.queue n (finish o b) quiet m stuck in
      (ground arith, (ended, (w, left)))
