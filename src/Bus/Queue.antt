-- ===== src/Bus/Queue.antt =====
-- The queue of `InMemoryBus`, src/core/bus.py: what is accepted is taken once and in order, and the
-- count on which `drain` waits is that of the events not finished.
use mathlib.Core.List.{append-nil, append_assoc}
use sibilla.Base.{
  ℕ, ◌+◌, List, [], ◌∷◌, ◌++◌, length, length-append, any, map, nil_of-length, &&-split, Option,
  none, some, true, Bool-cases, inl, inr, ◌&&◌, ◌≡◌, refl, sym, ap, ◌∙◌, ==_iff, ◌↔◌, if◌then◌else◌,
  arith,
}
use sibilla.Bus.{
  Bus, new_bus, BusEvent, Outcome, Action, is_refused, is_empty, is_idle, handlers_of, subscribe,
  publish, start, take_from, take_next, finish_with, finish, is_drained, stop, step, run,
  subscribed, published, started, taken, finished, stopped,
}

abbrev pub first_of : {E : Type 0} → List E → List E
first_of [] = []
first_of (e ∷ es) = e ∷ []

module _ {T P H : Type 0} where
  -- The events that an action puts in the queue, and those that it takes from it.
  abbrev pub accepts : Action T P H → Bus (BusEvent T P) H → List (BusEvent T P)
  accepts (published e) b = if is_empty (handlers_of e.type_ b) then [] else (e ∷ [])
  accepts _ b = []

  abbrev pub takes : Action T P H → Bus (BusEvent T P) H → List (BusEvent T P)
  takes taken b = if b.consuming && is_idle b.in_flight then first_of b.queue else []
  takes _ b = []

  abbrev pub accepted : List (Action T P H) → Bus (BusEvent T P) H → List (BusEvent T P)
  unfolding step
  accepted [] b = []
  accepted (a ∷ acts) b = accepts a b ++ accepted acts (step a b)

  abbrev pub consumed : List (Action T P H) → Bus (BusEvent T P) H → List (BusEvent T P)
  unfolding step
  consumed [] b = []
  consumed (a ∷ acts) b = takes a b ++ consumed acts (step a b)

  finish_with-queue :
      (o : H → Outcome) (f : Option (BusEvent T P × List H)) (b : Bus (BusEvent T P) H)
      → (finish_with o f b).queue ≡ b.queue
  unfolding finish_with
  finish_with-queue o none b = refl
  finish_with-queue o (some (e, hs)) b = ground arith

  stop-queue : (b : Bus (BusEvent T P) H) → (stop b).queue ≡ b.queue
  unfolding stop
  stop-queue b = ground arith

  take_from-queue :
      (es : List (BusEvent T P)) (b : Bus (BusEvent T P) H)
      → b.queue ≡ es
      → es ≡ first_of es ++ (take_from es b).queue
  unfolding take_from
  take_from-queue [] b h = sym h
  take_from-queue (e ∷ es) b h = refl

  step-queue :
      (a : Action T P H) (b : Bus (BusEvent T P) H)
      → b.queue ++ accepts a b ≡ takes a b ++ (step a b).queue
  unfolding step subscribe start publish take_next finish
  step-queue (subscribed t h) b = append-nil b.queue
  step-queue (published e) b = elim (Bool-cases (is_empty (handlers_of e.type_ b))) [
    | inl none_ ↦ rw (none_, publish) (append-nil b.queue)
    | inr some_ ↦ rw (some_, publish) refl
  ]
  step-queue started b = append-nil b.queue
  step-queue taken b = elim (Bool-cases (b.consuming && is_idle b.in_flight)) [
    | inl free ↦ rw (free, take_next) (append-nil b.queue ∙ take_from-queue b.queue b refl)
    | inr busy ↦ rw (busy, take_next) (append-nil b.queue)
  ]
  step-queue (finished o) b = append-nil b.queue ∙ sym (finish_with-queue o b.in_flight b)
  step-queue stopped b = append-nil b.queue ∙ sym (stop-queue b)

  -- Over any sequence of actions, the events that waited and those that were accepted are the ones
  -- that the consumer took, and after them the ones that wait: each once and in their order.
  pub run-queue :
      (acts : List (Action T P H)) (b : Bus (BusEvent T P) H)
      → b.queue ++ accepted acts b ≡ consumed acts b ++ (run acts b).queue
  unfolding run
  run-queue [] b = append-nil b.queue
  run-queue (a ∷ acts) b =
      sym (append_assoc b.queue (accepts a b) (accepted acts (step a b)))
      ∙ ap (λ q. q ++ accepted acts (step a b)) (step-queue a b)
      ∙ append_assoc (takes a b) (step a b).queue (accepted acts (step a b))
      ∙ ap (◌++◌ (takes a b)) (run-queue acts (step a b))
      ∙ sym (append_assoc (takes a b) (consumed acts (step a b)) (run acts (step a b)).queue)

  abbrev pub in_hand : Option (BusEvent T P × List H) → ℕ
  in_hand none = 0
  in_hand (some _) = 1

  -- The count of `asyncio.Queue` is that of the events that wait or are being handled.
  abbrev pub IsCounted : Bus (BusEvent T P) H → Type 0
  IsCounted b = b.unfinished ≡ length b.queue + in_hand b.in_flight

  take_from-IsCounted :
      (es : List (BusEvent T P)) (b : Bus (BusEvent T P) H)
      → b.queue ≡ es
      → b.in_flight ≡ none
      → IsCounted b
      → IsCounted (take_from es b)
  unfolding take_from
  take_from-IsCounted [] b q f h = h
  take_from-IsCounted (e ∷ es) b q f h = omega (arith, ap length q, ap in_hand f, h)

  idle-none : (f : Option (BusEvent T P × List H)) → is_idle f ≡ true → f ≡ none
  idle-none none h = refl
  idle-none (some f) h = ground arith

  take_next-IsCounted : (b : Bus (BusEvent T P) H) → IsCounted b → IsCounted (take_next b)
  unfolding take_next
  take_next-IsCounted b h = elim (Bool-cases (b.consuming && is_idle b.in_flight)) [
    | inl free ↦
        rw (free, take_next)
          (take_from-IsCounted b.queue b refl
            (idle-none b.in_flight (&&-split b.consuming (is_idle b.in_flight) free).1) h)
    | inr busy ↦ rw (busy, take_next) h
  ]

  finish_with-IsCounted :
      (o : H → Outcome) (f : Option (BusEvent T P × List H)) (b : Bus (BusEvent T P) H)
      → b.in_flight ≡ f
      → IsCounted b
      → IsCounted (finish_with o f b)
  unfolding finish_with
  finish_with-IsCounted o none b f h = h
  finish_with-IsCounted o (some (e, hs)) b f h = elim (Bool-cases (any is_refused (map o hs))) [
    | inl broke ↦ rw (broke, finish_with) (omega (arith, ap in_hand f, h))
    | inr done ↦ rw (done, finish_with) (omega (arith, ap in_hand f, h))
  ]

  step-IsCounted :
      (a : Action T P H) (b : Bus (BusEvent T P) H) → IsCounted b → IsCounted (step a b)
  unfolding step subscribe start publish take_next finish stop finish_with
  step-IsCounted (subscribed t k) b h = h
  step-IsCounted (published e) b h = ground (arith, length-append b.queue (e ∷ []))
  step-IsCounted started b h = h
  step-IsCounted taken b h = take_next-IsCounted b h
  step-IsCounted (finished o) b h = finish_with-IsCounted o b.in_flight b refl h
  step-IsCounted stopped b h = ground arith

  pub run-IsCounted :
      (acts : List (Action T P H)) (b : Bus (BusEvent T P) H) → IsCounted b → IsCounted (run acts b)
  unfolding run
  run-IsCounted [] b h = h
  run-IsCounted (a ∷ acts) b h = run-IsCounted acts (step a b) (step-IsCounted a b h)

  idle_of-in_hand : (f : Option (BusEvent T P × List H)) → in_hand f ≡ 0 → f ≡ none
  idle_of-in_hand none h = refl
  idle_of-in_hand (some f) h = absurd (omega (arith, h))

  -- After any sequence of actions on a new bus, `drain` returns if and only if no event waits and
  -- none is being handled.
  pub run-is_drained :
      (acts : List (Action T P H))
      → let b = run acts new_bus in (is_drained b ≡ true) ↔ ((b.queue ≡ []) × (b.in_flight ≡ none))
  unfolding is_drained
  run-is_drained acts =
      let b = run acts new_bus in
      let counted = run-IsCounted acts new_bus refl in
      (
        λ h. (
          nil_of-length b.queue (omega (arith, counted, (==_iff b.unfinished 0).0 h)),
          idle_of-in_hand b.in_flight (omega (arith, counted, (==_iff b.unfinished 0).0 h)),
        ),
        λ (q, f). (==_iff b.unfinished 0).1 (omega (arith, counted, ap length q, ap in_hand f)),
      )
