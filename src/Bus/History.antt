-- ===== src/Bus/History.antt =====
-- The history that `InMemoryBus` of src/core/bus.py keeps.
use sibilla.Base.{
  ◌-◌, List, [], ◌∷◌, ◌++◌, length, length-append, length-drop, drop, append-drop, drop-drop,
  Option, none, some, Bool-cases, inl, inr, ltb, ◌≡◌, refl, sym, ap, ◌∙◌, arith,
}
use mathlib.Core.List.{append-nil, append_assoc}
use sibilla.Bus.{
  Bus, new_bus, BusEvent, Outcome, Action, max_history, trimmed, subscribe, publish, start,
  take_from, take_next, finish_with, finish, stop, step, run, published, subscribed, started, taken,
  finished, stopped,
}

trimmed-drop : {E : Type 0} (xs : List E) → trimmed xs ≡ drop (length xs - max_history) xs
trimmed-drop xs = elim (Bool-cases (ltb max_history (length xs))) [
  | inl long ↦ rw (long) refl
  | inr short ↦ rw (short) (ap (λ n. drop n xs) {x = 0} (ground arith))
]

-- Cutting before more is added does not change what is left.
trimmed-append : {E : Type 0} (xs ys : List E) → trimmed (trimmed xs ++ ys) ≡ trimmed (xs ++ ys)
trimmed-append xs ys =
    let k = length xs - max_history in
    ap (λ zs. trimmed (zs ++ ys)) (trimmed-drop xs)
    ∙ ap trimmed (append-drop k xs ys (omega arith))
    ∙ trimmed-drop (drop k (xs ++ ys))
    ∙ drop-drop (length (drop k (xs ++ ys)) - max_history) k (length (xs ++ ys) - max_history)
        (xs ++ ys) (omega (arith, length-drop k (xs ++ ys), length-append xs ys))
    ∙ sym (trimmed-drop (xs ++ ys))

trimmed_twice : {E : Type 0} (xs : List E) → trimmed (trimmed xs) ≡ trimmed xs
trimmed_twice xs =
    ap trimmed (sym (append-nil (trimmed xs))) ∙ trimmed-append xs [] ∙ ap trimmed (append-nil xs)

module _ {T P H : Type 0} where
  -- The events that an action publishes.
  abbrev pub publication : Action T P H → List (BusEvent T P)
  publication (published e) = e ∷ []
  publication _ = []

  abbrev pub publications : List (Action T P H) → List (BusEvent T P)
  publications [] = []
  publications (a ∷ acts) = publication a ++ publications acts

  take_from-history :
      (es : List (BusEvent T P)) (b : Bus (BusEvent T P) H) → (take_from es b).history ≡ b.history
  unfolding take_from
  take_from-history [] b = refl
  take_from-history (e ∷ es) b = refl

  finish_with-history :
      (o : H → Outcome) (f : Option (BusEvent T P × List H)) (b : Bus (BusEvent T P) H)
      → (finish_with o f b).history ≡ b.history
  unfolding finish_with
  finish_with-history o none b = refl
  finish_with-history o (some (e, hs)) b = ground arith

  publish-history :
      (e : BusEvent T P) (b : Bus (BusEvent T P) H)
      → (publish e b).history ≡ trimmed (b.history ++ (e ∷ []))
  unfolding publish
  publish-history e b = ground arith

  take_next-history : (b : Bus (BusEvent T P) H) → (take_next b).history ≡ b.history
  unfolding take_next
  take_next-history b = ground (arith, take_from-history b.queue b)

  stop-history : (b : Bus (BusEvent T P) H) → (stop b).history ≡ b.history
  unfolding stop
  stop-history b = ground arith

  -- An action leaves the history as it would be cut with what the action publishes.
  step-history :
      (a : Action T P H) (b : Bus (BusEvent T P) H)
      → trimmed (step a b).history ≡ trimmed (b.history ++ publication a)
  unfolding step subscribe start finish
  step-history (subscribed t h) b = ap trimmed (sym (append-nil b.history))
  step-history (published e) b =
      ap trimmed (publish-history e b) ∙ trimmed_twice (b.history ++ (e ∷ []))
  step-history started b = ap trimmed (sym (append-nil b.history))
  step-history taken b = ap trimmed (take_next-history b ∙ sym (append-nil b.history))
  step-history (finished o) b =
      ap trimmed (finish_with-history o b.in_flight b ∙ sym (append-nil b.history))
  step-history stopped b = ap trimmed (stop-history b ∙ sym (append-nil b.history))

  run-trimmed :
      (acts : List (Action T P H)) (b : Bus (BusEvent T P) H)
      → trimmed (run acts b).history ≡ trimmed (b.history ++ publications acts)
  unfolding run
  run-trimmed [] b = ap trimmed (sym (append-nil b.history))
  run-trimmed (a ∷ acts) b =
      run-trimmed acts (step a b)
      ∙ sym (trimmed-append (step a b).history (publications acts))
      ∙ ap (λ zs. trimmed (zs ++ publications acts)) (step-history a b)
      ∙ trimmed-append (b.history ++ publication a) (publications acts)
      ∙ ap trimmed (append_assoc b.history (publication a) (publications acts))

  abbrev IsTrimmed : Bus (BusEvent T P) H → Type 0
  IsTrimmed b = trimmed b.history ≡ b.history

  step-IsTrimmed :
      (a : Action T P H) (b : Bus (BusEvent T P) H) → IsTrimmed b → IsTrimmed (step a b)
  unfolding step subscribe start finish
  step-IsTrimmed (subscribed t h) b k = k
  step-IsTrimmed (published e) b k =
      ap trimmed (publish-history e b)
      ∙ trimmed_twice (b.history ++ (e ∷ []))
      ∙ sym (publish-history e b)
  step-IsTrimmed started b k = k
  step-IsTrimmed taken b k = ap trimmed (take_next-history b) ∙ k ∙ sym (take_next-history b)
  step-IsTrimmed (finished o) b k =
      let same = finish_with-history o b.in_flight b in ap trimmed same ∙ k ∙ sym same
  step-IsTrimmed stopped b k = ap trimmed (stop-history b) ∙ k ∙ sym (stop-history b)

  run-IsTrimmed :
      (acts : List (Action T P H)) (b : Bus (BusEvent T P) H) → IsTrimmed b → IsTrimmed (run acts b)
  unfolding run
  run-IsTrimmed [] b k = k
  run-IsTrimmed (a ∷ acts) b k = run-IsTrimmed acts (step a b) (step-IsTrimmed a b k)

  -- After any sequence of actions on a new bus, the history is the last 2000 of the events that were
  -- published, or all of them where they are fewer, in their order.
  pub run-history :
      (acts : List (Action T P H))
      → (run acts new_bus).history
        ≡ drop (length (publications acts) - max_history) (publications acts)
  run-history acts =
      sym (run-IsTrimmed acts new_bus refl)
      ∙ run-trimmed acts new_bus
      ∙ trimmed-drop (publications acts)
