-- ===== src/Etoro/Runner/Closing/Stopped.antt =====
-- Which positions the time stop of src/workers/etoro_runner.py closes.
use sibilla.Base.{
  Text, List, [], ◌∷◌, ◌++◌, map, All, Bool, true, false, Result, ok, err, ◌≡◌, refl, sym, subst,
}
use mathlib.Core.List.{append_assoc, append-nil}
use sibilla.Float.{Float}
use sibilla.Store.{World}
use sibilla.Etoro.Gateway.{
  RawPosition, positions, position_of, close_position, instrument_id_from_epic-etoro_epic,
}
use sibilla.Etoro.Runner.Closing.{Closing, Closed, close_from, time_stop_close_all}

-- The answer is no exception.
abbrev pub IsAnswered : Result Text Text → Type 0
IsAnswered (ok answer) = Unit
IsAnswered (err e) = ⊥

module _ {W : Type 0} where
  abbrev pub closing_of : RawPosition W → Closing
  closing_of p = record { position_id = p.position_id; instrument_id = p.instrument_id }

module _ {W : Type 0} ⦃F : Float W⦄ (close : Text → Result Text Text) where
  IsClosed : List Closing → Bool → Closed W → Type 0
  IsClosed cs b c = (c.closings ≡ cs) × (c.raised ≡ b)

  stopped_at :
      (p : RawPosition W) (after : List (RawPosition W)) (w : World W) (done : List Closing)
      (e : Text)
      → close p.position_id ≡ err e
      → IsClosed done true (close_from close (positions (p ∷ after)) w done)
  unfolding close_from positions position_of IsClosed
  stopped_at p after w done e q =
      rw (instrument_id_from_epic-etoro_epic p.instrument_id, q, close_from) (refl, refl)

  after_closing :
      (p : RawPosition W) (ps : List (RawPosition W)) (w : World W) (done cs : List Closing)
      (b : Bool) (r : Result Text Text)
      → close p.position_id ≡ r
      → IsAnswered r
      → ((w' : World W)
          → IsClosed cs b (close_from close (positions ps) w' (done ++ (closing_of p ∷ []))))
      → IsClosed cs b (close_from close (positions (p ∷ ps)) w done)
  unfolding close_from positions position_of IsClosed
  after_closing p ps w done cs b (err e) q h rest = absurd h
  after_closing p ps w done cs b (ok answer) q h rest =
      rw (instrument_id_from_epic-etoro_epic p.instrument_id, q, close_from)
        (rest (close_position (ok answer) w).0)

  loop_up_to :
      (ps rest : List (RawPosition W)) (w : World W) (done : List Closing) (b : Bool)
      → All (λ p. IsAnswered (close p.position_id)) ps
      → ((w' : World W) (d : List Closing) → IsClosed d b (close_from close (positions rest) w' d))
      → IsClosed (done ++ map closing_of ps) b (close_from close (positions (ps ++ rest)) w done)
  loop_up_to [] rest w done b h k =
      subst (λ d. IsClosed d b (close_from close (positions rest) w done)) (sym (append-nil done))
        (k w done)
  loop_up_to (p ∷ ps) rest w done b (h, hs) k =
      after_closing p (ps ++ rest) w done (done ++ map closing_of (p ∷ ps)) b (close p.position_id)
        refl h
        (λ w'.
          subst
            (λ d.
              IsClosed d b
                (close_from close (positions (ps ++ rest)) w' (done ++ (closing_of p ∷ []))))
            (append_assoc done (closing_of p ∷ []) (map closing_of ps))
            (loop_up_to ps rest w' (done ++ (closing_of p ∷ [])) b hs k))

  -- The time stop closes the positions that the broker lists, each once, in order and under its own
  -- identifiers. Where the broker answers every closing it closes all of them; at the first one that
  -- raises it stops with the exception, and no later position is closed.
  pub time_stop_close_all-closings :
      (ps : List (RawPosition W)) (w : World W)
      → All (λ p. IsAnswered (close p.position_id)) ps
      → (((time_stop_close_all close ps w).closings ≡ map closing_of ps)
          × ((time_stop_close_all close ps w).raised ≡ false))
        × ((p : RawPosition W) (after : List (RawPosition W)) (e : Text)
            → close p.position_id ≡ err e
            → ((time_stop_close_all close (ps ++ (p ∷ after)) w).closings ≡ map closing_of ps)
              × ((time_stop_close_all close (ps ++ (p ∷ after)) w).raised ≡ true))
  unfolding time_stop_close_all close_from positions IsClosed
  time_stop_close_all-closings ps w h = (
    subst
        (λ qs.
          ((time_stop_close_all close qs w).closings ≡ map closing_of ps)
          × ((time_stop_close_all close qs w).raised ≡ false))
        (append-nil ps) (loop_up_to ps [] w [] false h (λ w' d. (refl, refl))),
    λ p after e q. loop_up_to ps (p ∷ after) w [] true h (λ w' d. stopped_at p after w' d e q),
  )
