-- ===== src/Etoro/Momentum.antt =====
-- src/strategies/etoro_momentum.py: the screener by gap and relative volume, over the candidates of
-- src/collectors/etoro/instruments.py and the candles of src/collectors/etoro/rates.py.
use sibilla.Base.{
  ℕ, suc, ◌-◌, Text, List, [], ◌∷◌, length, take, drop, map, select, Option, none, some, Bool, true,
  ◌&&◌, ltb, if◌then◌else◌, ◌≡◌, refl, ◌≤◌, Bool-cases, inl, inr, arith,
}
use sibilla.Base.Int.{pos}
use sibilla.Float.{Float, ◌⊖◌, ◌⊘◌, ◌≤?◌, ◌≼◌, nought}
use sibilla.Market.Registry.{fsum}

pub record DailyCandle (W : Type 0) : Type 0 where
  pub date : W
  pub open_ : W
  pub high : W
  pub low : W
  pub close : W
  pub volume : W

pub record InstrumentCandidate (W : Type 0) : Type 0 where
  pub instrument_id : ℕ
  pub name : Text
  pub price : W

pub record MomentumCandidate (W : Type 0) : Type 0 where
  pub instrument_id : ℕ
  pub name : Text
  pub price : W
  pub gap_pct : W
  pub relative_volume : W

pub record MomentumEvaluation (W : Type 0) : Type 0 where
  pub instrument_id : ℕ
  pub name : Text
  pub price : W
  pub gap_pct : W
  pub relative_volume : W
  pub qualifies : Bool

-- `LOOKBACK_SESSIONS` and `MIN_HISTORY_LENGTH`.
abbrev pub lookback_sessions : ℕ
lookback_sessions = 20

abbrev pub min_history_length : ℕ
min_history_length = 21

module _ {ℓ} {A : Type ℓ} where
  -- `(xs[-2], xs[-1])`, where there are two.
  abbrev pub last_two : List A → Option (A × A)
  last_two [] = none
  last_two (x ∷ []) = none
  last_two (x ∷ (y ∷ [])) = some (x, y)
  last_two (x ∷ (y ∷ (z ∷ xs))) = last_two (y ∷ (z ∷ xs))

  -- `xs[-1 - n : -1]`
  abbrev pub before_last : ℕ → List A → List A
  before_last n xs = drop (length xs - suc n) (take (length xs - 1) xs)

module _ {W : Type 0} ⦃F : Float W⦄ where
  abbrev pub average_volume : List (DailyCandle W) → W
  average_volume cs = fsum (map (λ c. c.volume) cs) ⊘ F.of_int (pos (length cs))

  -- The body of the loop for a history that is long enough.
  unfoldable pub evaluate_last :
      InstrumentCandidate W
      → List (DailyCandle W)
      → DailyCandle W
      → DailyCandle W
      → Option (MomentumEvaluation W)
  evaluate_last i lookback prior last =
      let gap = (last.close ⊖ prior.close) ⊘ prior.close in
      let volume = average_volume lookback in
      let relative = last.volume ⊘ volume in
      if prior.close ≤? nought
      then none
      else (if volume ≤? nought
          then none
          else some (record {
            instrument_id = i.instrument_id;
            name = i.name;
            price = last.close;
            gap_pct = gap;
            relative_volume = relative;
            qualifies = F.lit 3 2 ≤? gap && F.lit 2 0 ≤? relative;
          }))

  unfoldable pub evaluate_two :
      InstrumentCandidate W
      → List (DailyCandle W)
      → Option (DailyCandle W × DailyCandle W)
      → Option (MomentumEvaluation W)
  evaluate_two i lookback none = none
  evaluate_two i lookback (some (prior, last)) = evaluate_last i lookback prior last

  unfoldable pub evaluate_one :
      InstrumentCandidate W → List (DailyCandle W) → Option (MomentumEvaluation W)
  unfolding evaluate_two
  evaluate_one i history =
      if ltb (length history) min_history_length
      then none
      else evaluate_two i (before_last lookback_sessions history) (last_two history)

  abbrev pub add_found :
      Option (MomentumEvaluation W) → List (MomentumEvaluation W) → List (MomentumEvaluation W)
  add_found none es = es
  add_found (some e) es = e ∷ es

  unfoldable pub evaluate_momentum :
      List (InstrumentCandidate W × List (DailyCandle W)) → List (MomentumEvaluation W)
  evaluate_momentum [] = []
  evaluate_momentum ((i, history) ∷ pairs) =
      add_found (evaluate_one i history) (evaluate_momentum pairs)

  abbrev pub candidate_of : MomentumEvaluation W → MomentumCandidate W
  candidate_of e = record {
    instrument_id = e.instrument_id;
    name = e.name;
    price = e.price;
    gap_pct = e.gap_pct;
    relative_volume = e.relative_volume;
  }

  abbrev pub qualified : List (MomentumEvaluation W) → List (MomentumCandidate W)
  qualified es = map candidate_of (select (λ e. e.qualifies) es)

  unfoldable pub momentum_candidates :
      List (InstrumentCandidate W × List (DailyCandle W)) → List (MomentumCandidate W)
  momentum_candidates pairs = qualified (evaluate_momentum pairs)

  -- The thresholds of the screener.
  abbrev pub IsMover : MomentumCandidate W → Type 0
  IsMover c = (F.lit 3 2 ≼ c.gap_pct) × (F.lit 2 0 ≼ c.relative_volume)

  evaluate_last-IsMover :
      (i : InstrumentCandidate W) (lookback : List (DailyCandle W)) (prior last : DailyCandle W)
      (e : MomentumEvaluation W)
      → evaluate_last i lookback prior last ≡ some e
      → e.qualifies ≡ true
      → IsMover (candidate_of e)
  unfolding evaluate_last
  evaluate_last-IsMover i lookback prior last e h q = ground arith

  evaluate_two-IsMover :
      (i : InstrumentCandidate W) (lookback : List (DailyCandle W))
      (two : Option (DailyCandle W × DailyCandle W)) (e : MomentumEvaluation W)
      → evaluate_two i lookback two ≡ some e
      → e.qualifies ≡ true
      → IsMover (candidate_of e)
  unfolding evaluate_two
  evaluate_two-IsMover i lookback none e h q = ground arith
  evaluate_two-IsMover i lookback (some (prior, last)) e h q =
      evaluate_last-IsMover i lookback prior last e h q

  -- What the screener found in one history.
  abbrev pub Found : InstrumentCandidate W × List (DailyCandle W) → MomentumCandidate W → Type 0
  Found (i, history) c =
      (c.instrument_id ≡ i.instrument_id) × (min_history_length ≤ length history) × IsMover c

  -- Some of the instruments, in their order, each with what the screener found in its history.
  pub data Screened
      : List (InstrumentCandidate W × List (DailyCandle W))
        → List (MomentumCandidate W)
        → Type 0 where
    done : Screened [] []
    skip :
        {p : InstrumentCandidate W × List (DailyCandle W)}
        {ps : List (InstrumentCandidate W × List (DailyCandle W))} {cs : List (MomentumCandidate W)}
        → Screened ps cs
        → Screened (p ∷ ps) cs
    keep :
        {p : InstrumentCandidate W × List (DailyCandle W)}
        {ps : List (InstrumentCandidate W × List (DailyCandle W))} {c : MomentumCandidate W}
        {cs : List (MomentumCandidate W)}
        → Found p c
        → Screened ps cs
        → Screened (p ∷ ps) (c ∷ cs)

  evaluate_last-id :
      (i : InstrumentCandidate W) (lookback : List (DailyCandle W)) (prior last : DailyCandle W)
      (e : MomentumEvaluation W)
      → evaluate_last i lookback prior last ≡ some e
      → e.instrument_id ≡ i.instrument_id
  unfolding evaluate_last
  evaluate_last-id i lookback prior last e h = ground arith

  evaluate_two-id :
      (i : InstrumentCandidate W) (lookback : List (DailyCandle W))
      (two : Option (DailyCandle W × DailyCandle W)) (e : MomentumEvaluation W)
      → evaluate_two i lookback two ≡ some e
      → e.instrument_id ≡ i.instrument_id
  unfolding evaluate_two
  evaluate_two-id i lookback none e h = ground arith
  evaluate_two-id i lookback (some (prior, last)) e h = evaluate_last-id i lookback prior last e h

  evaluate_one-Found :
      (i : InstrumentCandidate W) (history : List (DailyCandle W)) (e : MomentumEvaluation W)
      → evaluate_one i history ≡ some e
      → e.qualifies ≡ true
      → Found (i, history) (candidate_of e)
  unfolding evaluate_one
  evaluate_one-Found i history e h q =
      let lookback = before_last lookback_sessions history in
      ground (
        arith,
        evaluate_two-IsMover i lookback (last_two history) e,
        evaluate_two-id i lookback (last_two history) e,
      )

  add_found-Screened :
      (i : InstrumentCandidate W) (history : List (DailyCandle W))
      (pairs : List (InstrumentCandidate W × List (DailyCandle W)))
      (es : List (MomentumEvaluation W)) (r : Option (MomentumEvaluation W))
      → evaluate_one i history ≡ r
      → Screened pairs (qualified es)
      → Screened ((i, history) ∷ pairs) (qualified (add_found r es))
  add_found-Screened i history pairs es none h rest = skip rest
  add_found-Screened i history pairs es (some e) h rest = elim (Bool-cases e.qualifies) [
    | inl q ↦ rw q (keep (evaluate_one-Found i history e h q) rest)
    | inr q ↦ rw q (skip rest)
  ]

  -- The candidates are some of the scanned instruments, in their order and each at most once, with a
  -- history of at least 21 sessions, a gap of at least 3 % and at least twice the usual volume.
  pub momentum_candidates-Screened :
      (pairs : List (InstrumentCandidate W × List (DailyCandle W)))
      → Screened pairs (momentum_candidates pairs)
  unfolding momentum_candidates evaluate_momentum
  momentum_candidates-Screened [] = done
  momentum_candidates-Screened ((i, history) ∷ pairs) =
      add_found-Screened i history pairs (evaluate_momentum pairs) (evaluate_one i history) refl
        (momentum_candidates-Screened pairs)
