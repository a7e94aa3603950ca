-- ===== src/RateLimit/Breaker.antt =====
-- `CircuitBreaker` of src/core/ratelimit.py, with the time as an argument.
use sibilla.Base.{
  ℕ, suc, ◌+◌, ◌≤◌, Text, List, [], ◌∷◌, Option, none, some, Bool, inl, true, false, leb, length,
  Result, ok, err, ◌≡◌, refl, ◌⊎◌, map, if◌then◌else◌, arith,
}
use sibilla.Float.{Float, ◌⊖◌, ◌≤?◌, ◌≺◌}

pub record CircuitBreaker (W : Type 0) : Type 0 where
  pub name : Text
  pub failure_threshold : ℕ
  pub reset_timeout_s : W
  pub failures : ℕ
  pub opened_at : Option W

-- The `UpstreamError` of `guard`.
pub data UpstreamError : Type 0 where
  circuit_open : UpstreamError

-- A call on the breaker, at its time.
pub data BreakerCall (W : Type 0) : Type 0 where
  succeeded : BreakerCall W
  failed : W → BreakerCall W
  guarded : W → BreakerCall W

module _ {W : Type 0} where
  unfoldable pub record_success : CircuitBreaker W → CircuitBreaker W
  record_success b = record b { failures = 0; opened_at = none }

  unfoldable pub record_failure : W → CircuitBreaker W → CircuitBreaker W
  record_failure now b =
      if leb b.failure_threshold (suc b.failures)
      then record b { failures = suc b.failures; opened_at = some now }
      else record b { failures = suc b.failures }

  -- The failures after the last success, at most.
  abbrev pub recent : ℕ → List (BreakerCall W) → ℕ
  recent n [] = n
  recent n (succeeded ∷ cs) = recent 0 cs
  recent n (failed now ∷ cs) = recent (suc n) cs
  recent n (guarded now ∷ cs) = recent n cs

module _ {W : Type 0} ⦃F : Float W⦄ where
  -- `is_open`, which closes the breaker once the timeout has passed.
  unfoldable pub open_since : W → Option W → CircuitBreaker W → Bool × CircuitBreaker W
  open_since now none b = (false, b)
  open_since now (some since) b =
      if b.reset_timeout_s ≤? now ⊖ since
      then (false, record b { failures = 0; opened_at = none })
      else (true, b)

  unfoldable pub is_open : W → CircuitBreaker W → Bool × CircuitBreaker W
  unfolding open_since
  is_open now b = open_since now b.opened_at b

  unfoldable pub guard : W → CircuitBreaker W → Result UpstreamError (Unit {0}) × CircuitBreaker W
  unfolding is_open
  guard now b =
      (if (is_open now b).0 then err UpstreamError.circuit_open else ok tt, (is_open now b).1)

  unfoldable pub perform : BreakerCall W → CircuitBreaker W → CircuitBreaker W
  unfolding record_success record_failure guard
  perform succeeded b = record_success b
  perform (failed now) b = record_failure now b
  perform (guarded now) b = (guard now b).1

  unfoldable pub history : List (BreakerCall W) → CircuitBreaker W → CircuitBreaker W
  unfolding perform
  history [] b = b
  history (c ∷ cs) b = history cs (perform c b)

  -- An open breaker has counted as many failures as its threshold, and none that did not happen.
  abbrev pub IsCounted : ℕ → ℕ → CircuitBreaker W → Type 0
  IsCounted threshold n b =
      (b.failure_threshold ≡ threshold)
      × (b.failures ≤ n)
      × ((b.opened_at ≡ none) ⊎ (threshold ≤ b.failures))

  -- `CircuitBreaker(name, failure_threshold, reset_timeout_s)`
  unfoldable pub fresh : Text → ℕ → W → CircuitBreaker W
  fresh name threshold timeout = record {
    name = name;
    failure_threshold = threshold;
    reset_timeout_s = timeout;
    failures = 0;
    opened_at = none;
  }

  open_since-IsCounted :
      (threshold n : ℕ) (now : W) (o : Option W) (b : CircuitBreaker W)
      → IsCounted threshold n b
      → IsCounted threshold n (open_since now o b).1
  unfolding open_since
  open_since-IsCounted threshold n now none b h = h
  open_since-IsCounted threshold n now (some since) b h = ground arith

  history-IsCounted :
      (threshold n : ℕ) (cs : List (BreakerCall W)) (b : CircuitBreaker W)
      → IsCounted threshold n b
      → IsCounted threshold (recent n cs) (history cs b)
  unfolding history perform record_success record_failure guard is_open
  history-IsCounted threshold n [] b h = h
  history-IsCounted threshold n (succeeded ∷ cs) b h =
      history-IsCounted threshold 0 cs (record_success b) (ground arith)
  history-IsCounted threshold n (failed now ∷ cs) b h =
      history-IsCounted threshold (suc n) cs (record_failure now b) (ground arith)
  history-IsCounted threshold n (guarded now ∷ cs) b h =
      history-IsCounted threshold n cs (open_since now b.opened_at b).1
        (open_since-IsCounted threshold n now b.opened_at b h)

  -- A breaker that raises has seen as many failures since the last success as its threshold says.
  pub guard-recent :
      (name : Text) (threshold : ℕ) (timeout now : W) (cs : List (BreakerCall W))
      → (guard now (history cs (fresh name threshold timeout))).0 ≡ err UpstreamError.circuit_open
      → threshold ≤ recent 0 cs
  unfolding guard is_open fresh open_since
  guard-recent name threshold timeout now cs h =
      let b = fresh name threshold timeout in
      let counted : IsCounted threshold (recent 0 cs) (history cs b) =
        history-IsCounted threshold 0 cs b (refl, ground arith, inl refl) in
      ground (arith, counted)

  history-failed :
      (ts : List W) (b : CircuitBreaker W)
      → let after = history (map failed ts) b in
        (after.failures ≡ b.failures + length ts)
        × (after.failure_threshold ≡ b.failure_threshold)
        × (after.reset_timeout_s ≡ b.reset_timeout_s)
  unfolding history perform record_failure
  history-failed [] b = (omega arith, refl, refl)
  history-failed (t ∷ ts) b =
      let next = record_failure t b in ground (arith, history-failed ts next)

  -- As many failures in a row as the threshold says open a new breaker, and it raises until the timeout
  -- has passed since the last one.
  pub guard-failed :
      (name : Text) (threshold : ℕ) (timeout last now : W) (ts : List W)
      → threshold ≤ suc (length ts)
      → now ⊖ last ≺ timeout
      → (guard now (record_failure last (history (map failed ts) (fresh name threshold timeout)))).0
        ≡ err UpstreamError.circuit_open
  unfolding guard is_open record_failure open_since fresh
  guard-failed name threshold timeout last now ts h early =
      ground (arith, history-failed ts (fresh name threshold timeout))
