-- ===== src/Http/Request.antt =====
-- `HttpClient.request` of src/core/http.py: the attempts, with the pauses between them.
use sibilla.Base.{
  ℕ, zero, suc, ◌==◌, Text, text, List, [], ◌∷◌, ◌++◌, take, Option, none, some, Bool, not, ◌&&◌,
  if◌then◌else◌, Result, ok, err,
}
use sibilla.Float.{Float, ◌⊗◌, fmin}
use sibilla.RateLimit.Breaker.{UpstreamError, record_failure, guard}
use sibilla.Http.{
  HttpClient, Try, Failure, upstream, network, waiting, returned, raised_through, failed,
  message_of, looks_like_dns_hijack, is_auto, has_proxy, is_network, is_fatal, add_error,
  enable_dns_bypass, attempt,
}

-- The exceptions of `request`: of an open breaker, an UpstreamError with its status, where it has one,
-- a RateLimitError, and what passes through.
pub data HttpError : Type 0 where
  circuit_open : HttpError
  upstream_error : Text → Option ℕ → HttpError
  rate_limit : Text → HttpError
  other : Text → HttpError

-- How a call stands: still waiting for a token, returned with a status, or raised.
pub data Outcome : Type 0 where
  pending : Outcome
  response : ℕ → Outcome
  raised : HttpError → Outcome

pub record Called (W : Type 0) : Type 0 where
  pub client : HttpClient W
  pub outcome : Outcome
  -- the pauses between the attempts, and the number of attempts
  pub slept : List W
  pub attempts : ℕ

-- What the handler of the exceptions does: go on at once, pause first, give up, or raise.
pub data Verdict : Type 0 where
  go_on pause give_up raise_it : Verdict

pub record Handled (W : Type 0) : Type 0 where
  pub client : HttpClient W
  pub verdict : Verdict

-- The exception after the loop.
unfoldable pub final_error : Text → Option Failure → HttpError
final_error provider none = upstream_error (provider ++ text ": None") none
final_error provider (some (upstream message status)) =
    if status == 429 then rate_limit message else upstream_error message (some status)
final_error provider (some (network message)) =
    upstream_error (provider ++ (text ": " ++ message)) none

-- `raise` in the handler.
abbrev pub same_error : Failure → HttpError
same_error (upstream message status) = upstream_error message (some status)
same_error (network message) = other message

module _ {W : Type 0} where
  -- The part of the handler after the two fallbacks.
  unfoldable pub count_failure : Bool → W → Failure → HttpClient W → Handled W
  unfolding is_fatal record_failure
  count_failure is_last now f c =
      let counted = record c { stats = add_error (take 200 (message_of f)) c.stats } in
      if is_fatal f
      then record { client = counted; verdict = Verdict.raise_it }
      else (if is_last
          then record {
            client = record counted { breaker = record_failure now c.breaker };
            verdict = Verdict.give_up;
          }
          else record { client = counted; verdict = Verdict.pause })

  -- The two fallbacks: a proxy that fails is dropped; a name that seems hijacked is resolved over
  -- HTTPS, where that succeeds.
  unfoldable pub falls_back_to_direct : Failure → HttpClient W → Bool
  falls_back_to_direct f c = has_proxy c.proxy && (c.own_client && is_network f)

  unfoldable pub falls_back_to_doh : Try W → Failure → HttpClient W → Bool
  unfolding looks_like_dns_hijack
  falls_back_to_doh t f c =
      (is_auto c.dns_bypass && not c.bypass_active)
      && (c.own_client && (looks_like_dns_hijack (message_of f) && t.resolves))

  unfoldable pub handle : Bool → Try W → Failure → HttpClient W → Handled W
  unfolding count_failure falls_back_to_direct falls_back_to_doh
  handle is_last t f c =
      if falls_back_to_direct f c
      then record { client = record c { proxy = none }; verdict = Verdict.go_on }
      else (if falls_back_to_doh t f c
          then record { client = enable_dns_bypass t.resolves c; verdict = Verdict.go_on }
          else count_failure is_last t.now f c)

  -- The end of the loop, which counts a failure again.
  unfoldable pub exhausted : W → Option Failure → List W → ℕ → HttpClient W → Called W
  unfolding record_failure final_error
  exhausted closing last slept n c = record {
    client = record c { breaker = record_failure closing c.breaker };
    outcome = raised (final_error c.provider last);
    slept = slept;
    attempts = n;
  }

module _ {W : Type 0} ⦃F : Float W⦄ where
  -- `min(delay * 2, 8.0)`
  abbrev pub next_delay : W → W
  next_delay delay = fmin (delay ⊗ F.lit 2 0) (F.lit 80 1)

  -- `left` more attempts after the first `n`; `tries` gives what each one meets.
  unfoldable pub attempts_from :
      (ℕ → Try W) → W → ℕ → ℕ → W → List W → Option Failure → HttpClient W → Called W
  unfolding attempt handle exhausted
  attempts_from tries closing zero n delay slept last c = exhausted closing last slept n c
  attempts_from tries closing (suc left) n delay slept last c =
      let t = tries n in
      let a = attempt t c in
      elim a.ending [
        | waiting ↦ record { client = a.client; outcome = pending; slept = slept; attempts = suc n }
        | returned status ↦ record {
          client = a.client;
          outcome = response status;
          slept = slept;
          attempts = suc n;
        }
        | raised_through message ↦ record {
          client = a.client;
          outcome = raised (other message);
          slept = slept;
          attempts = suc n;
        }
        | failed f ↦
            let h = handle (left == 0) t f a.client in
            elim h.verdict [
              | Verdict.go_on ↦
                  attempts_from tries closing left (suc n) delay slept (some f) h.client
              | Verdict.pause ↦
                  attempts_from tries closing left (suc n) (next_delay delay)
                    (slept ++ (delay ∷ [])) (some f) h.client
              | Verdict.give_up ↦ exhausted closing (some f) slept (suc n) h.client
              | Verdict.raise_it ↦ record {
                client = h.client;
                outcome = raised (same_error f);
                slept = slept;
                attempts = suc n;
              }
            ]
      ]

  abbrev pub attempts_of : Option ℕ → HttpClient W → ℕ
  attempts_of none c = c.max_retries
  attempts_of (some n) c = n

  -- The call, after the breaker's guard.
  unfoldable pub guarded :
      (ℕ → Try W) → W → Option ℕ → Result UpstreamError (Unit {0}) → HttpClient W → Called W
  unfolding attempts_from
  guarded tries closing retries (err e) c = record {
    client = c;
    outcome = raised circuit_open;
    slept = [];
    attempts = 0;
  }
  guarded tries closing retries (ok _) c =
      attempts_from tries closing (attempts_of retries c) 0 (F.lit 5 1) [] none c

  unfoldable pub request : (ℕ → Try W) → W → W → Option ℕ → HttpClient W → Called W
  unfolding guarded guard
  request tries opening closing retries c =
      let g = guard opening c.breaker in
      guarded tries closing retries g.0 (record c { breaker = g.1 })
