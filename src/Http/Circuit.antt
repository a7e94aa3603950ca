-- ===== src/Http/Circuit.antt =====
-- How the calls of `HttpClient.request`, src/core/http.py, count on the circuit breaker.
use mathlib.Core.Bool.{true≢false}
use sibilla.Base.{
  ℕ, suc, ◌+◌, ◌<◌, ◌==◌, Text, [], Option, none, some, Bool, Bool-cases, true, false, Result, ok,
  err, ◌≡◌, ◌≢◌, refl, sym, ap, ◌∙◌, inl, inr, leb, subst, &&-split, ◌&&◌, ==_iff, arith,
}
use sibilla.Float.{Float, one}
use sibilla.RateLimit.Breaker.{CircuitBreaker, UpstreamError, guard, record_success, record_failure}
use sibilla.RateLimit.Bucket.{TokenBucket, acquire}
use sibilla.Http.{
  has_proxy, is_network, HttpClient, DnsBypass, Try, Reply, Failure, Attempted, upstream, network,
  answered, dropped, escaped, returned, failed, is_retryable, is_fatal, prepare, receive, exchange,
  with_token, attempt,
}
use sibilla.Http.Request.{
  falls_back_to_direct, falls_back_to_doh, Called, HttpError, Verdict, Handled, response, raised,
  handle, exhausted, same_error, final_error, count_failure, attempts_of, guarded, request,
  rate_limit,
}
use sibilla.Http.Retries.{Loop, IsPreserved, attempts_from-induct}

returned_injective : (a b : ℕ) → returned a ≡ returned b → a ≡ b
returned_injective a b h = cc

abbrev is_limited : Option Failure → Bool
is_limited none = false
is_limited (some (upstream message status)) = status == 429
is_limited (some (network message)) = false

final_error-limited :
    (provider m : Text) (last : Option Failure)
    → final_error provider last ≡ rate_limit m
    → is_limited last ≡ true
unfolding final_error
final_error-limited provider m none h = ground arith
final_error-limited provider m (some (upstream message status)) h = ground arith
final_error-limited provider m (some (network message)) h = ground arith

network-mild : (f : Failure) → is_network f ≡ true → is_fatal f ≡ false
unfolding is_fatal
network-mild (upstream message status) h = ground arith
network-mild (network message) h = refl

network-unlimited : (f : Failure) → is_network f ≡ true → is_limited (some f) ≡ false
network-unlimited (upstream message status) h = ground arith
network-unlimited (network message) h = refl

raised_injective : (e f : HttpError) → raised e ≡ raised f → e ≡ f
raised_injective e f h = cc

response_injective : (s t : ℕ) → response s ≡ response t → s ≡ t
response_injective s t h = cc

same_error-not_limited : (m : Text) (f : Failure) → same_error f ≢ rate_limit m
same_error-not_limited m (upstream message status) h = ground arith
same_error-not_limited m (network message) h = ground arith

module _ {W : Type 0} ⦃F : Float W⦄ where
  -- What an attempt may do to the breaker: a success closes it, a failure to be retried leaves it.
  abbrev Settles : CircuitBreaker W → Attempted W → Type 0
  Settles b a =
      ((s : ℕ)
        → a.ending ≡ returned s
        → ((is_retryable s ≡ false) × (s < 400)) × (a.client.breaker ≡ record_success b))
      × ((f : Failure) → a.ending ≡ failed f → is_fatal f ≡ false → a.client.breaker ≡ b)
      × (a.client.dns_bypass ≡ DnsBypass.never)

  receive-Settles :
      (t : Try W) (status : ℕ) (body : Text) (c : HttpClient W)
      → c.dns_bypass ≡ DnsBypass.never
      → Settles c.breaker (receive t status body c)
  unfolding receive is_fatal
  receive-Settles t status body c never = elim (Bool-cases (is_retryable status)) [
    | inl again ↦ rw (again, receive) (λ s h. ground arith, λ f h k. refl, never)
    | inr settled ↦ elim (Bool-cases (leb 400 status)) [
      | inl bad ↦
          rw (settled, receive)
            (rw (bad, receive) (λ s h. ground arith, λ f h k. ground arith, never))
      | inr good ↦
          rw (settled, receive)
            (rw (good, receive)
              (
                λ s h. (
                  (
                    subst (λ n. is_retryable n ≡ false) (returned_injective status s h) settled,
                    subst (λ n. n < 400) (returned_injective status s h) (ground arith),
                  ),
                  refl,
                ),
                λ f h k. ground arith,
                never,
              ))
    ]
  ]

  exchange-Settles :
      (t : Try W) (r : Reply) (c : HttpClient W)
      → c.dns_bypass ≡ DnsBypass.never
      → Settles c.breaker (exchange t r c)
  unfolding exchange
  exchange-Settles t (answered status body) c never = receive-Settles t status body c never
  exchange-Settles t (dropped message) c never = (λ s h. ground arith, λ f h k. refl, never)
  exchange-Settles t (escaped message) c never = (λ s h. ground arith, λ f h k. refl, never)

  prepare-never : (t : Try W) (c : HttpClient W) → c.dns_bypass ≡ DnsBypass.never → prepare t c ≡ c
  unfolding prepare
  prepare-never t c never = rw (never, prepare) refl

  with_token-Settles :
      (t : Try W) (b : Option (TokenBucket W)) (c : HttpClient W)
      → c.dns_bypass ≡ DnsBypass.never
      → Settles c.breaker (with_token t c b)
  unfolding with_token
  with_token-Settles t none c never = (λ s h. ground arith, λ f h k. ground arith, never)
  with_token-Settles t (some b) c never =
      let d = record c { bucket = b } in
      subst (λ x. Settles c.breaker (exchange t t.reply x)) (sym (prepare-never t d never))
        (exchange-Settles t t.reply d never)

  attempt-Settles :
      (t : Try W) (c : HttpClient W)
      → c.dns_bypass ≡ DnsBypass.never
      → Settles c.breaker (attempt t c)
  unfolding attempt
  attempt-Settles t c never = with_token-Settles t (acquire one t.clock c.bucket) c never

  -- What the handler leaves of the breaker, by its verdict.
  abbrev Keeps : Bool → CircuitBreaker W → W → Failure → Handled W → Type 0
  Keeps is_last b now f h =
      (h.verdict ≡ Verdict.go_on
        → (is_network f ≡ true) × (h.client.breaker ≡ b) × (h.client.dns_bypass ≡ DnsBypass.never))
      × (h.verdict ≡ Verdict.pause
          → (is_last ≡ false)
            × (is_fatal f ≡ false)
            × (h.client.breaker ≡ b)
            × (h.client.dns_bypass ≡ DnsBypass.never))
      × (h.verdict ≡ Verdict.give_up
          → (is_fatal f ≡ false) × (h.client.breaker ≡ record_failure now b))

  count_failure-Keeps :
      (is_last : Bool) (now : W) (f : Failure) (c : HttpClient W)
      → c.dns_bypass ≡ DnsBypass.never
      → Keeps is_last c.breaker now f (count_failure is_last now f c)
  unfolding count_failure
  count_failure-Keeps is_last now f c never = elim (Bool-cases (is_fatal f)) [
    | inl fatal ↦
        rw (fatal, count_failure) (λ h. ground arith, λ h. ground arith, λ h. ground arith)
    | inr mild ↦ elim (Bool-cases is_last) [
      | inl last ↦
          rw (mild, count_failure)
            (rw (last, count_failure) (λ h. ground arith, λ h. ground arith, λ h. (refl, refl)))
      | inr more ↦
          rw (mild, count_failure)
            (rw (more, count_failure)
              (λ h. ground arith, λ h. (refl, refl, refl, never), λ h. ground arith))
    ]
  ]

  never-doh :
      (t : Try W) (f : Failure) (c : HttpClient W)
      → c.dns_bypass ≡ DnsBypass.never
      → falls_back_to_doh t f c ≡ false
  unfolding falls_back_to_doh
  never-doh t f c never = rw (never, falls_back_to_doh) refl

  direct-network :
      (f : Failure) (c : HttpClient W) → falls_back_to_direct f c ≡ true → is_network f ≡ true
  unfolding falls_back_to_direct
  direct-network f c h =
      (&&-split c.own_client (is_network f)
        (&&-split (has_proxy c.proxy) (c.own_client && is_network f) h).1).1

  handle-Keeps :
      (is_last : Bool) (t : Try W) (f : Failure) (c : HttpClient W)
      → c.dns_bypass ≡ DnsBypass.never
      → Keeps is_last c.breaker t.now f (handle is_last t f c)
  unfolding handle
  handle-Keeps is_last t f c never = elim (Bool-cases (falls_back_to_direct f c)) [
    | inl direct ↦
        rw (direct, handle)
          (λ h. (direct-network f c direct, refl, never), λ h. ground arith, λ h. ground arith)
    | inr direct ↦
        rw (direct, handle)
          (rw (never-doh t f c never, handle) (count_failure-Keeps is_last t.now f c never))
  ]

  -- The loop has not touched the breaker, and what it ends on without giving up is no 429.
  abbrev IsUntouched : CircuitBreaker W → Loop W → Type 0
  IsUntouched b l =
      (l.client.dns_bypass ≡ DnsBypass.never)
      × (l.client.breaker ≡ b)
      × (l.left ≡ 0 → is_limited l.last ≡ false)

  abbrev pub IsTwiceCounted : CircuitBreaker W → Called W → Type 0
  IsTwiceCounted b r =
      ((m : Text) → r.outcome ≡ raised (rate_limit m) → r.client.breaker.failures ≡ b.failures + 2)
      × ((s : ℕ)
          → r.outcome ≡ response s
          → ((is_retryable s ≡ false) × (s < 400)) × (r.client.breaker ≡ record_success b))

  record_failure-failures :
      (now : W) (b : CircuitBreaker W) → (record_failure now b).failures ≡ suc b.failures
  unfolding record_failure
  record_failure-failures now b = ground arith

  twice :
      (closing now : W) (b : CircuitBreaker W) {d : CircuitBreaker W}
      → d ≡ record_failure now b
      → (record_failure closing d).failures ≡ b.failures + 2
  twice closing now b {d} h = omega (
    arith,
    record_failure-failures closing d,
    ap (λ c. c.failures) h,
    record_failure-failures now b,
  )

  at_failure-Keeps :
      (b : CircuitBreaker W) (tries : ℕ → Try W) (l : Loop W) (left : ℕ) (f : Failure)
      → IsUntouched b l
      → (attempt (tries l.made) l.client).ending ≡ failed f
      → let a = attempt (tries l.made) l.client in
        Keeps
          (left == 0)
          a.client.breaker
          (tries l.made).now
          f
          (handle (left == 0) (tries l.made) f a.client)
  at_failure-Keeps b tries l left f (never, same, _) e =
      handle-Keeps (left == 0) (tries l.made) f (attempt (tries l.made) l.client).client
        (attempt-Settles (tries l.made) l.client never).2

  untouched :
      (b : CircuitBreaker W) (tries : ℕ → Try W) (closing : W)
      → IsPreserved tries closing (IsUntouched b) (IsTwiceCounted b)
  unfolding exhausted
  untouched b tries closing = record {
    at_end = λ l (never, same, unlimited) z. (
      λ m h. absurd (
          true≢false (
            sym (
              final_error-limited l.client.provider m l.last
                (raised_injective (final_error l.client.provider l.last) (rate_limit m) h))
            ∙ unlimited z)),
      λ s h. ground arith,
    );
    at_wait = λ l left i k e. (λ m h. ground arith, λ s h. ground arith);
    at_return = λ l left s (never, same, _) k e.
        let (fine, closed) = (attempt-Settles (tries l.made) l.client never).0 s e in
        (
          λ m h. ground arith,
          λ s' h.
              subst
                (λ n.
                  ((is_retryable n ≡ false) × (n < 400))
                  × ((attempt (tries l.made) l.client).client.breaker ≡ record_success b))
                (response_injective s s' h) (fine, closed ∙ ap record_success same),
        );
    at_escape = λ l left m i k e. (λ m h. ground arith, λ s h. ground arith);
    at_failure = λ l left f i k e.
        let (goes, pauses, gives) = at_failure-Keeps b tries l left f i e in
        let kept = (attempt-Settles (tries l.made) l.client i.0).1 f e in
        (
          λ v.
              let (net, closed, never) = goes v in
              (never, closed ∙ kept (network-mild f net) ∙ i.1, λ z. network-unlimited f net),
          λ v.
              let (more, mild, closed, never) = pauses v in
              (
                never,
                closed ∙ kept mild ∙ i.1,
                λ z. absurd (true≢false (sym ((==_iff left 0).1 z) ∙ more)),
              ),
          λ v.
              let (mild, counted) = gives v in
              (
                λ m h.
                    twice closing (tries l.made).now b
                      (counted ∙ ap (record_failure (tries l.made).now) (kept mild ∙ i.1)),
                λ s h. ground arith,
              ),
          λ v. (
            λ m h.
                absurd
                  (same_error-not_limited m f (raised_injective (same_error f) (rate_limit m) h)),
            λ s h. ground arith,
          ),
        );
  }

  guarded-IsTwiceCounted :
      (tries : ℕ → Try W) (closing : W) (retries : Option ℕ) (g : Result UpstreamError (Unit {0}))
      (c : HttpClient W)
      → c.dns_bypass ≡ DnsBypass.never
      → IsTwiceCounted c.breaker (guarded tries closing retries g c)
  unfolding guarded
  guarded-IsTwiceCounted tries closing retries (err e) c never =
      (λ m h. ground arith, λ s h. ground arith)
  guarded-IsTwiceCounted tries closing retries (ok x) c never =
      attempts_from-induct tries closing (IsUntouched c.breaker) (IsTwiceCounted c.breaker)
        (untouched c.breaker tries closing) (attempts_of retries c) 0 (F.lit 5 1) [] none c
        (never, refl, λ z. refl)

  -- A client without the DNS fallback. A call that ends in a RateLimitError counts two failures on the
  -- breaker, not one; a call that returns has a status under 400 that is not to be retried, and leaves
  -- the breaker closed, with no failure.
  pub request-IsTwiceCounted :
      (tries : ℕ → Try W) (opening closing : W) (retries : Option ℕ) (c : HttpClient W)
      → c.dns_bypass ≡ DnsBypass.never
      → IsTwiceCounted (guard opening c.breaker).1 (request tries opening closing retries c)
  unfolding request
  request-IsTwiceCounted tries opening closing retries c never =
      let g = guard opening c.breaker in
      guarded-IsTwiceCounted tries closing retries g.0 (record c { breaker = g.1 }) never
