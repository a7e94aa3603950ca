-- ===== src/Http.antt =====
-- `HttpClient` of src/core/http.py: the state and what one attempt does to it. The exchange with the
-- server, and whether the name resolves over DNS-over-HTTPS, are in the `Try` that the attempt gets;
-- the transport itself, a client of httpx, is not modelled.
pub mod Request
pub mod Retries
pub mod Circuit
use sibilla.Base.{
  ℕ, suc, ◌+◌, ◌-◌, ◌==◌, Text, text, digits, contains, List, [], ◌∷◌, ◌++◌, length, take, drop,
  any, Option, none, some, Bool, true, false, not, ◌&&◌, ◌||◌, leb, ltb, if◌then◌else◌,
}
use sibilla.Float.{Float, ◌⊕◌, one}
use sibilla.RateLimit.Breaker.{CircuitBreaker, record_success, record_failure}
use sibilla.RateLimit.Bucket.{TokenBucket, acquire}

pub record HttpStats (W : Type 0) : Type 0 where
  pub requests : ℕ
  pub errors : ℕ
  pub rate_limited : ℕ
  pub total_latency_ms : W
  pub last_latency_ms : W
  pub last_error : Option Text
  pub last_success_at : Option W
  pub latencies_ms : List W

pub data DnsBypass : Type 0 where
  auto always never : DnsBypass

pub record HttpClient (W : Type 0) : Type 0 where
  pub provider : Text
  pub max_retries : ℕ
  pub bucket : TokenBucket W
  pub breaker : CircuitBreaker W
  pub stats : HttpStats W
  pub dns_bypass : DnsBypass
  pub bypass_active : Bool
  pub proxy : Option Text
  pub own_client : Bool

-- What the transport gives: an answer with its status and text, an httpx TimeoutException or
-- TransportError, or another exception.
pub data Reply : Type 0 where
  answered : ℕ → Text → Reply
  dropped : Text → Reply
  escaped : Text → Reply

-- What an attempt meets: the clock while it waits for a token, the latency, the reply, whether the
-- host resolves over HTTPS, and the time after the reply.
pub record Try (W : Type 0) : Type 0 where
  pub clock : List W
  pub latency_ms : W
  pub reply : Reply
  pub resolves : Bool
  pub now : W

-- `last_exc`: an UpstreamError with its status, or an exception of httpx.
pub data Failure : Type 0 where
  upstream : Text → ℕ → Failure
  network : Text → Failure

-- How the body of the `try` ends.
pub data Ending : Type 0 where
  waiting : Ending
  returned : ℕ → Ending
  raised_through : Text → Ending
  failed : Failure → Ending

pub record Attempted (W : Type 0) : Type 0 where
  pub client : HttpClient W
  pub ending : Ending

-- `RETRYABLE_STATUS`
unfoldable pub is_retryable : ℕ → Bool
is_retryable status =
    any (λ s. s == status)
      (408 ∷ (425 ∷ (429 ∷ (500 ∷ (502 ∷ (503 ∷ (504 ∷ (522 ∷ (524 ∷ [])))))))))

abbrev pub message_of : Failure → Text
message_of (upstream message status) = message
message_of (network message) = message

unfoldable pub looks_like_dns_hijack : Text → Bool
looks_like_dns_hijack message =
    any (λ s. contains s message)
      (text "CERTIFICATE_VERIFY_FAILED"
        ∷ (text "Hostname mismatch"
            ∷ (text "certificate is not valid"
                ∷ (text "nodename nor servname"
                    ∷ (text "Name or service not known"
                        ∷ (text "Temporary failure in name resolution" ∷ []))))))

abbrev pub is_always : DnsBypass → Bool
is_always DnsBypass.always = true
is_always _ = false

abbrev pub is_auto : DnsBypass → Bool
is_auto DnsBypass.auto = true
is_auto _ = false

abbrev pub has_proxy : Option Text → Bool
has_proxy none = false
has_proxy (some _) = true

abbrev pub is_network : Failure → Bool
is_network (upstream _ _) = false
is_network (network _) = true

-- A definitive error on the side of the request.
unfoldable pub is_fatal : Failure → Bool
unfolding is_retryable
is_fatal (upstream message status) = not (is_retryable status)
is_fatal (network message) = false

module _ {W : Type 0} where
  -- `del latencies[:-500]` once there are more.
  abbrev pub last_500 : List W → List W
  last_500 xs = if ltb 500 (length xs) then drop (length xs - 500) xs else xs

  -- `stats.errors += 1` and `stats.last_error`.
  abbrev pub add_error : Text → HttpStats W → HttpStats W
  add_error message s = record s { errors = suc s.errors; last_error = some message }

  -- `_enable_dns_bypass`, and whether it succeeds.
  abbrev pub enable_dns_bypass : Bool → HttpClient W → HttpClient W
  enable_dns_bypass resolves c = record c { bypass_active = c.bypass_active || resolves }

  unfoldable pub prepare : Try W → HttpClient W → HttpClient W
  prepare t c =
      if is_always c.dns_bypass && (not c.bypass_active && c.own_client)
      then enable_dns_bypass t.resolves c
      else c

  abbrev pub status_text : HttpClient W → ℕ → Text
  status_text c status = c.provider ++ (text " HTTP " ++ digits status)

module _ {W : Type 0} ⦃F : Float W⦄ where
  abbrev pub add_response : W → HttpStats W → HttpStats W
  add_response latency s = record s {
    requests = suc s.requests;
    total_latency_ms = s.total_latency_ms ⊕ latency;
    last_latency_ms = latency;
    latencies_ms = last_500 (s.latencies_ms ++ (latency ∷ []));
  }

  -- An answer by its status: to be retried, an error of the request, or a success.
  unfoldable pub receive : Try W → ℕ → Text → HttpClient W → Attempted W
  unfolding record_success
  receive t status body c =
      let seen = add_response t.latency_ms c.stats in
      if is_retryable status
      then record {
        client = record c {
          stats =
              (if status == 429
                then record seen { rate_limited = suc seen.rate_limited }
                else seen);
        };
        ending = failed (upstream (status_text c status) status);
      }
      else (if leb 400 status
          then record {
            client = record c {
              stats = add_error (text "HTTP " ++ digits status) seen;
              breaker = record_success c.breaker;
            };
            ending =
                failed (upstream (status_text c status ++ (text ": " ++ take 300 body)) status);
          }
          else record {
            client = record c {
              stats = record seen { last_success_at = some t.now };
              breaker = record_success c.breaker;
            };
            ending = returned status;
          })

  unfoldable pub exchange : Try W → Reply → HttpClient W → Attempted W
  unfolding receive
  exchange t (answered status body) c = receive t status body c
  exchange t (dropped message) c = record { client = c; ending = failed (network message) }
  exchange t (escaped message) c = record { client = c; ending = raised_through message }

  -- The wait for a token; a call that has used up the readings of the clock still waits.
  unfoldable pub with_token : Try W → HttpClient W → Option (TokenBucket W) → Attempted W
  unfolding exchange prepare
  with_token t c none = record { client = c; ending = waiting }
  with_token t c (some bucket) = exchange t t.reply (prepare t (record c { bucket = bucket }))

  unfoldable pub attempt : Try W → HttpClient W → Attempted W
  unfolding with_token acquire
  attempt t c = with_token t c (acquire one t.clock c.bucket)
