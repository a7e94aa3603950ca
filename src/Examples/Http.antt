-- ===== src/Examples/Http.antt =====
-- Calls to a server that is out of quota, src/core/http.py.
use sibilla.Base.{ℕ, text, [], ◌∷◌, none, true, false, ◌≡◌, refl}
use sibilla.Base.Int.{◌+ℤ◌}
use sibilla.Float.Fixed.{Fixed, fixed, lit, mul, div}
use sibilla.Float.Fixed.Laws.{Fixed-IsFloat}
use sibilla.RateLimit.Breaker.{fresh, guard, is_open, open_since, record_failure, record_success}
use sibilla.RateLimit.Bucket.{acquire, turn, refill}
use sibilla.Http.{
  HttpClient, HttpStats, DnsBypass, Try, answered, is_retryable, prepare, receive, exchange,
  with_token, attempt, is_fatal, looks_like_dns_hijack,
}
use sibilla.Http.Request.{
  request, guarded, attempts_from, exhausted, handle, count_failure, falls_back_to_direct,
  falls_back_to_doh,
}
use sibilla.Http.Retries.{IsBounded, request-IsBounded}
use sibilla.Http.Circuit.{IsTwiceCounted, request-IsTwiceCounted}
use sibilla.Examples.Fixture.{whole}

abbrev stats : HttpStats Fixed
stats = record {
  requests = 0;
  errors = 0;
  rate_limited = 0;
  total_latency_ms = whole 0;
  last_latency_ms = whole 0;
  last_error = none;
  last_success_at = none;
  latencies_ms = [];
}

abbrev client : HttpClient Fixed
client = record {
  provider = text "etoro";
  max_retries = 3;
  bucket = record { rps = whole 5; capacity = whole 5; tokens = whole 5; updated = whole 0 };
  breaker = fresh (text "etoro") 5 (whole 30);
  stats = stats;
  dns_bypass = DnsBypass.never;
  bypass_active = false;
  proxy = none;
  own_client = true;
}

abbrev out_of_quota : ℕ → Try Fixed
out_of_quota n = record {
  clock = whole 1 ∷ [];
  latency_ms = whole 20;
  reply = answered 429 (text "slow down");
  resolves = false;
  now = whole 2;
}

-- Three attempts with pauses of half a second and a second, and two failures on the breaker.
paused :
    let r = request out_of_quota (whole 1) (whole 3) none client in
    ((r.attempts ≡ 3) × (r.slept ≡ lit 5 1 ∷ (lit 1 0 ∷ []))) × (r.client.breaker.failures ≡ 2)
unfolding request guarded attempts_from exhausted handle count_failure falls_back_to_direct
    falls_back_to_doh looks_like_dns_hijack is_fatal is_retryable prepare receive exchange
    with_token attempt acquire turn refill guard is_open open_since record_failure record_success
    fresh lit mul div ◌+ℤ◌
paused = ((refl, refl), refl)

request-IsBounded_example : IsBounded 3 (request out_of_quota (whole 1) (whole 3) none client)
request-IsBounded_example =
    request-IsBounded Fixed-IsFloat out_of_quota (whole 1) (whole 3) none client

request-IsTwiceCounted_example :
    IsTwiceCounted
      (guard (whole 1) client.breaker).1
      (request out_of_quota (whole 1) (whole 3) none client)
request-IsTwiceCounted_example =
    request-IsTwiceCounted out_of_quota (whole 1) (whole 3) none client refl
