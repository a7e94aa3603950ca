-- ===== src/Examples/RateLimit.antt =====
-- Calls on the breaker and on the bucket, src/core/ratelimit.py.
use sibilla.Base.{List, [], ◌∷◌, none, ◌≡◌, refl}
use sibilla.Base.Int.{◌+ℤ◌}
use sibilla.Float.Fixed.{Fixed, fixed, lit, mul, div}
use sibilla.Float.Fixed.Laws.{Fixed-IsFloat}
use sibilla.RateLimit.Breaker.{BreakerCall, succeeded, failed, guarded}
use sibilla.RateLimit.Bucket.{
  TokenBucket, IsFilled, acquire, turn, refill, acquire-IsFilled, acquire-starved,
}
use sibilla.Examples.Fixture.{whole}

-- Two failures, a success, and three failures, with a look at the breaker in between.
abbrev calls : List (BreakerCall Fixed)
calls =
    failed (whole 1)
    ∷ failed (whole 2)
    ∷ succeeded
    ∷ failed (whole 4)
    ∷ guarded (whole 5)
    ∷ failed (whole 6)
    ∷ failed (whole 7)
    ∷ []

-- A bucket of two tokens that is refilled by one a second.
abbrev bucket : TokenBucket Fixed
bucket = record { rps = whole 1; capacity = whole 2; tokens = whole 0; updated = whole 10 }

abbrev drained : TokenBucket Fixed
drained = record bucket { updated = whole 11 }

acquire-IsFilled_example : IsFilled drained
unfolding acquire turn refill lit mul div ◌+ℤ◌
acquire-IsFilled_example =
    acquire-IsFilled Fixed-IsFloat (whole 1) (whole 10 ∷ whole 11 ∷ []) bucket drained refl
      (refl, refl, refl) refl

acquire-starved_example : acquire (whole 3) (whole 11 ∷ whole 99 ∷ whole 9999 ∷ []) bucket ≡ none
unfolding lit
acquire-starved_example =
    acquire-starved Fixed-IsFloat (whole 3) (whole 11 ∷ whole 99 ∷ whole 9999 ∷ []) bucket refl
