-- ===== src/RateLimit/Bucket.antt =====
-- `TokenBucket` of src/core/ratelimit.py. The readings of the loop's clock, one for each turn of the
-- `while`, are an argument: a call that has used them up still waits.
use mathlib.Core.Option.{some-injective}
use sibilla.Base.{
  List, [], ◌∷◌, Option, none, some, Bool-cases, inl, inr, false, ◌≡◌, refl, if◌then◌else◌, arith,
  subst,
}
use sibilla.Float.{Float, IsFloat, ◌⊕◌, ◌⊖◌, ◌⊗◌, ◌⊘◌, ◌≤?◌, ◌≼◌, ◌≺◌, nought, fmin, fmax}
use sibilla.Float.Laws.{
  mul_nonneg, le-fmax_left, fmin-le_left, le-fmin, le-add_right, sub_nonneg, sub-le,
}

pub record TokenBucket (W : Type 0) : Type 0 where
  pub rps : W
  pub capacity : W
  pub tokens : W
  pub updated : W

-- A turn of the loop: the bucket, and the seconds to sleep where the tokens are not enough.
pub record Waiting (W : Type 0) : Type 0 where
  pub bucket : TokenBucket W
  pub sleep : Option W

module _ {W : Type 0} ⦃F : Float W⦄ where
  abbrev pub capacity_of : W → Option W → W
  capacity_of rps none = fmax (F.lit 1 0) rps
  capacity_of rps (some burst) = burst

  -- `TokenBucket(rps, burst)`; `none` is the ValueError of a rate that is not positive.
  unfoldable pub new_bucket : W → W → Option W → Option (TokenBucket W)
  new_bucket now rps burst =
      if rps ≤? nought
      then none
      else some (record {
        rps = rps;
        capacity = capacity_of rps burst;
        tokens = capacity_of rps burst;
        updated = now;
      })

  unfoldable pub refill : W → TokenBucket W → TokenBucket W
  refill now b = record b {
    tokens = fmin b.capacity (b.tokens ⊕ fmax nought (now ⊖ b.updated) ⊗ b.rps);
    updated = now;
  }

  unfoldable pub turn : W → W → TokenBucket W → Waiting W
  unfolding refill
  turn amount now b =
      let full = refill now b in
      if amount ≤? full.tokens
      then record { bucket = record full { tokens = full.tokens ⊖ amount }; sleep = none }
      else record { bucket = full; sleep = some ((amount ⊖ full.tokens) ⊘ full.rps) }

  -- The end of a turn: the call returns, or goes on as `rest`.
  abbrev pub returned : Option W → TokenBucket W → Option (TokenBucket W) → Option (TokenBucket W)
  returned none b rest = some b
  returned (some seconds) b rest = rest

  unfoldable pub acquire : W → List W → TokenBucket W → Option (TokenBucket W)
  unfolding turn
  acquire amount [] b = none
  acquire amount (now ∷ times) b =
      let w = turn amount now b in returned w.sleep w.bucket (acquire amount times w.bucket)

  -- Between nothing and the capacity, with a rate that is not negative.
  abbrev pub IsFilled : TokenBucket W → Type 0
  IsFilled b = (nought ≼ b.tokens) × (b.tokens ≼ b.capacity) × (nought ≼ b.rps)

module _ {W : Type 0} ⦃F : Float W⦄ (L : IsFloat W) where
  refill-IsFilled : (now : W) (b : TokenBucket W) → IsFilled b → IsFilled (refill now b)
  unfolding refill
  refill-IsFilled now b (low, high, rate) =
      let gain = fmax nought (now ⊖ b.updated) ⊗ b.rps in
      let gained : nought ≼ gain =
        mul_nonneg L (fmax nought (now ⊖ b.updated)) b.rps (le-fmax_left L nought (now ⊖ b.updated))
          rate in
      let more : nought ≼ b.tokens ⊕ gain =
        L.le_trans nought b.tokens (b.tokens ⊕ gain) low (le-add_right L b.tokens gain gained) in
      (
        le-fmin L b.capacity (b.tokens ⊕ gain) nought
            (L.le_trans nought b.tokens b.capacity low high) more,
        fmin-le_left L b.capacity (b.tokens ⊕ gain),
        rate,
      )

  turn-IsFilled :
      (amount now : W) (b : TokenBucket W)
      → nought ≼ amount
      → IsFilled b
      → IsFilled (turn amount now b).bucket
  unfolding turn
  turn-IsFilled amount now b a h =
      let full = refill now b in
      let (low, high, rate) = refill-IsFilled now b h in
      elim (Bool-cases (amount ≤? full.tokens)) [
        | inr short ↦ rw (short, turn) (low, high, rate)
        | inl enough ↦
            rw (enough, turn)
              (
                sub_nonneg L full.tokens amount enough,
                L.le_trans (full.tokens ⊖ amount) full.tokens full.capacity
                    (sub-le L full.tokens amount a) high,
                rate,
              )
      ]

  returned-IsFilled :
      (sleep : Option W) (b after : TokenBucket W) (rest : Option (TokenBucket W))
      → IsFilled b
      → (rest ≡ some after → IsFilled after)
      → returned sleep b rest ≡ some after
      → IsFilled after
  returned-IsFilled none b after rest h next got = subst IsFilled (some-injective b after got) h
  returned-IsFilled (some seconds) b after rest h next got = next got

  -- A call for an amount that is not negative, on a bucket between nothing and its capacity whose
  -- rate is not negative, leaves the bucket so if it returns, whatever the clock reads.
  pub acquire-IsFilled :
      (amount : W) (times : List W) (b after : TokenBucket W)
      → nought ≼ amount
      → IsFilled b
      → acquire amount times b ≡ some after
      → IsFilled after
  unfolding acquire
  acquire-IsFilled amount [] b after a h got = ground arith
  acquire-IsFilled amount (now ∷ times) b after a h got =
      let w = turn amount now b in
      let filled = turn-IsFilled amount now b a h in
      returned-IsFilled w.sleep w.bucket after (acquire amount times w.bucket) filled
        (acquire-IsFilled amount times w.bucket after a filled) got

  turn-starved :
      (amount now : W) (b : TokenBucket W)
      → b.capacity ≺ amount
      → (amount ≤? (refill now b).tokens) ≡ false
  unfolding refill
  turn-starved amount now b h =
      let more = b.tokens ⊕ fmax nought (now ⊖ b.updated) ⊗ b.rps in
      ground
        (arith, fmin-le_left L b.capacity more, L.le_trans amount (fmin b.capacity more) b.capacity)

  -- A call for more than the capacity never returns, however long it waits.
  pub acquire-starved :
      (amount : W) (times : List W) (b : TokenBucket W)
      → b.capacity ≺ amount
      → acquire amount times b ≡ none
  unfolding acquire turn refill
  acquire-starved amount [] b h = refl
  acquire-starved amount (now ∷ times) b h =
      rw (turn-starved amount now b h, acquire) (acquire-starved amount times (refill now b) h)
