-- ===== src/Float/Fixed.antt =====
-- A concrete arithmetic that meets the laws of `IsFloat`: integers at the scale 10 ^ 12, with the
-- products and quotients cut towards zero. The examples are computed with it.
pub mod Laws
use sibilla.Base.{ℕ, zero, suc, ◌+◌, ◌*◌, ◌/◌, ◌%◌, ◌^◌, ◌-◌, ltb, leb, if◌then◌else◌}
use sibilla.Base.Int.{ℤ, pos, negsuc, neg_ℕ, neg_ℤ, ◌+ℤ◌, leb_ℤ}
use sibilla.Float.{Float}

-- A name of its own for the integers at scale 10 ^ 12.
abbrev pub Fixed : Type 0
Fixed = ℤ

abbrev pub scale : ℕ
scale = 1_000_000_000_000

-- |a| * |b| / scale and |a| * scale / |b|, with the sign of the product.
unfoldable pub mul : Fixed → Fixed → Fixed
mul (pos a) (pos b) = pos (a * b / scale)
mul (pos a) (negsuc b) = neg_ℕ (a * suc b / scale)
mul (negsuc a) (pos b) = neg_ℕ (suc a * b / scale)
mul (negsuc a) (negsuc b) = pos (suc a * suc b / scale)

unfoldable pub div : Fixed → Fixed → Fixed
div (pos a) (pos b) = pos (a * scale / b)
div (pos a) (negsuc b) = neg_ℕ (a * scale / suc b)
div (negsuc a) (pos b) = neg_ℕ (suc a * scale / b)
div (negsuc a) (negsuc b) = pos (suc a * scale / suc b)

unfoldable pub of_int : ℤ → Fixed
of_int (pos n) = pos (n * scale)
of_int (negsuc n) = neg_ℕ (suc n * scale)

unfoldable pub trunc : Fixed → ℤ
trunc (pos a) = pos (a / scale)
trunc (negsuc a) = neg_ℕ (suc a / scale)

unfoldable pub floor : Fixed → ℤ
floor (pos a) = pos (a / scale)
floor (negsuc a) = negsuc (a / scale)

-- The choice that rounding to even makes, by the quotient and the remainder.
unfoldable pub by_remainder : ℕ → ℕ → ℕ → ℕ
by_remainder q r d = if ltb (2 * r) d then q else (if ltb d (2 * r) then q + 1 else q + q % 2)

-- The multiple of d nearest to a, divided by d; half-way the even one.
unfoldable pub half_even : ℕ → ℕ → ℕ
unfolding by_remainder
half_even a d = by_remainder (a / d) (a % d) d

unfoldable pub nearest : Fixed → ℤ
unfolding half_even
nearest (pos a) = pos (half_even a scale)
nearest (negsuc a) = neg_ℕ (half_even (suc a) scale)

-- The unit of the d-th decimal place.
unfoldable pub place : ℕ → ℕ
place d = 10 ^ (12 - d)

unfoldable pub round : ℕ → Fixed → Fixed
unfolding half_even place
round d (pos a) = pos (half_even a (place d) * place d)
round d (negsuc a) = neg_ℕ (half_even (suc a) (place d) * place d)

-- The integer square root, one binary digit at a time from the digit 2 ^ fuel.
unfoldable pub isqrt_from : ℕ → ℕ → ℕ → ℕ
isqrt_from zero n root = root
isqrt_from (suc fuel) n root =
    let next = root + 2 ^ fuel in isqrt_from fuel n (if leb (next * next) n then next else root)

-- Exact for numbers below 10 ^ 12, whose scaled squares are below 2 ^ 80.
unfoldable pub sqrt : Fixed → Fixed
unfolding isqrt_from
sqrt (pos a) = pos (isqrt_from 40 (a * scale) 0)
sqrt (negsuc a) = pos 0

unfoldable pub lit : ℕ → ℕ → Fixed
lit m k = pos (m * scale / 10 ^ k)

instance abbrev pub fixed : Float Fixed
fixed = record {
  lit = lit;
  of_int = of_int;
  le = leb_ℤ;
  add = ◌+ℤ◌;
  neg = neg_ℤ;
  mul = mul;
  div = div;
  sqrt = sqrt;
  trunc = trunc;
  floor = floor;
  nearest = nearest;
  round = round;
}
