-- ===== src/Float/Fixed/Laws.antt =====
-- The integers at the scale 10 ^ 12 meet the laws of `IsFloat`.
use native.Mathlib.Nat.{
  div-add-mod, mul-div_cancel, mul-mod_left, mul-div-mul_right, mul-div_right, mul-le-mul_right,
  mul_comm, one-le-pow, div-le_self, zero-mul, add-zero, add-suc, pow-zero, pow-suc, mul_assoc,
  mul-zero, mul-one as nat_mul-one,
}
use native.Mathlib.Decide.{dec_lt}
use sibilla.Base.{
  ℕ, zero, suc, ◌+◌, ◌*◌, ◌/◌, ◌%◌, ◌^◌, ◌-◌, ◌≤◌, ◌<◌, ◌≡◌, refl, ap, sym, ◌∙◌, true, false, arith,
}
use sibilla.Base.Int.{
  ℤ, pos, negsuc, pos_part, neg_part, neg_ℕ, neg_ℤ, ◌+ℤ◌, ◌≤ℤ◌, leb_ℤ, int_laws, neg_ℤ_parts,
  eq_of_parts,
}
use sibilla.Float.{IsFloat}
use sibilla.Float.Fixed.{
  Fixed, fixed, scale, mul, div, of_int, trunc, round, lit, sqrt, by_remainder, half_even, place,
}

mul_comm_lem : (x y : Fixed) → mul x y ≡ mul y x
unfolding mul
mul_comm_lem (pos a) (pos b) = grind arith
mul_comm_lem (pos a) (negsuc b) = grind arith
mul_comm_lem (negsuc a) (pos b) = grind arith
mul_comm_lem (negsuc a) (negsuc b) = grind arith

neg_ℕ-parts : (n : ℕ) → (pos_part (neg_ℕ n) ≡ 0) × (neg_part (neg_ℕ n) ≡ n)
neg_ℕ-parts zero = (refl, refl)
neg_ℕ-parts (suc n) = (refl, refl)

scaled_mono : (a b c : ℕ) → a ≤ b → a * c / scale ≤ b * c / scale
scaled_mono a b c h = grind arith

div_mono_num : (a b c : ℕ) → a ≤ b → a / c ≤ b / c
div_mono_num a b c h = grind arith

ratio_mono : (a b c : ℕ) → a ≤ b → a * scale / c ≤ b * scale / c
ratio_mono a b c h = div_mono_num (a * scale) (b * scale) c (omega arith)

by_remainder_bounds : (q r d : ℕ) → (q ≤ by_remainder q r d) × (by_remainder q r d ≤ q + 1)
unfolding by_remainder
by_remainder_bounds q r d = ground arith

by_remainder_mono : (q r s d : ℕ) → r ≤ s → by_remainder q r d ≤ by_remainder q s d
unfolding by_remainder
by_remainder_mono q r s d h = ground arith

half_even_mono : (a b d : ℕ) → a ≤ b → half_even a d ≤ half_even b d
unfolding half_even
half_even_mono a b d h = elim (dec_lt (a / d) (b / d)) [
  | yes lt ↦
      omega (arith, by_remainder_bounds (a / d) (a % d) d, by_remainder_bounds (b / d) (b % d) d)
  | no ge ↦
      let same : a / d ≡ b / d = omega (arith, div_mono_num a b d h) in
      let rest : a % d ≤ b % d =
        omega (arith, div-add-mod a d, div-add-mod b d, ap (λ q. d * q) same) in
      rw same (by_remainder_mono (b / d) (a % d) (b % d) d rest)
]

half_even-mul : (n d : ℕ) → 0 < d → half_even (n * d) d ≡ n
unfolding half_even
half_even-mul n d h = rw (mul-div_cancel n h, mul-mod_left n d) (ground arith)

pow_pos : (k : ℕ) → 0 < 10 ^ k
pow_pos k = one-le-pow k 10 (omega arith)

place_pos : (d : ℕ) → 0 < place d
unfolding place
place_pos d = pow_pos (12 - d)

lit_mono : (m k n j : ℕ) → m * 10 ^ j ≤ n * 10 ^ k → lit m k ≤ℤ lit n j
unfolding lit
lit_mono m k n j h =
    let p = 10 ^ k in
    let q = 10 ^ j in
    let left : m * scale * q / (p * q) ≡ m * scale / p =
      mul-div-mul_right (m * scale) p (pow_pos j) in
    let right : n * scale * p / (q * p) ≡ n * scale / q =
      mul-div-mul_right (n * scale) q (pow_pos k) in
    let step : m * scale * q ≤ n * scale * p = omega (arith, mul-le-mul_right scale h) in
    let swap : q * p ≡ p * q = mul_comm q p in
    let over : m * scale * q / (p * q) ≤ n * scale * p / (p * q) =
      div_mono_num (m * scale * q) (n * scale * p) (p * q) step in
    omega (arith, ap (λ t. n * scale * p / t) swap)

mul_mono : (x y z : Fixed) → pos 0 ≤ℤ z → x ≤ℤ y → mul x z ≤ℤ mul y z
unfolding mul
mul_mono (pos a) (pos b) (pos c) p h = omega (arith, scaled_mono a b c (omega arith))
mul_mono (pos a) (negsuc b) (pos c) p h = absurd (omega arith)
mul_mono (negsuc a) (pos b) (pos c) p h = omega (arith, neg_ℕ-parts (suc a * c / scale))
mul_mono (negsuc a) (negsuc b) (pos c) p h = omega (
  arith,
  neg_ℕ-parts (suc a * c / scale),
  neg_ℕ-parts (suc b * c / scale),
  scaled_mono (suc b) (suc a) c (omega arith),
)
mul_mono x y (negsuc c) p h = absurd (omega arith)

div_mono : (x y z : Fixed) → pos 1 ≤ℤ z → x ≤ℤ y → div x z ≤ℤ div y z
unfolding div
div_mono (pos a) (pos b) (pos c) p h = omega (arith, ratio_mono a b c (omega arith))
div_mono (pos a) (negsuc b) (pos c) p h = absurd (omega arith)
div_mono (negsuc a) (pos b) (pos c) p h = omega (arith, neg_ℕ-parts (suc a * scale / c))
div_mono (negsuc a) (negsuc b) (pos c) p h = omega (
  arith,
  neg_ℕ-parts (suc a * scale / c),
  neg_ℕ-parts (suc b * scale / c),
  ratio_mono (suc b) (suc a) c (omega arith),
)
div_mono x y (negsuc c) p h = absurd (omega arith)

mul-one : (x : Fixed) → mul x (lit 1 0) ≡ x
unfolding mul lit
mul-one (pos a) = ap pos (omega arith)
mul-one (negsuc a) =
    eq_of_parts _ _ (omega (arith, neg_ℕ-parts (suc a * 1_000_000_000_000 / scale)))

add_mono : (x y z : Fixed) → x ≤ℤ y → x +ℤ z ≤ℤ y +ℤ z
add_mono x y z h = omega int_laws

neg_neg_ℕ : (n : ℕ) → neg_ℤ (neg_ℕ n) ≡ pos n
neg_neg_ℕ zero = refl
neg_neg_ℕ (suc n) = refl

mul-neg : (x y : Fixed) → mul x (neg_ℤ y) ≡ neg_ℤ (mul x y)
unfolding mul
mul-neg (pos a) (pos zero) = rw mul-zero
mul-neg (pos a) (pos (suc b)) = refl
mul-neg (pos a) (negsuc b) = sym (neg_neg_ℕ (a * suc b / scale))
mul-neg (negsuc a) (pos zero) = rw mul-zero
mul-neg (negsuc a) (pos (suc b)) = sym (neg_neg_ℕ (suc a * suc b / scale))
mul-neg (negsuc a) (negsuc b) = refl

of_int_mono : (a b : ℤ) → a ≤ℤ b → of_int a ≤ℤ of_int b
unfolding of_int
of_int_mono (pos a) (pos b) h = omega arith
of_int_mono (pos a) (negsuc b) h = absurd (omega arith)
of_int_mono (negsuc a) (pos b) h = omega (arith, neg_ℕ-parts (suc a * scale))
of_int_mono (negsuc a) (negsuc b) h =
    omega (arith, neg_ℕ-parts (suc a * scale), neg_ℕ-parts (suc b * scale))

of_int-trunc-le : (x : Fixed) → pos 0 ≤ℤ x → of_int (trunc x) ≤ℤ x
unfolding of_int trunc
of_int-trunc-le (pos a) h = omega arith
of_int-trunc-le (negsuc a) h = absurd (omega arith)

trunc_nonneg : (x : Fixed) → pos 0 ≤ℤ x → pos 0 ≤ℤ trunc x
unfolding trunc
trunc_nonneg (pos a) h = omega arith
trunc_nonneg (negsuc a) h = absurd (omega arith)

pow_add : (a b : ℕ) → 10 ^ (a + b) ≡ 10 ^ a * 10 ^ b
pow_add a zero = rw (add-zero, pow-zero, nat_mul-one)
pow_add a (suc b) = rw (add-suc, pow-suc 10 (a + b), pow-suc 10 b, pow_add a b, mul_assoc)

-- The scale is a multiple of every decimal place.
scale_split : (d : ℕ) → 10 ^ (12 - (12 - d)) * place d ≡ scale
unfolding place
scale_split d =
    let whole : 12 - (12 - d) + (12 - d) ≡ 12 = omega arith in
    sym (pow_add (12 - (12 - d)) (12 - d)) ∙ ap (λ e. 10 ^ e) whole

units_mono : (a b d : ℕ) → a ≤ b → half_even a (place d) * place d ≤ half_even b (place d) * place d
units_mono a b d h = mul-le-mul_right (place d) (half_even_mono a b (place d) h)

units-scaled : (a d : ℕ) → half_even (a * scale) (place d) * place d ≡ a * scale
units-scaled a d =
    let c = 10 ^ (12 - (12 - d)) in
    let e : a * c * place d ≡ a * scale =
      mul_assoc a c (place d) ∙ ap (λ t. a * t) (scale_split d) in
    rw (← e, half_even-mul (a * c) (place d) (place_pos d))

half_even-zero : (d : ℕ) → half_even 0 d ≡ 0
unfolding half_even by_remainder
half_even-zero d = ground (arith, div-le_self 0 d)

round-neg_ℕ : (d n : ℕ) → round d (neg_ℕ n) ≡ neg_ℕ (half_even n (place d) * place d)
unfolding round
round-neg_ℕ d zero = rw (half_even-zero (place d), zero-mul)
round-neg_ℕ d (suc n) = refl

round_mono : (d : ℕ) (x y : Fixed) → x ≤ℤ y → round d x ≤ℤ round d y
unfolding round
round_mono d (pos a) (pos b) h = omega (arith, units_mono a b d (omega arith))
round_mono d (pos a) (negsuc b) h = absurd (omega arith)
round_mono d (negsuc a) (pos b) h =
    omega (arith, neg_ℕ-parts (half_even (suc a) (place d) * place d))
round_mono d (negsuc a) (negsuc b) h = omega (
  arith,
  neg_ℕ-parts (half_even (suc a) (place d) * place d),
  neg_ℕ-parts (half_even (suc b) (place d) * place d),
  units_mono (suc b) (suc a) d (omega arith),
)

round-of_int : (d : ℕ) (a : ℤ) → round d (of_int a) ≡ of_int a
unfolding round of_int
round-of_int d (pos a) = ap pos (units-scaled a d)
round-of_int d (negsuc a) = round-neg_ℕ d (suc a * scale) ∙ ap neg_ℕ (units-scaled (suc a) d)

mul-nought : (x : Fixed) → mul x (pos 0) ≡ pos 0
unfolding mul
mul-nought (pos a) = rw mul-zero
mul-nought (negsuc a) = rw mul-zero

nought-div : (z : Fixed) → pos 1 ≤ℤ z → div (pos 0) z ≡ pos 0
unfolding div
nought-div (pos c) h = ap pos (omega arith)
nought-div (negsuc c) h = absurd (omega arith)

div_self : (x : Fixed) → pos 1 ≤ℤ x → div x x ≡ lit 1 0
unfolding div lit
div_self (pos a) h = ap pos (mul-div_right scale (omega arith))
div_self (negsuc a) h = absurd (omega arith)

sqrt_nonneg : (x : Fixed) → pos 0 ≤ℤ sqrt x
unfolding sqrt
sqrt_nonneg (pos a) = omega arith
sqrt_nonneg (negsuc a) = omega arith

holds : (x y : Fixed) → x ≤ℤ y → leb_ℤ x y ≡ true
holds x y h = ground arith

reads : (x y : Fixed) → leb_ℤ x y ≡ true → x ≤ℤ y
reads x y h = ground arith

reads_lt : (z : Fixed) → leb_ℤ z (pos 0) ≡ false → pos 1 ≤ℤ z
reads_lt (pos c) h = ground arith
reads_lt (negsuc c) h = ground arith

pub Fixed-IsFloat : IsFloat Fixed
unfolding mul div of_int trunc round lit
Fixed-IsFloat = record {
  le_total = λ x y. ground arith;
  le_trans = λ x y z. ground arith;
  le_antisym = λ x y h k. ground arith;
  add_comm = λ x y. omega int_laws;
  add-nought = λ x. omega int_laws;
  add_mono = λ x y z h. holds (x +ℤ z) (y +ℤ z) (add_mono x y z (reads x y h));
  neg_neg = λ x. omega (int_laws, neg_ℤ_parts x, neg_ℤ_parts (neg_ℤ x));
  neg_anti =
      λ x y h. holds (neg_ℤ y) (neg_ℤ x) (omega (arith, reads x y h, neg_ℤ_parts x, neg_ℤ_parts y));
  add-neg_self = λ x. omega (int_laws, neg_ℤ_parts x);
  mul_comm = mul_comm_lem;
  mul-one = mul-one;
  mul-nought = mul-nought;
  mul-neg = mul-neg;
  mul_mono =
      λ x y z p h. holds (mul x z) (mul y z) (mul_mono x y z (reads (pos 0) z p) (reads x y h));
  div_mono = λ x y z p h. holds (div x z) (div y z) (div_mono x y z (reads_lt z p) (reads x y h));
  nought-div = λ z p. nought-div z (reads_lt z p);
  div_self = λ x p. div_self x (reads_lt x p);
  sqrt_nonneg = λ x h. holds (pos 0) (sqrt x) (sqrt_nonneg x);
  lit_mono = λ m k n j h. holds (lit m k) (lit n j) (lit_mono m k n j h);
  nought-lt-one = refl;
  of_int_mono = λ a b h. holds (of_int a) (of_int b) (of_int_mono a b h);
  of_int-zero = refl;
  of_int-one = refl;
  of_int-neg_one = refl;
  of_int-trunc-le = λ x h. holds (of_int (trunc x)) x (of_int-trunc-le x (reads (pos 0) x h));
  trunc_nonneg = λ x h. trunc_nonneg x (reads (pos 0) x h);
  round_mono = λ d x y h. holds (round d x) (round d y) (round_mono d x y (reads x y h));
  round-of_int = round-of_int;
}
