-- ===== src/Float.antt =====
-- Python's `float`, for every file under src/ that computes with prices, sizes, ratios or seconds.
-- A rounded operation is written with a circle. The values are the finite ones, and the two zeros are
-- one value. A division by zero has no meaning here: where the source does not exclude it, the model does,
-- by the outcome that its exception has.
pub mod Laws
pub mod Fixed
use sibilla.Base.{ℕ, ◌+◌, ◌*◌, ◌^◌, ◌≤◌, ◌≡◌, ◌⊎◌, Bool, true, false, not, ◌&&◌, if◌then◌else◌}
use sibilla.Base.Int.{ℤ, pos, negsuc, ◌≤ℤ◌}

pub record Float (W : Type 0) : Type 0 where
  -- `lit m k` is the decimal constant m / 10 ^ k
  pub lit : ℕ → ℕ → W
  pub of_int : ℤ → W
  pub le : W → W → Bool
  pub add : W → W → W
  pub neg : W → W
  pub mul : W → W → W
  pub div : W → W → W
  -- `x ** 0.5`
  pub sqrt : W → W
  -- `int(x)`
  pub trunc : W → ℤ
  -- `x // 1`, as an integer
  pub floor : W → ℤ
  -- `round(x)`
  pub nearest : W → ℤ
  -- `round(x, d)`
  pub round : ℕ → W → W

module _ {W : Type 0} ⦃F : Float W⦄ where
  infixl 65 ◌⊕◌ ◌⊖◌
  infixl 70 ◌⊗◌ ◌⊘◌
  infix 50 ◌≤?◌ ◌<?◌ ◌=F◌
  infix 4 ◌≼◌ ◌≺◌
  abbrev pub ◌⊕◌ : W → W → W
  x ⊕ y = F.add x y

  abbrev pub ◌⊖◌ : W → W → W
  x ⊖ y = F.add x (F.neg y)

  abbrev pub ◌⊗◌ : W → W → W
  x ⊗ y = F.mul x y

  abbrev pub ◌⊘◌ : W → W → W
  x ⊘ y = F.div x y

  abbrev pub nought : W
  nought = F.lit 0 0

  abbrev pub one : W
  one = F.lit 1 0

  abbrev pub ◌≤?◌ : W → W → Bool
  x ≤? y = F.le x y

  abbrev pub ◌<?◌ : W → W → Bool
  x <? y = not (F.le y x)

  abbrev pub ◌=F◌ : W → W → Bool
  x =F y = F.le x y && F.le y x

  abbrev pub ◌≼◌ : W → W → Type 0
  x ≼ y = F.le x y ≡ true

  abbrev pub ◌≺◌ : W → W → Type 0
  x ≺ y = F.le y x ≡ false

  -- Python's `min` and `max` return the first argument on a tie.
  abbrev pub fmin : W → W → W
  fmin x y = if y <? x then y else x

  abbrev pub fmax : W → W → W
  fmax x y = if x <? y then y else x

  abbrev pub fabs : W → W
  fabs x = if x <? nought then F.neg x else x

-- What IEEE 754 arithmetic with correct rounding keeps of the ordered field: the order, the exact
-- cases and the monotony of each rounded operation.
pub record IsFloat (W : Type 0) ⦃F : Float W⦄ : Type 0 where
  pub le_total : (x y : W) → (x ≼ y) ⊎ (y ≼ x)
  pub le_trans : (x y z : W) → x ≼ y → y ≼ z → x ≼ z
  pub le_antisym : (x y : W) → x ≼ y → y ≼ x → x ≡ y
  pub add_comm : (x y : W) → x ⊕ y ≡ y ⊕ x
  pub add-nought : (x : W) → x ⊕ nought ≡ x
  pub add_mono : (x y z : W) → x ≼ y → x ⊕ z ≼ y ⊕ z
  pub neg_neg : (x : W) → F.neg (F.neg x) ≡ x
  pub neg_anti : (x y : W) → x ≼ y → F.neg y ≼ F.neg x
  pub add-neg_self : (x : W) → x ⊖ x ≡ nought
  pub mul_comm : (x y : W) → x ⊗ y ≡ y ⊗ x
  pub mul-one : (x : W) → x ⊗ one ≡ x
  pub mul-nought : (x : W) → x ⊗ nought ≡ nought
  pub mul-neg : (x y : W) → x ⊗ F.neg y ≡ F.neg (x ⊗ y)
  pub mul_mono : (x y z : W) → nought ≼ z → x ≼ y → x ⊗ z ≼ y ⊗ z
  pub div_mono : (x y z : W) → nought ≺ z → x ≼ y → x ⊘ z ≼ y ⊘ z
  pub nought-div : (z : W) → nought ≺ z → nought ⊘ z ≡ nought
  pub div_self : (x : W) → nought ≺ x → x ⊘ x ≡ one
  pub sqrt_nonneg : (x : W) → nought ≼ x → nought ≼ F.sqrt x
  pub lit_mono : (m k n j : ℕ) → m * 10 ^ j ≤ n * 10 ^ k → F.lit m k ≼ F.lit n j
  pub nought-lt-one : F.lit 0 0 ≺ F.lit 1 0
  pub of_int_mono : (a b : ℤ) → a ≤ℤ b → F.of_int a ≼ F.of_int b
  pub of_int-zero : F.of_int (pos 0) ≡ nought
  pub of_int-one : F.of_int (pos 1) ≡ one
  pub of_int-neg_one : F.of_int (negsuc 0) ≡ F.neg one
  pub of_int-trunc-le : (x : W) → nought ≼ x → F.of_int (F.trunc x) ≼ x
  pub trunc_nonneg : (x : W) → nought ≼ x → pos 0 ≤ℤ F.trunc x
  pub round_mono : (d : ℕ) (x y : W) → x ≼ y → F.round d x ≼ F.round d y
  pub round-of_int : (d : ℕ) (a : ℤ) → F.round d (F.of_int a) ≡ F.of_int a
