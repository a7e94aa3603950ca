-- ===== src/Base/Int.antt =====
-- Python's `int`: signed integers over the native numbers, with the two parts that `omega` reads.
use Prim.Native.Nat.{ℕ, zero, suc, ◌+◌, ◌-◌, ◌≤◌}
use mathlib.Core.Path.{◌≡◌, refl}
use mathlib.Core.Bool.{Bool}
use native.Mathlib.Omega.{arith}
use sibilla.Base.Tests.{leb, if◌then◌else◌}

-- `negsuc n` is -(n + 1).
pub data ℤ : Type 0 where
  pos : ℕ → ℤ
  negsuc : ℕ → ℤ

abbrev pub pos_part : ℤ → ℕ
pos_part (pos n) = n
pos_part (negsuc n) = 0

abbrev pub neg_part : ℤ → ℕ
neg_part (pos n) = 0
neg_part (negsuc n) = suc n

-- a - b, as an integer.
abbrev pub sub_ℕ : ℕ → ℕ → ℤ
sub_ℕ a b = if leb b a then pos (a - b) else negsuc (b - a - 1)

-- -n, as an integer.
abbrev pub neg_ℕ : ℕ → ℤ
neg_ℕ zero = pos 0
neg_ℕ (suc n) = negsuc n

abbrev pub neg_ℤ : ℤ → ℤ
neg_ℤ (pos n) = neg_ℕ n
neg_ℤ (negsuc n) = pos (suc n)

infixl 65 ◌+ℤ◌
infix 50 ◌≤ℤ◌
unfoldable pub ◌+ℤ◌ : ℤ → ℤ → ℤ
a +ℤ b = sub_ℕ (pos_part a + pos_part b) (neg_part a + neg_part b)

abbrev pub ◌≤ℤ◌ : ℤ → ℤ → Type 0
a ≤ℤ b = pos_part a + neg_part b ≤ pos_part b + neg_part a

abbrev pub leb_ℤ : ℤ → ℤ → Bool
leb_ℤ a b = leb (pos_part a + neg_part b) (pos_part b + neg_part a)

pub +ℤ_parts :
    (a b : ℤ)
    → pos_part (a +ℤ b) + neg_part a + neg_part b ≡ neg_part (a +ℤ b) + pos_part a + pos_part b
unfolding ◌+ℤ◌
+ℤ_parts a b = ground arith

pub eq_of_parts : (a b : ℤ) → pos_part a + neg_part b ≡ pos_part b + neg_part a → a ≡ b
eq_of_parts a b h = ground arith

pub neg_ℤ_parts : (a : ℤ) → (pos_part (neg_ℤ a) ≡ neg_part a) × (neg_part (neg_ℤ a) ≡ pos_part a)
neg_ℤ_parts (pos zero) = (refl, refl)
neg_ℤ_parts (pos (suc n)) = (refl, refl)
neg_ℤ_parts (negsuc n) = (refl, refl)

pub ruleset int_laws = (arith, +ℤ_parts, eq_of_parts)
