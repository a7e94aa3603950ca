-- ===== src/Base/Strings.antt =====
-- Python's `str` as the sequence of its code points, with the case mapping of ASCII.
use Prim.Native.Nat.{ℕ, zero, suc, ◌+◌, ◌-◌, ◌*◌, ◌/◌, ◌%◌, ◌<◌}
use Prim.Native.Char.{code}
use Prim.Native.String.{String}
use mathlib.Core.Path.{◌≡◌, refl, ap, ◌∙◌}
use mathlib.Core.Logic.{◌↔◌, inl, inr}
use mathlib.Core.Option.{Option, none, some}
use mathlib.Core.Bool.{Bool, true, false, ◌&&◌, ◌||◌}
use mathlib.Core.List.{List, [], ◌∷◌, ◌++◌}
use native.Mathlib.Omega.{arith}
use sibilla.Base.Tests.{Bool-cases, ◌==◌, leb, if◌then◌else◌}
use sibilla.Base.Lists.{any}
use sibilla.Base.Int.{ℤ, pos, negsuc}

abbrev pub Text : Type 0
Text = List ℕ

abbrev pub text : String → Text
text String.[] = []
text (String.◌∷◌ c s) = code c ∷ text s

infix 50 ◌=?◌
abbrev pub ◌=?◌ : Text → Text → Bool
[] =? [] = true
[] =? (_ ∷ _) = false
(_ ∷ _) =? [] = false
(a ∷ s) =? (b ∷ t) = a == b && s =? t

pub =?_iff : (s t : Text) → ((s =? t) ≡ true) ↔ (s ≡ t)
=?_iff [] [] = ground arith
=?_iff [] (b ∷ t) = ground arith
=?_iff (a ∷ s) [] = ground arith
=?_iff (a ∷ s) (b ∷ t) = ground (arith, =?_iff s t)

-- `s.startswith(p)`.
abbrev pub starts_with : Text → Text → Bool
starts_with s [] = true
starts_with [] (_ ∷ _) = false
starts_with (a ∷ s) (b ∷ p) = a == b && starts_with s p

-- `p in s`, for substrings.
abbrev pub contains : Text → Text → Bool
contains p [] = starts_with [] p
contains p (c ∷ s) = starts_with (c ∷ s) p || contains p s

-- `s in (t, u, ...)`.
abbrev pub one_of : Text → List Text → Bool
one_of s ts = any (λ t. s =? t) ts

abbrev pub upper_code : ℕ → ℕ
upper_code c = if leb b'a' c && leb c b'z' then c - 32 else c

abbrev pub lower_code : ℕ → ℕ
lower_code c = if leb b'A' c && leb c b'Z' then c + 32 else c

abbrev pub upper : Text → Text
upper [] = []
upper (c ∷ s) = upper_code c ∷ upper s

abbrev pub lower : Text → Text
lower [] = []
lower (c ∷ s) = lower_code c ∷ lower s

-- The decimal digits of n before those of `tail`; each step takes one digit, so n steps are enough.
digits_from : ℕ → ℕ → Text → Text
digits_from zero n tail = tail
digits_from (suc fuel) n tail = elim (leb 10 n) [
  | true ↦ digits_from fuel (n / 10) ((b'0' + n % 10) ∷ tail)
  | false ↦ (b'0' + n % 10) ∷ tail
]

-- `str(n)`.
unfoldable pub digits : ℕ → Text
unfolding digits_from
digits n = digits_from (suc n) n []

unfoldable pub signed_digits : ℤ → Text
unfolding digits
signed_digits (pos n) = digits n
signed_digits (negsuc n) = text "-" ++ digits (suc n)

abbrev pub is_digit : ℕ → Bool
is_digit c = leb b'0' c && leb c b'9'

parse_from : ℕ → Text → Option ℕ
parse_from acc [] = some acc
parse_from acc (c ∷ s) = elim (is_digit c) [
  | true ↦ parse_from (acc * 10 + (c - b'0')) s
  | false ↦ none
]

-- `int(s)` of a string of ASCII digits; the signs, blanks and underscores that Python also reads are
-- refused.
unfoldable pub parse_nat : Text → Option ℕ
unfolding parse_from
parse_nat s = elim (s =? []) [ true ↦ none | false ↦ parse_from 0 s ]

parse_from-digit :
    (acc n : ℕ) (tail : Text)
    → parse_from acc ((b'0' + n % 10) ∷ tail) ≡ parse_from (acc * 10 + n % 10) tail
unfolding parse_from
parse_from-digit acc n tail = grind arith

parse_from-digits_from :
    (fuel n : ℕ) (tail : Text)
    → n < fuel
    → parse_from 0 (digits_from fuel n tail) ≡ parse_from n tail
unfolding digits_from
parse_from-digits_from zero n tail h = absurd (omega arith)
parse_from-digits_from (suc fuel) n tail h = elim (Bool-cases (leb 10 n)) [
  | inl big ↦
      rw (big, digits_from)
        (parse_from-digits_from fuel (n / 10) ((b'0' + n % 10) ∷ tail) (ground arith)
          ∙ parse_from-digit (n / 10) n tail
          ∙ ap (λ k. parse_from k tail) (omega arith))
  | inr small ↦
      rw (small, digits_from)
        (parse_from-digit 0 n tail ∙ ap (λ k. parse_from k tail) (ground arith))
]

digits_from-cons : (fuel n c : ℕ) (tail : Text) → (digits_from fuel n (c ∷ tail) =? []) ≡ false
unfolding digits_from
digits_from-cons zero n c tail = refl
digits_from-cons (suc fuel) n c tail = elim (Bool-cases (leb 10 n)) [
  | inl big ↦ rw (big, digits_from) (digits_from-cons fuel (n / 10) (b'0' + n % 10) (c ∷ tail))
  | inr small ↦ rw (small, digits_from) refl
]

digits-cons : (n : ℕ) → (digits n =? []) ≡ false
unfolding digits digits_from
digits-cons n = elim (Bool-cases (leb 10 n)) [
  | inl big ↦ rw (big, digits_from) (digits_from-cons n (n / 10) (b'0' + n % 10) [])
  | inr small ↦ rw (small, digits_from) refl
]

pub parse_nat-digits : (n : ℕ) → parse_nat (digits n) ≡ some n
unfolding parse_nat parse_from digits digits_from
parse_nat-digits n =
    rw (digits-cons n, parse_nat) (parse_from-digits_from (suc n) n [] (omega arith))

digits_example : digits 1_700_040_250 ≡ text "1700040250"
unfolding digits
digits_example = refl
