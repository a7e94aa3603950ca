-- ===== src/Base/Lists.antt =====
-- Lists measured by native numbers, under the library's names, and predicates on lists.
use Prim.Native.Nat.{ℕ, zero, suc, ◌+◌, ◌-◌, ◌≤◌, min}
use mathlib.Core.Path.{◌≡◌, refl, ap, sym, ◌∙◌}
use mathlib.Core.Logic.{◌⊎◌}
use mathlib.Core.Bool.{Bool, true, false, not, ◌&&◌, ◌||◌}
use mathlib.Core.List.{List, [], ◌∷◌, ◌++◌, map}
use native.Mathlib.Omega.{arith}

module _ {ℓ} {A : Type ℓ} where
  abbrev pub length : List A → ℕ
  length [] = 0
  length (x ∷ xs) = suc (length xs)

  abbrev pub take : ℕ → List A → List A
  take zero xs = []
  take (suc n) [] = []
  take (suc n) (x ∷ xs) = x ∷ take n xs

  abbrev pub drop : ℕ → List A → List A
  drop zero xs = xs
  drop (suc n) [] = []
  drop (suc n) (x ∷ xs) = drop n xs

  -- Python's `all(p(x) for x in xs)`.
  abbrev pub all : (A → Bool) → List A → Bool
  all p [] = true
  all p (x ∷ xs) = p x && all p xs

  -- Python's `any(p(x) for x in xs)`.
  abbrev pub any : (A → Bool) → List A → Bool
  any p [] = false
  any p (x ∷ xs) = p x || any p xs

  -- Python's `[x for x in xs if p(x)]`.
  abbrev pub select : (A → Bool) → List A → List A
  select p [] = []
  select p (x ∷ xs) = elim (p x) [ true ↦ x ∷ select p xs | false ↦ select p xs ]

  -- Python's `sum(1 for x in xs if p(x))`.
  abbrev pub count : (A → Bool) → List A → ℕ
  count p [] = 0
  count p (x ∷ xs) = elim (p x) [ true ↦ suc (count p xs) | false ↦ count p xs ]

  abbrev pub All {κ} : (A → Type κ) → List A → Type κ
  All P [] = Unit
  All P (x ∷ xs) = P x × All P xs

  pub length-append : (xs ys : List A) → length (xs ++ ys) ≡ length xs + length ys
  length-append [] ys = omega arith
  length-append (x ∷ xs) ys = omega (arith, length-append xs ys)

  pub select-yes :
      (p : A → Bool) (x : A) (xs : List A) → p x ≡ true → select p (x ∷ xs) ≡ x ∷ select p xs
  select-yes p x xs h = rw (h, select) refl

  pub select-no :
      (p : A → Bool) (x : A) (xs : List A) → p x ≡ false → select p (x ∷ xs) ≡ select p xs
  select-no p x xs h = rw (h, select) refl

  pub nil_of-length : (xs : List A) → length xs ≡ 0 → xs ≡ []
  nil_of-length [] h = refl
  nil_of-length (x ∷ xs) h = absurd (omega (arith, h))

  pub append-drop : (n : ℕ) (xs ys : List A) → n ≤ length xs → drop n xs ++ ys ≡ drop n (xs ++ ys)
  append-drop zero xs ys h = refl
  append-drop (suc n) [] ys h = absurd (omega (arith, h))
  append-drop (suc n) (x ∷ xs) ys h = append-drop n xs ys (omega (arith, h))

  drop-nil : (n : ℕ) → drop n [] ≡ []
  drop-nil zero = refl
  drop-nil (suc n) = refl

  pub drop-drop : (m n k : ℕ) (xs : List A) → k ≡ n + m → drop m (drop n xs) ≡ drop k xs
  drop-drop m zero k xs h = ap (λ i. drop i xs) (omega (arith, h))
  drop-drop m (suc n) k [] h = drop-nil m ∙ sym (drop-nil k)
  drop-drop m (suc n) zero (x ∷ xs) h = absurd (omega (arith, h))
  drop-drop m (suc n) (suc k) (x ∷ xs) h = drop-drop m n k xs (omega (arith, h))

  pub length-drop : (n : ℕ) (xs : List A) → length (drop n xs) ≡ length xs - n
  length-drop zero xs = omega arith
  length-drop (suc n) [] = omega arith
  length-drop (suc n) (x ∷ xs) = omega (arith, length-drop n xs)

  pub length-take : (n : ℕ) (xs : List A) → length (take n xs) ≡ min n (length xs)
  length-take zero xs = omega arith
  length-take (suc n) [] = omega arith
  length-take (suc n) (x ∷ xs) = omega (arith, length-take n xs)

  pub take-append-drop : (n : ℕ) (xs : List A) → take n xs ++ drop n xs ≡ xs
  take-append-drop zero xs = refl
  take-append-drop (suc n) [] = refl
  take-append-drop (suc n) (x ∷ xs) = ap (◌∷◌ x) (take-append-drop n xs)

  pub count-not : (p : A → Bool) (xs : List A) → count p xs + count (λ x. not (p x)) xs ≡ length xs
  count-not p [] = refl
  count-not p (x ∷ xs) = ground (arith, count-not p xs)

  pub all-append : (p : A → Bool) (xs ys : List A) → all p (xs ++ ys) ≡ (all p xs && all p ys)
  all-append p [] ys = refl
  all-append p (x ∷ xs) ys = ground (arith, all-append p xs ys)

  pub All-append {κ} : (P : A → Type κ) (xs ys : List A) → All P xs → All P ys → All P (xs ++ ys)
  All-append P [] ys _ q = q
  All-append P (x ∷ xs) ys (p, ps) q = (p, All-append P xs ys ps q)

pub length-map {ℓ κ} :
    {A : Type ℓ} {B : Type κ} (f : A → B) (xs : List A) → length (map f xs) ≡ length xs
length-map f [] = refl
length-map f (x ∷ xs) = ap suc (length-map f xs)

module _ {A : Type 0} where
  -- Some element is `b`; and, in Before, some element is `a` and one after it is `b`.
  abbrev pub Among : A → List A → Type 0
  Among b [] = ⊥
  Among b (x ∷ xs) = (x ≡ b) ⊎ Among b xs

  abbrev pub Before : A → A → List A → Type 0
  Before a b [] = ⊥
  Before a b (x ∷ xs) = ((x ≡ a) × Among b xs) ⊎ Before a b xs

  pub Among-select :
      (p : A → Bool) (b : A) (xs : List A) → Among b (select p xs) → Among b xs × (p b ≡ true)
  Among-select p b [] h = absurd h
  Among-select p b (x ∷ xs) h = ground (arith, Among-select p b xs)

  pub Before-select :
      (p : A → Bool) (a b : A) (xs : List A)
      → Before a b (select p xs)
      → Before a b xs × ((p a ≡ true) × (p b ≡ true))
  Before-select p a b [] h = absurd h
  Before-select p a b (x ∷ xs) h = ground (arith, Among-select p b xs, Before-select p a b xs)
