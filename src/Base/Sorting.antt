-- ===== src/Base/Sorting.antt =====
-- Python's stable `sort`, by insertion, for an order given as a test; `goes_first x y` reads "x may
-- stand before y".
use mathlib.Core.Path.{◌≡◌, refl, ap, sym, ◌∙◌}
use mathlib.Core.Logic.{◌⊎◌, inl, inr}
use mathlib.Core.Bool.{Bool, true}
use mathlib.Core.List.{List, [], ◌∷◌}
use native.Mathlib.Omega.{arith}
use Prim.Native.Nat.{ℕ, zero, suc}
use sibilla.Base.Tests.{if◌then◌else◌, Bool-cases}
use sibilla.Base.Lists.{All, select, take, drop}

module _ {ℓ} {A : Type ℓ} (goes_first : A → A → Bool) where
  abbrev pub insert_sorted : A → List A → List A
  insert_sorted x [] = x ∷ []
  insert_sorted x (y ∷ ys) = if goes_first x y then x ∷ y ∷ ys else y ∷ insert_sorted x ys

  abbrev pub sort_by : List A → List A
  sort_by [] = []
  sort_by (x ∷ xs) = insert_sorted x (sort_by xs)

  -- Each element may stand before those after it.
  abbrev pub IsSorted : List A → Type ℓ
  IsSorted [] = Unit
  IsSorted (x ∷ xs) = All (λ y. goes_first x y ≡ true) xs × IsSorted xs

  insert_sorted-All {κ} :
      (P : A → Type κ) (x : A) (ys : List A) → P x → All P ys → All P (insert_sorted x ys)
  insert_sorted-All P x [] p h = (p, tt)
  insert_sorted-All P x (y ∷ ys) p (q, h) = elim (Bool-cases (goes_first x y)) [
    | inl e ↦ rw (e) (p, (q, h))
    | inr e ↦ rw (e) (q, insert_sorted-All P x ys p h)
  ]

  pub sort_by-All {κ} : (P : A → Type κ) (xs : List A) → All P xs → All P (sort_by xs)
  sort_by-All P [] h = tt
  sort_by-All P (x ∷ xs) (p, h) = insert_sorted-All P x (sort_by xs) p (sort_by-All P xs h)

  -- Elements that may stand in either order keep theirs.
  insert_sorted-select :
      (p : A → Bool)
      → ((x y : A) → p x ≡ true → p y ≡ true → goes_first x y ≡ true)
      → (x : A) (ys : List A) → select p (insert_sorted x ys) ≡ select p (x ∷ ys)
  insert_sorted-select p same x [] = refl
  insert_sorted-select p same x (y ∷ ys) =
      ground (arith, same x y, insert_sorted-select p same x ys)

  pub sort_by-select :
      (p : A → Bool)
      → ((x y : A) → p x ≡ true → p y ≡ true → goes_first x y ≡ true)
      → (xs : List A) → select p (sort_by xs) ≡ select p xs
  sort_by-select p same [] = refl
  sort_by-select p same (x ∷ xs) =
      ground (arith, insert_sorted-select p same x (sort_by xs), sort_by-select p same xs)

  All-trans :
      ((x y z : A) → goes_first x y ≡ true → goes_first y z ≡ true → goes_first x z ≡ true)
      → (x y : A) (zs : List A) → goes_first x y ≡ true
      → All (λ z. goes_first y z ≡ true) zs
      → All (λ z. goes_first x z ≡ true) zs
  All-trans trans x y [] h k = tt
  All-trans trans x y (z ∷ zs) h (k, ks) = (trans x y z h k, All-trans trans x y zs h ks)

  select-All {κ} : (p : A → Bool) (P : A → Type κ) (xs : List A) → All P xs → All P (select p xs)
  select-All p P [] h = tt
  select-All p P (x ∷ xs) (q, h) = elim (Bool-cases (p x)) [
    | inl k ↦ rw (k, select) (q, select-All p P xs h)
    | inr k ↦ rw (k, select) (select-All p P xs h)
  ]

  sort_by-select_head :
      (p : A → Bool) (x : A) (xs : List A)
      → sort_by (select p (x ∷ xs))
        ≡ (if p x then insert_sorted x (sort_by (select p xs)) else sort_by (select p xs))
  sort_by-select_head p x xs = elim (Bool-cases (p x)) [
    | inl k ↦ rw (k, select) refl
    | inr k ↦ rw (k, select) refl
  ]

  module _ (total : (x y : A) → (goes_first x y ≡ true) ⊎ (goes_first y x ≡ true))
      (trans : (x y z : A)
        → goes_first x y ≡ true
        → goes_first y z ≡ true
        → goes_first x z ≡ true) where
    insert_sorted-IsSorted : (x : A) (ys : List A) → IsSorted ys → IsSorted (insert_sorted x ys)
    insert_sorted-IsSorted x [] h = (tt, tt)
    insert_sorted-IsSorted x (y ∷ ys) (h, hs) = elim (Bool-cases (goes_first x y)) [
      | inl e ↦ rw (e) ((e, All-trans trans x y ys e h), (h, hs))
      | inr e ↦ rw (e) (
        insert_sorted-All (λ z. goes_first y z ≡ true) x ys (ground (arith, total x y)) h,
        insert_sorted-IsSorted x ys hs,
      )
    ]

    pub sort_by-IsSorted : (xs : List A) → IsSorted (sort_by xs)
    sort_by-IsSorted [] = tt
    sort_by-IsSorted (x ∷ xs) = insert_sorted-IsSorted x (sort_by xs) (sort_by-IsSorted xs)

    -- What may stand before the head of a list may stand before all of it.
    insert_sorted-first :
        (x : A) (ys : List A) → All (λ y. goes_first x y ≡ true) ys → insert_sorted x ys ≡ x ∷ ys
    insert_sorted-first x [] h = refl
    insert_sorted-first x (y ∷ ys) (h, hs) = rw (h) refl

    select-insert_sorted :
        (p : A → Bool) (x : A) (ys : List A)
        → IsSorted ys
        → select p (insert_sorted x ys)
          ≡ (if p x then insert_sorted x (select p ys) else select p ys)
    select-insert_sorted p x [] h = ground arith
    select-insert_sorted p x (y ∷ ys) (h, hs) = elim (Bool-cases (goes_first x y)) [
      | inl e ↦
          let first =
            insert_sorted-first x (select p (y ∷ ys)) (
              select-All p (λ z. goes_first x z ≡ true) (y ∷ ys) (e, All-trans trans x y ys e h)) in
          rw (e) (elim (Bool-cases (p x)) [ inl k ↦ rw (k) (sym first) | inr k ↦ rw (k) refl ])
      | inr e ↦ ground (arith, select-insert_sorted p x ys hs)
    ]

    -- Sorting what a test selects is selecting from what is sorted.
    pub sort_by-selected :
        (p : A → Bool) (xs : List A) → sort_by (select p xs) ≡ select p (sort_by xs)
    sort_by-selected p [] = refl
    sort_by-selected p (x ∷ xs) =
        sort_by-select_head p x xs
        ∙ ap (λ zs. if p x then insert_sorted x zs else zs) (sort_by-selected p xs)
        ∙ sym (select-insert_sorted p x (sort_by xs) (sort_by-IsSorted xs))

  drop-All {κ} : (P : A → Type κ) (n : ℕ) (xs : List A) → All P xs → All P (drop n xs)
  drop-All P zero xs h = h
  drop-All P (suc n) [] h = tt
  drop-All P (suc n) (x ∷ xs) (p, h) = drop-All P n xs h

  -- The first n of a sorted list may stand before all the others.
  pub take-first :
      (n : ℕ) (xs : List A)
      → IsSorted xs
      → All (λ x. All (λ y. goes_first x y ≡ true) (drop n xs)) (take n xs)
  take-first zero xs h = tt
  take-first (suc n) [] h = tt
  take-first (suc n) (x ∷ xs) (h, hs) =
      (drop-All (λ y. goes_first x y ≡ true) n xs h, take-first n xs hs)
