-- ===== src/Base/Dicts.antt =====
-- Python's `dict` as an association list in insertion order, and the keys that it takes.
use mathlib.Core.Path.{◌≡◌, refl}
use mathlib.Core.Logic.{◌↔◌}
use mathlib.Core.Bool.{Bool, true}
use mathlib.Core.List.{List, [], ◌∷◌}
use mathlib.Core.Option.{Option, none, some}
use Prim.Native.Nat.{ℕ}
use native.Mathlib.Omega.{arith}
use sibilla.Base.Tests.{if◌then◌else◌, ◌==◌, ==_iff}
use sibilla.Base.Strings.{Text, ◌=?◌, =?_iff}

pub record Key (K : Type 0) : Type 0 where
  pub beq : K → K → Bool
  pub beq_iff : (a b : K) → (beq a b ≡ true) ↔ (a ≡ b)

instance abbrev pub text_key : Key Text
text_key = record { beq = ◌=?◌; beq_iff = =?_iff }

instance abbrev pub nat_key : Key ℕ
nat_key = record { beq = ◌==◌; beq_iff = ==_iff }

abbrev pub Dict {ℓ} : Type 0 → Type ℓ → Type ℓ
Dict K V = List (K × V)

module _ {ℓ} {K : Type 0} {V : Type ℓ} ⦃k : Key K⦄ where
  -- `d.get(key)`
  abbrev pub lookup : K → Dict K V → Option V
  lookup j [] = none
  lookup j ((i, v) ∷ d) = if k.beq i j then some v else lookup j d

  -- `d.get(key, default)`
  abbrev pub get : K → V → Dict K V → V
  get j x [] = x
  get j x ((i, v) ∷ d) = if k.beq i j then v else get j x d

  -- `d[key] = v`
  abbrev pub insert : K → V → Dict K V → Dict K V
  insert j w [] = (j, w) ∷ []
  insert j w ((i, v) ∷ d) = if k.beq i j then (i, w) ∷ d else (i, v) ∷ insert j w d

  -- `d.pop(key, None)`
  abbrev pub remove : K → Dict K V → Dict K V
  remove j [] = []
  remove j ((i, v) ∷ d) = if k.beq i j then d else (i, v) ∷ remove j d

  pub lookup-insert :
      (i j : K) (v : V) (d : Dict K V)
      → lookup j (insert i v d) ≡ (if k.beq i j then some v else lookup j d)
  lookup-insert i j v [] = refl
  lookup-insert i j v ((h, w) ∷ d) =
      ground (arith, k.beq_iff i j, k.beq_iff h i, k.beq_iff h j, lookup-insert i j v d)

  pub get-insert :
      (i j : K) (v x : V) (d : Dict K V)
      → get j x (insert i v d) ≡ (if k.beq i j then v else get j x d)
  get-insert i j v x [] = refl
  get-insert i j v x ((h, w) ∷ d) =
      ground (arith, k.beq_iff i j, k.beq_iff h i, k.beq_iff h j, get-insert i j v x d)

  -- Each key occurs once, as in a `dict`.
  abbrev pub IsDict : Dict K V → Type ℓ
  IsDict [] = Unit
  IsDict ((i, v) ∷ d) = (lookup i d ≡ none) × IsDict d

  pub insert-IsDict : (i : K) (v : V) (d : Dict K V) → IsDict d → IsDict (insert i v d)
  insert-IsDict i v [] h = (refl, tt)
  insert-IsDict i v ((j, w) ∷ d) h =
      ground (arith, insert-IsDict i v d, lookup-insert i j v d, k.beq_iff j i, k.beq_iff i j)

  pub lookup-remove :
      (i j : K) (d : Dict K V)
      → IsDict d
      → lookup j (remove i d) ≡ (if k.beq i j then none else lookup j d)
  lookup-remove i j [] h = ground arith
  lookup-remove i j ((l, w) ∷ d) h =
      ground (arith, k.beq_iff i j, k.beq_iff l i, k.beq_iff l j, lookup-remove i j d)

  pub remove-IsDict : (i : K) (d : Dict K V) → IsDict d → IsDict (remove i d)
  remove-IsDict i [] h = tt
  remove-IsDict i ((j, w) ∷ d) h = ground (arith, remove-IsDict i d, lookup-remove i j d)
