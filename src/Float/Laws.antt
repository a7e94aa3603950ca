-- ===== src/Float/Laws.antt =====
-- What follows from the laws of `IsFloat`: bounds of `min`, `max`, products and quotients by sign.
use sibilla.Base.{◌≡◌, subst, arith}
use sibilla.Float.{Float, IsFloat, ◌⊕◌, ◌⊖◌, ◌⊗◌, ◌⊘◌, ◌≼◌, ◌≺◌, nought, one, fmin, fmax, fabs}

module _ {W : Type 0} ⦃F : Float W⦄ (L : IsFloat W) where
  pub le_refl : (x : W) → x ≼ x
  le_refl x = ground (arith, L.le_total x x)

  pub le_of_lt : (x y : W) → x ≺ y → x ≼ y
  le_of_lt x y h = ground (arith, L.le_total x y)

  pub lt_of_lt_of_le : (x y z : W) → x ≺ y → y ≼ z → x ≺ z
  lt_of_lt_of_le x y z h k = ground (arith, L.le_trans y z x k)

  pub fmin-le_left : (x y : W) → fmin x y ≼ x
  fmin-le_left x y = ground (arith, L.le_total x y, le_refl x)

  pub fmin-le_right : (x y : W) → fmin x y ≼ y
  fmin-le_right x y = ground (arith, L.le_total x y, le_refl y)

  pub le-fmin : (x y z : W) → z ≼ x → z ≼ y → z ≼ fmin x y
  le-fmin x y z h k = ground arith

  pub le-fmax_left : (x y : W) → x ≼ fmax x y
  le-fmax_left x y = ground (arith, L.le_total x y, le_refl x)

  pub le-fmax_right : (x y : W) → y ≼ fmax x y
  le-fmax_right x y = ground (arith, L.le_total x y, le_refl y)

  pub fmax-le : (x y z : W) → x ≼ z → y ≼ z → fmax x y ≼ z
  fmax-le x y z h k = ground arith

  pub nought-mul : (x : W) → nought ⊗ x ≡ nought
  nought-mul x = ground (arith, L.mul_comm nought x, L.mul-nought x)

  pub one-mul : (x : W) → one ⊗ x ≡ x
  one-mul x = ground (arith, L.mul_comm one x, L.mul-one x)

  pub nought-le-one : F.lit 0 0 ≼ F.lit 1 0
  nought-le-one = le_of_lt nought one L.nought-lt-one

  pub mul_nonneg : (x y : W) → nought ≼ x → nought ≼ y → nought ≼ x ⊗ y
  mul_nonneg x y h k = subst (λ t. t ≼ x ⊗ y) (nought-mul y) (L.mul_mono nought x y k h)

  pub mul_mono_left : (x y z : W) → nought ≼ z → x ≼ y → z ⊗ x ≼ z ⊗ y
  mul_mono_left x y z h k = ground (arith, L.mul_comm z x, L.mul_comm z y, L.mul_mono x y z h k)

  -- A factor of at most one does not increase.
  pub mul-le_left : (x y : W) → nought ≼ x → y ≼ one → x ⊗ y ≼ x
  mul-le_left x y h k = subst (λ t. x ⊗ y ≼ t) (L.mul-one x) (mul_mono_left y one x h k)

  pub div_nonneg : (x y : W) → nought ≼ x → nought ≺ y → nought ≼ x ⊘ y
  div_nonneg x y h k = subst (λ t. t ≼ x ⊘ y) (L.nought-div y k) (L.div_mono nought x y k h)

  pub add_mono_both : (x y u v : W) → x ≼ y → u ≼ v → x ⊕ u ≼ y ⊕ v
  add_mono_both x y u v h k =
      L.le_trans (x ⊕ u) (y ⊕ u) (y ⊕ v) (L.add_mono x y u h)
        (ground (arith, L.add_comm y u, L.add_comm y v, L.add_mono u v y k))

  pub add_nonneg : (x y : W) → nought ≼ x → nought ≼ y → nought ≼ x ⊕ y
  add_nonneg x y h k =
      subst (λ t. t ≼ x ⊕ y) (L.add-nought nought) (add_mono_both nought x nought y h k)

  pub le-add_right : (x y : W) → nought ≼ y → x ≼ x ⊕ y
  le-add_right x y h =
      subst (λ t. t ≼ x ⊕ y) (L.add-nought x) (add_mono_both x x nought y (le_refl x) h)

  pub sub_nonneg : (x y : W) → y ≼ x → nought ≼ x ⊖ y
  sub_nonneg x y h = subst (λ t. t ≼ x ⊖ y) (L.add-neg_self y) (L.add_mono y x (F.neg y) h)

  pub neg-nought : F.neg nought ≡ nought
  neg-nought =
      ground (
        arith,
        L.add-neg_self nought,
        L.add_comm nought (F.neg nought),
        L.add-nought (F.neg nought),
      )

  pub sub-le : (x y : W) → nought ≼ y → x ⊖ y ≼ x
  sub-le x y h = ground (
    arith,
    L.neg_anti nought y h,
    neg-nought,
    add_mono_both x x (F.neg y) nought (le_refl x),
    L.add-nought x,
  )

  pub fabs_nonneg : (x : W) → nought ≼ fabs x
  fabs_nonneg x = ground (arith, L.neg_anti x nought, neg-nought, L.le_total x nought)

  pub fabs-of_nonneg : (x : W) → nought ≼ x → fabs x ≡ x
  fabs-of_nonneg x h = ground arith

  pub sub_nonpos : (x y : W) → x ≼ y → x ⊖ y ≼ nought
  sub_nonpos x y h = subst (λ t. x ⊖ y ≼ t) (L.add-neg_self y) (L.add_mono x y (F.neg y) h)

  pub div_nonpos : (x y : W) → x ≼ nought → nought ≺ y → x ⊘ y ≼ nought
  div_nonpos x y h k = subst (λ t. x ⊘ y ≼ t) (L.nought-div y k) (L.div_mono x nought y k h)
