-- ===== src/Enums/StrEnum.antt =====
-- `class StrEnum(str, Enum)` of src/core/enums.py: members with string values, and the lookup of a
-- member by its value, `E(s)`.
use sibilla.Base.{Text, ◌=?◌, List, [], ◌∷◌, Option, none, some, if◌then◌else◌}

pub record StrEnum (E : Type 0) : Type 0 where
  pub value : E → Text
  pub members : List E

module _ {E : Type 0} ⦃e : StrEnum E⦄ where
  abbrev pub value : E → Text
  value = e.value

  -- The first member with that value; `none` is the `ValueError`.
  abbrev pub first_with : Text → List E → Option E
  first_with s [] = none
  first_with s (m ∷ ms) = if e.value m =? s then some m else first_with s ms

  unfoldable pub of_value : Text → Option E
  of_value s = first_with s e.members
