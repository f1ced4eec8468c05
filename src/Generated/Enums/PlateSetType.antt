-- ===== src/Generated/Enums/PlateSetType.antt =====
-- crates/futu/src/generated/qot_common.rs: the enumeration PlateSetType.
use Prim.Native.String.{String}
use nautilus_futu.Prelude.{◌≡◌, refl, List, [], ◌∷◌, Option, some}
use nautilus_futu.Prelude.Words.{ℤ, pos}
use nautilus_futu.Generated.Enums.{match_name, Exact, match_name_sound}

pub data PlateSetType : Type 0 where
  plate_set_type_all industry region concept other : PlateSetType

-- `self as i32`
abbrev pub as_i32 : PlateSetType → ℤ
as_i32 plate_set_type_all = pos 0
as_i32 industry = pos 1
as_i32 region = pos 2
as_i32 concept = pos 3
as_i32 other = pos 4

abbrev pub as_str_name : PlateSetType → String
as_str_name plate_set_type_all = "PlateSetType_All"
as_str_name industry = "PlateSetType_Industry"
as_str_name region = "PlateSetType_Region"
as_str_name concept = "PlateSetType_Concept"
as_str_name other = "PlateSetType_Other"

abbrev arms : List (String × PlateSetType)
arms =
    ("PlateSetType_All", plate_set_type_all)
    ∷ ("PlateSetType_Industry", industry)
    ∷ ("PlateSetType_Region", region)
    ∷ ("PlateSetType_Concept", concept)
    ∷ ("PlateSetType_Other", other)
    ∷ []

unfoldable pub from_str_name : String → Option PlateSetType
from_str_name value = match_name value arms

pub exact : Exact as_str_name from_str_name
unfolding Exact from_str_name match_name
exact = (
  λ a. elim a as (λ k. from_str_name (as_str_name k) ≡ some k) [
    | plate_set_type_all ↦ refl
    | industry ↦ refl
    | region ↦ refl
    | concept ↦ refl
    | other ↦ refl
  ],
  match_name_sound as_str_name arms refl,
)
