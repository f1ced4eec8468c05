-- ===== src/Generated/Enums/OptionStandardType.antt =====
-- crates/futu/src/generated/qot_common.rs: the enumeration OptionStandardType.
use Prim.Native.String.{String}
use nautilus_futu.Prelude.{◌≡◌, refl, List, [], ◌∷◌, Option, some}
use nautilus_futu.Prelude.Words.{ℤ, pos}
use nautilus_futu.Generated.Enums.{match_name, Exact, match_name_sound}

pub data OptionStandardType : Type 0 where
  unknown standard non_standard : OptionStandardType

-- `self as i32`
abbrev pub as_i32 : OptionStandardType → ℤ
as_i32 unknown = pos 0
as_i32 standard = pos 1
as_i32 non_standard = pos 2

abbrev pub as_str_name : OptionStandardType → String
as_str_name unknown = "OptionStandardType_Unknown"
as_str_name standard = "OptionStandardType_Standard"
as_str_name non_standard = "OptionStandardType_NonStandard"

abbrev arms : List (String × OptionStandardType)
arms =
    ("OptionStandardType_Unknown", unknown)
    ∷ ("OptionStandardType_Standard", standard)
    ∷ ("OptionStandardType_NonStandard", non_standard)
    ∷ []

unfoldable pub from_str_name : String → Option OptionStandardType
from_str_name value = match_name value arms

pub exact : Exact as_str_name from_str_name
unfolding Exact from_str_name match_name
exact = (
  λ a. elim a as (λ k. from_str_name (as_str_name k) ≡ some k) [
    | unknown ↦ refl
    | standard ↦ refl
    | non_standard ↦ refl
  ],
  match_name_sound as_str_name arms refl,
)
