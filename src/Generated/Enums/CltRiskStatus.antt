-- ===== src/Generated/Enums/CltRiskStatus.antt =====
-- crates/futu/src/generated/trd_common.rs: the enumeration CltRiskStatus.
use Prim.Native.String.{String}
use nautilus_futu.Prelude.{◌≡◌, refl, List, [], ◌∷◌, Option, some}
use nautilus_futu.Prelude.Words.{ℤ, pos}
use nautilus_futu.Generated.Enums.{match_name, Exact, match_name_sound}

pub data CltRiskStatus : Type 0 where
  unknown level1 level2 level3 level4 level5 level6 level7 level8 level9 : CltRiskStatus

-- `self as i32`
abbrev pub as_i32 : CltRiskStatus → ℤ
as_i32 unknown = pos 0
as_i32 level1 = pos 1
as_i32 level2 = pos 2
as_i32 level3 = pos 3
as_i32 level4 = pos 4
as_i32 level5 = pos 5
as_i32 level6 = pos 6
as_i32 level7 = pos 7
as_i32 level8 = pos 8
as_i32 level9 = pos 9

abbrev pub as_str_name : CltRiskStatus → String
as_str_name unknown = "CltRiskStatus_Unknown"
as_str_name level1 = "CltRiskStatus_Level1"
as_str_name level2 = "CltRiskStatus_Level2"
as_str_name level3 = "CltRiskStatus_Level3"
as_str_name level4 = "CltRiskStatus_Level4"
as_str_name level5 = "CltRiskStatus_Level5"
as_str_name level6 = "CltRiskStatus_Level6"
as_str_name level7 = "CltRiskStatus_Level7"
as_str_name level8 = "CltRiskStatus_Level8"
as_str_name level9 = "CltRiskStatus_Level9"

abbrev arms : List (String × CltRiskStatus)
arms =
    ("CltRiskStatus_Unknown", unknown)
    ∷ ("CltRiskStatus_Level1", level1)
    ∷ ("CltRiskStatus_Level2", level2)
    ∷ ("CltRiskStatus_Level3", level3)
    ∷ ("CltRiskStatus_Level4", level4)
    ∷ ("CltRiskStatus_Level5", level5)
    ∷ ("CltRiskStatus_Level6", level6)
    ∷ ("CltRiskStatus_Level7", level7)
    ∷ ("CltRiskStatus_Level8", level8)
    ∷ ("CltRiskStatus_Level9", level9)
    ∷ []

unfoldable pub from_str_name : String → Option CltRiskStatus
from_str_name value = match_name value arms

pub exact : Exact as_str_name from_str_name
unfolding Exact from_str_name match_name
exact = (
  λ a. elim a as (λ k. from_str_name (as_str_name k) ≡ some k) [
    | unknown ↦ refl
    | level1 ↦ refl
    | level2 ↦ refl
    | level3 ↦ refl
    | level4 ↦ refl
    | level5 ↦ refl
    | level6 ↦ refl
    | level7 ↦ refl
    | level8 ↦ refl
    | level9 ↦ refl
  ],
  match_name_sound as_str_name arms refl,
)
