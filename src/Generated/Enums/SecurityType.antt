-- ===== src/Generated/Enums/SecurityType.antt =====
-- crates/futu/src/generated/qot_common.rs: the enumeration SecurityType.
use Prim.Native.String.{String}
use nautilus_futu.Prelude.{◌≡◌, refl, List, [], ◌∷◌, Option, some}
use nautilus_futu.Prelude.Words.{ℤ, pos}
use nautilus_futu.Generated.Enums.{match_name, Exact, match_name_sound}

pub data SecurityType : Type 0 where
  unknown bond bwrt eqty trust warrant index plate drvt plate_set future : SecurityType

-- `self as i32`
abbrev pub as_i32 : SecurityType → ℤ
as_i32 unknown = pos 0
as_i32 bond = pos 1
as_i32 bwrt = pos 2
as_i32 eqty = pos 3
as_i32 trust = pos 4
as_i32 warrant = pos 5
as_i32 index = pos 6
as_i32 plate = pos 7
as_i32 drvt = pos 8
as_i32 plate_set = pos 9
as_i32 future = pos 10

abbrev pub as_str_name : SecurityType → String
as_str_name unknown = "SecurityType_Unknown"
as_str_name bond = "SecurityType_Bond"
as_str_name bwrt = "SecurityType_Bwrt"
as_str_name eqty = "SecurityType_Eqty"
as_str_name trust = "SecurityType_Trust"
as_str_name warrant = "SecurityType_Warrant"
as_str_name index = "SecurityType_Index"
as_str_name plate = "SecurityType_Plate"
as_str_name drvt = "SecurityType_Drvt"
as_str_name plate_set = "SecurityType_PlateSet"
as_str_name future = "SecurityType_Future"

abbrev arms : List (String × SecurityType)
arms =
    ("SecurityType_Unknown", unknown)
    ∷ ("SecurityType_Bond", bond)
    ∷ ("SecurityType_Bwrt", bwrt)
    ∷ ("SecurityType_Eqty", eqty)
    ∷ ("SecurityType_Trust", trust)
    ∷ ("SecurityType_Warrant", warrant)
    ∷ ("SecurityType_Index", index)
    ∷ ("SecurityType_Plate", plate)
    ∷ ("SecurityType_Drvt", drvt)
    ∷ ("SecurityType_PlateSet", plate_set)
    ∷ ("SecurityType_Future", future)
    ∷ []

unfoldable pub from_str_name : String → Option SecurityType
from_str_name value = match_name value arms

pub exact : Exact as_str_name from_str_name
unfolding Exact from_str_name match_name
exact = (
  λ a. elim a as (λ k. from_str_name (as_str_name k) ≡ some k) [
    | unknown ↦ refl
    | bond ↦ refl
    | bwrt ↦ refl
    | eqty ↦ refl
    | trust ↦ refl
    | warrant ↦ refl
    | index ↦ refl
    | plate ↦ refl
    | drvt ↦ refl
    | plate_set ↦ refl
    | future ↦ refl
  ],
  match_name_sound as_str_name arms refl,
)
