-- ===== src/Generated/Enums/QotRight.antt =====
-- crates/futu/src/generated/qot_common.rs: the enumeration QotRight.
use Prim.Native.String.{String}
use nautilus_futu.Prelude.{◌≡◌, refl, List, [], ◌∷◌, Option, some}
use nautilus_futu.Prelude.Words.{ℤ, pos}
use nautilus_futu.Generated.Enums.{match_name, Exact, match_name_sound}

pub data QotRight : Type 0 where
  unknow bmp level1 level2 sf no : QotRight

-- `self as i32`
abbrev pub as_i32 : QotRight → ℤ
as_i32 unknow = pos 0
as_i32 bmp = pos 1
as_i32 level1 = pos 2
as_i32 level2 = pos 3
as_i32 sf = pos 4
as_i32 no = pos 5

abbrev pub as_str_name : QotRight → String
as_str_name unknow = "QotRight_Unknow"
as_str_name bmp = "QotRight_Bmp"
as_str_name level1 = "QotRight_Level1"
as_str_name level2 = "QotRight_Level2"
as_str_name sf = "QotRight_SF"
as_str_name no = "QotRight_No"

abbrev arms : List (String × QotRight)
arms =
    ("QotRight_Unknow", unknow)
    ∷ ("QotRight_Bmp", bmp)
    ∷ ("QotRight_Level1", level1)
    ∷ ("QotRight_Level2", level2)
    ∷ ("QotRight_SF", sf)
    ∷ ("QotRight_No", no)
    ∷ []

unfoldable pub from_str_name : String → Option QotRight
from_str_name value = match_name value arms

pub exact : Exact as_str_name from_str_name
unfolding Exact from_str_name match_name
exact = (
  λ a. elim a as (λ k. from_str_name (as_str_name k) ≡ some k) [
    | unknow ↦ refl
    | bmp ↦ refl
    | level1 ↦ refl
    | level2 ↦ refl
    | sf ↦ refl
    | no ↦ refl
  ],
  match_name_sound as_str_name arms refl,
)
