-- ===== src/Generated/Enums/SimAccType.antt =====
-- crates/futu/src/generated/trd_common.rs: the enumeration SimAccType.
use Prim.Native.String.{String}
use nautilus_futu.Prelude.{◌≡◌, refl, List, [], ◌∷◌, Option, some}
use nautilus_futu.Prelude.Words.{ℤ, pos}
use nautilus_futu.Generated.Enums.{match_name, Exact, match_name_sound}

pub data SimAccType : Type 0 where
  unknown stock option futures : SimAccType

-- `self as i32`
abbrev pub as_i32 : SimAccType → ℤ
as_i32 unknown = pos 0
as_i32 stock = pos 1
as_i32 option = pos 2
as_i32 futures = pos 3

abbrev pub as_str_name : SimAccType → String
as_str_name unknown = "SimAccType_Unknown"
as_str_name stock = "SimAccType_Stock"
as_str_name option = "SimAccType_Option"
as_str_name futures = "SimAccType_Futures"

abbrev arms : List (String × SimAccType)
arms =
    ("SimAccType_Unknown", unknown)
    ∷ ("SimAccType_Stock", stock)
    ∷ ("SimAccType_Option", option)
    ∷ ("SimAccType_Futures", futures)
    ∷ []

unfoldable pub from_str_name : String → Option SimAccType
from_str_name value = match_name value arms

pub exact : Exact as_str_name from_str_name
unfolding Exact from_str_name match_name
exact = (
  λ a. elim a as (λ k. from_str_name (as_str_name k) ≡ some k) [
    | unknown ↦ refl
    | stock ↦ refl
    | option ↦ refl
    | futures ↦ refl
  ],
  match_name_sound as_str_name arms refl,
)
