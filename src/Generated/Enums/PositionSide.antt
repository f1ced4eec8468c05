-- ===== src/Generated/Enums/PositionSide.antt =====
-- crates/futu/src/generated/trd_common.rs: the enumeration PositionSide.
use Prim.Native.String.{String}
use nautilus_futu.Prelude.{◌≡◌, refl, List, [], ◌∷◌, Option, some}
use nautilus_futu.Prelude.Words.{ℤ, pos, negsuc}
use nautilus_futu.Generated.Enums.{match_name, Exact, match_name_sound}

pub data PositionSide : Type 0 where
  long unknown short : PositionSide

-- `self as i32`
abbrev pub as_i32 : PositionSide → ℤ
as_i32 long = pos 0
as_i32 unknown = negsuc 0
as_i32 short = pos 1

abbrev pub as_str_name : PositionSide → String
as_str_name long = "PositionSide_Long"
as_str_name unknown = "PositionSide_Unknown"
as_str_name short = "PositionSide_Short"

abbrev arms : List (String × PositionSide)
arms =
    ("PositionSide_Long", long)
    ∷ ("PositionSide_Unknown", unknown)
    ∷ ("PositionSide_Short", short)
    ∷ []

unfoldable pub from_str_name : String → Option PositionSide
from_str_name value = match_name value arms

pub exact : Exact as_str_name from_str_name
unfolding Exact from_str_name match_name
exact = (
  λ a. elim a as (λ k. from_str_name (as_str_name k) ≡ some k) [
    | long ↦ refl
    | unknown ↦ refl
    | short ↦ refl
  ],
  match_name_sound as_str_name arms refl,
)
