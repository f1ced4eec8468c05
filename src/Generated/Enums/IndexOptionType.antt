-- ===== src/Generated/Enums/IndexOptionType.antt =====
-- crates/futu/src/generated/qot_common.rs: the enumeration IndexOptionType.
use Prim.Native.String.{String}
use nautilus_futu.Prelude.{◌≡◌, refl, List, [], ◌∷◌, Option, some}
use nautilus_futu.Prelude.Words.{ℤ, pos}
use nautilus_futu.Generated.Enums.{match_name, Exact, match_name_sound}

pub data IndexOptionType : Type 0 where
  unknown normal small : IndexOptionType

-- `self as i32`
abbrev pub as_i32 : IndexOptionType → ℤ
as_i32 unknown = pos 0
as_i32 normal = pos 1
as_i32 small = pos 2

abbrev pub as_str_name : IndexOptionType → String
as_str_name unknown = "IndexOptionType_Unknown"
as_str_name normal = "IndexOptionType_Normal"
as_str_name small = "IndexOptionType_Small"

abbrev arms : List (String × IndexOptionType)
arms =
    ("IndexOptionType_Unknown", unknown)
    ∷ ("IndexOptionType_Normal", normal)
    ∷ ("IndexOptionType_Small", small)
    ∷ []

unfoldable pub from_str_name : String → Option IndexOptionType
from_str_name value = match_name value arms

pub exact : Exact as_str_name from_str_name
unfolding Exact from_str_name match_name
exact = (
  λ a. elim a as (λ k. from_str_name (as_str_name k) ≡ some k) [
    | unknown ↦ refl
    | normal ↦ refl
    | small ↦ refl
  ],
  match_name_sound as_str_name arms refl,
)
