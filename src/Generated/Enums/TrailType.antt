-- ===== src/Generated/Enums/TrailType.antt =====
-- crates/futu/src/generated/trd_common.rs: the enumeration TrailType.
use Prim.Native.String.{String}
use nautilus_futu.Prelude.{◌≡◌, refl, List, [], ◌∷◌, Option, some}
use nautilus_futu.Prelude.Words.{ℤ, pos}
use nautilus_futu.Generated.Enums.{match_name, Exact, match_name_sound}

pub data TrailType : Type 0 where
  unknown ratio amount : TrailType

-- `self as i32`
abbrev pub as_i32 : TrailType → ℤ
as_i32 unknown = pos 0
as_i32 ratio = pos 1
as_i32 amount = pos 2

abbrev pub as_str_name : TrailType → String
as_str_name unknown = "TrailType_Unknown"
as_str_name ratio = "TrailType_Ratio"
as_str_name amount = "TrailType_Amount"

abbrev arms : List (String × TrailType)
arms =
    ("TrailType_Unknown", unknown) ∷ ("TrailType_Ratio", ratio) ∷ ("TrailType_Amount", amount) ∷ []

unfoldable pub from_str_name : String → Option TrailType
from_str_name value = match_name value arms

pub exact : Exact as_str_name from_str_name
unfolding Exact from_str_name match_name
exact = (
  λ a. elim a as (λ k. from_str_name (as_str_name k) ≡ some k) [
    | unknown ↦ refl
    | ratio ↦ refl
    | amount ↦ refl
  ],
  match_name_sound as_str_name arms refl,
)
