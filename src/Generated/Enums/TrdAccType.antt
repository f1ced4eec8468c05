-- ===== src/Generated/Enums/TrdAccType.antt =====
-- crates/futu/src/generated/trd_common.rs: the enumeration TrdAccType.
use Prim.Native.String.{String}
use nautilus_futu.Prelude.{◌≡◌, refl, List, [], ◌∷◌, Option, some}
use nautilus_futu.Prelude.Words.{ℤ, pos}
use nautilus_futu.Generated.Enums.{match_name, Exact, match_name_sound}

pub data TrdAccType : Type 0 where
  unknown cash margin : TrdAccType

-- `self as i32`
abbrev pub as_i32 : TrdAccType → ℤ
as_i32 unknown = pos 0
as_i32 cash = pos 1
as_i32 margin = pos 2

abbrev pub as_str_name : TrdAccType → String
as_str_name unknown = "TrdAccType_Unknown"
as_str_name cash = "TrdAccType_Cash"
as_str_name margin = "TrdAccType_Margin"

abbrev arms : List (String × TrdAccType)
arms =
    ("TrdAccType_Unknown", unknown) ∷ ("TrdAccType_Cash", cash) ∷ ("TrdAccType_Margin", margin) ∷ []

unfoldable pub from_str_name : String → Option TrdAccType
from_str_name value = match_name value arms

pub exact : Exact as_str_name from_str_name
unfolding Exact from_str_name match_name
exact = (
  λ a. elim a as (λ k. from_str_name (as_str_name k) ≡ some k) [
    | unknown ↦ refl
    | cash ↦ refl
    | margin ↦ refl
  ],
  match_name_sound as_str_name arms refl,
)
