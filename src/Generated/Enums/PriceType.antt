-- ===== src/Generated/Enums/PriceType.antt =====
-- crates/futu/src/generated/qot_common.rs: the enumeration PriceType.
use Prim.Native.String.{String}
use nautilus_futu.Prelude.{◌≡◌, refl, List, [], ◌∷◌, Option, some}
use nautilus_futu.Prelude.Words.{ℤ, pos}
use nautilus_futu.Generated.Enums.{match_name, Exact, match_name_sound}

pub data PriceType : Type 0 where
  unknow outside with_in : PriceType

-- `self as i32`
abbrev pub as_i32 : PriceType → ℤ
as_i32 unknow = pos 0
as_i32 outside = pos 1
as_i32 with_in = pos 2

abbrev pub as_str_name : PriceType → String
as_str_name unknow = "PriceType_Unknow"
as_str_name outside = "PriceType_Outside"
as_str_name with_in = "PriceType_WithIn"

abbrev arms : List (String × PriceType)
arms =
    ("PriceType_Unknow", unknow)
    ∷ ("PriceType_Outside", outside)
    ∷ ("PriceType_WithIn", with_in)
    ∷ []

unfoldable pub from_str_name : String → Option PriceType
from_str_name value = match_name value arms

pub exact : Exact as_str_name from_str_name
unfolding Exact from_str_name match_name
exact = (
  λ a. elim a as (λ k. from_str_name (as_str_name k) ≡ some k) [
    | unknow ↦ refl
    | outside ↦ refl
    | with_in ↦ refl
  ],
  match_name_sound as_str_name arms refl,
)
