-- ===== src/Generated/Enums/TradeDateType.antt =====
-- crates/futu/src/generated/qot_common.rs: the enumeration TradeDateType.
use Prim.Native.String.{String}
use nautilus_futu.Prelude.{◌≡◌, refl, List, [], ◌∷◌, Option, some}
use nautilus_futu.Prelude.Words.{ℤ, pos}
use nautilus_futu.Generated.Enums.{match_name, Exact, match_name_sound}

pub data TradeDateType : Type 0 where
  whole morning afternoon : TradeDateType

-- `self as i32`
abbrev pub as_i32 : TradeDateType → ℤ
as_i32 whole = pos 0
as_i32 morning = pos 1
as_i32 afternoon = pos 2

abbrev pub as_str_name : TradeDateType → String
as_str_name whole = "TradeDateType_Whole"
as_str_name morning = "TradeDateType_Morning"
as_str_name afternoon = "TradeDateType_Afternoon"

abbrev arms : List (String × TradeDateType)
arms =
    ("TradeDateType_Whole", whole)
    ∷ ("TradeDateType_Morning", morning)
    ∷ ("TradeDateType_Afternoon", afternoon)
    ∷ []

unfoldable pub from_str_name : String → Option TradeDateType
from_str_name value = match_name value arms

pub exact : Exact as_str_name from_str_name
unfolding Exact from_str_name match_name
exact = (
  λ a. elim a as (λ k. from_str_name (as_str_name k) ≡ some k) [
    | whole ↦ refl
    | morning ↦ refl
    | afternoon ↦ refl
  ],
  match_name_sound as_str_name arms refl,
)
