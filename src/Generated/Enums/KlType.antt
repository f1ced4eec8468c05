-- ===== src/Generated/Enums/KlType.antt =====
-- crates/futu/src/generated/qot_common.rs: the enumeration KlType.
use Prim.Native.String.{String}
use nautilus_futu.Prelude.{◌≡◌, refl, List, [], ◌∷◌, Option, some}
use nautilus_futu.Prelude.Words.{ℤ, pos}
use nautilus_futu.Generated.Enums.{match_name, Exact, match_name_sound}

pub data KlType : Type 0 where
  unknown kl_type1min day week month year kl_type5min kl_type15min kl_type30min kl_type60min
        kl_type3min quarter :
      KlType

-- `self as i32`
abbrev pub as_i32 : KlType → ℤ
as_i32 unknown = pos 0
as_i32 kl_type1min = pos 1
as_i32 day = pos 2
as_i32 week = pos 3
as_i32 month = pos 4
as_i32 year = pos 5
as_i32 kl_type5min = pos 6
as_i32 kl_type15min = pos 7
as_i32 kl_type30min = pos 8
as_i32 kl_type60min = pos 9
as_i32 kl_type3min = pos 10
as_i32 quarter = pos 11

abbrev pub as_str_name : KlType → String
as_str_name unknown = "KLType_Unknown"
as_str_name kl_type1min = "KLType_1Min"
as_str_name day = "KLType_Day"
as_str_name week = "KLType_Week"
as_str_name month = "KLType_Month"
as_str_name year = "KLType_Year"
as_str_name kl_type5min = "KLType_5Min"
as_str_name kl_type15min = "KLType_15Min"
as_str_name kl_type30min = "KLType_30Min"
as_str_name kl_type60min = "KLType_60Min"
as_str_name kl_type3min = "KLType_3Min"
as_str_name quarter = "KLType_Quarter"

abbrev arms : List (String × KlType)
arms =
    ("KLType_Unknown", unknown)
    ∷ ("KLType_1Min", kl_type1min)
    ∷ ("KLType_Day", day)
    ∷ ("KLType_Week", week)
    ∷ ("KLType_Month", month)
    ∷ ("KLType_Year", year)
    ∷ ("KLType_5Min", kl_type5min)
    ∷ ("KLType_15Min", kl_type15min)
    ∷ ("KLType_30Min", kl_type30min)
    ∷ ("KLType_60Min", kl_type60min)
    ∷ ("KLType_3Min", kl_type3min)
    ∷ ("KLType_Quarter", quarter)
    ∷ []

unfoldable pub from_str_name : String → Option KlType
from_str_name value = match_name value arms

pub exact : Exact as_str_name from_str_name
unfolding Exact from_str_name match_name
exact = (
  λ a. elim a as (λ k. from_str_name (as_str_name k) ≡ some k) [
    | unknown ↦ refl
    | kl_type1min ↦ refl
    | day ↦ refl
    | week ↦ refl
    | month ↦ refl
    | year ↦ refl
    | kl_type5min ↦ refl
    | kl_type15min ↦ refl
    | kl_type30min ↦ refl
    | kl_type60min ↦ refl
    | kl_type3min ↦ refl
    | quarter ↦ refl
  ],
  match_name_sound as_str_name arms refl,
)
