-- ===== src/Generated/Enums/PeriodType.antt =====
-- crates/futu/src/generated/qot_common.rs: the enumeration PeriodType.
use Prim.Native.String.{String}
use nautilus_futu.Prelude.{◌≡◌, refl, List, [], ◌∷◌, Option, some}
use nautilus_futu.Prelude.Words.{ℤ, pos}
use nautilus_futu.Generated.Enums.{match_name, Exact, match_name_sound}

pub data PeriodType : Type 0 where
  unknown intraday day week month : PeriodType

-- `self as i32`
abbrev pub as_i32 : PeriodType → ℤ
as_i32 unknown = pos 0
as_i32 intraday = pos 1
as_i32 day = pos 2
as_i32 week = pos 3
as_i32 month = pos 4

abbrev pub as_str_name : PeriodType → String
as_str_name unknown = "PeriodType_Unknown"
as_str_name intraday = "PeriodType_INTRADAY"
as_str_name day = "PeriodType_DAY"
as_str_name week = "PeriodType_WEEK"
as_str_name month = "PeriodType_MONTH"

abbrev arms : List (String × PeriodType)
arms =
    ("PeriodType_Unknown", unknown)
    ∷ ("PeriodType_INTRADAY", intraday)
    ∷ ("PeriodType_DAY", day)
    ∷ ("PeriodType_WEEK", week)
    ∷ ("PeriodType_MONTH", month)
    ∷ []

unfoldable pub from_str_name : String → Option PeriodType
from_str_name value = match_name value arms

pub exact : Exact as_str_name from_str_name
unfolding Exact from_str_name match_name
exact = (
  λ a. elim a as (λ k. from_str_name (as_str_name k) ≡ some k) [
    | unknown ↦ refl
    | intraday ↦ refl
    | day ↦ refl
    | week ↦ refl
    | month ↦ refl
  ],
  match_name_sound as_str_name arms refl,
)
