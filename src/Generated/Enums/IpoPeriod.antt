-- ===== src/Generated/Enums/IpoPeriod.antt =====
-- crates/futu/src/generated/qot_common.rs: the enumeration IpoPeriod.
use Prim.Native.String.{String}
use nautilus_futu.Prelude.{◌≡◌, refl, List, [], ◌∷◌, Option, some}
use nautilus_futu.Prelude.Words.{ℤ, pos}
use nautilus_futu.Generated.Enums.{match_name, Exact, match_name_sound}

pub data IpoPeriod : Type 0 where
  unknow today tomorrow nextweek lastweek lastmonth : IpoPeriod

-- `self as i32`
abbrev pub as_i32 : IpoPeriod → ℤ
as_i32 unknow = pos 0
as_i32 today = pos 1
as_i32 tomorrow = pos 2
as_i32 nextweek = pos 3
as_i32 lastweek = pos 4
as_i32 lastmonth = pos 5

abbrev pub as_str_name : IpoPeriod → String
as_str_name unknow = "IpoPeriod_Unknow"
as_str_name today = "IpoPeriod_Today"
as_str_name tomorrow = "IpoPeriod_Tomorrow"
as_str_name nextweek = "IpoPeriod_Nextweek"
as_str_name lastweek = "IpoPeriod_Lastweek"
as_str_name lastmonth = "IpoPeriod_Lastmonth"

abbrev arms : List (String × IpoPeriod)
arms =
    ("IpoPeriod_Unknow", unknow)
    ∷ ("IpoPeriod_Today", today)
    ∷ ("IpoPeriod_Tomorrow", tomorrow)
    ∷ ("IpoPeriod_Nextweek", nextweek)
    ∷ ("IpoPeriod_Lastweek", lastweek)
    ∷ ("IpoPeriod_Lastmonth", lastmonth)
    ∷ []

unfoldable pub from_str_name : String → Option IpoPeriod
from_str_name value = match_name value arms

pub exact : Exact as_str_name from_str_name
unfolding Exact from_str_name match_name
exact = (
  λ a. elim a as (λ k. from_str_name (as_str_name k) ≡ some k) [
    | unknow ↦ refl
    | today ↦ refl
    | tomorrow ↦ refl
    | nextweek ↦ refl
    | lastweek ↦ refl
    | lastmonth ↦ refl
  ],
  match_name_sound as_str_name arms refl,
)
