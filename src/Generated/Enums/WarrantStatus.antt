-- ===== src/Generated/Enums/WarrantStatus.antt =====
-- crates/futu/src/generated/qot_common.rs: the enumeration WarrantStatus.
use Prim.Native.String.{String}
use nautilus_futu.Prelude.{◌≡◌, refl, List, [], ◌∷◌, Option, some}
use nautilus_futu.Prelude.Words.{ℤ, pos}
use nautilus_futu.Generated.Enums.{match_name, Exact, match_name_sound}

pub data WarrantStatus : Type 0 where
  unknow normal suspend stop_trade pending_listing : WarrantStatus

-- `self as i32`
abbrev pub as_i32 : WarrantStatus → ℤ
as_i32 unknow = pos 0
as_i32 normal = pos 1
as_i32 suspend = pos 2
as_i32 stop_trade = pos 3
as_i32 pending_listing = pos 4

abbrev pub as_str_name : WarrantStatus → String
as_str_name unknow = "WarrantStatus_Unknow"
as_str_name normal = "WarrantStatus_Normal"
as_str_name suspend = "WarrantStatus_Suspend"
as_str_name stop_trade = "WarrantStatus_StopTrade"
as_str_name pending_listing = "WarrantStatus_PendingListing"

abbrev arms : List (String × WarrantStatus)
arms =
    ("WarrantStatus_Unknow", unknow)
    ∷ ("WarrantStatus_Normal", normal)
    ∷ ("WarrantStatus_Suspend", suspend)
    ∷ ("WarrantStatus_StopTrade", stop_trade)
    ∷ ("WarrantStatus_PendingListing", pending_listing)
    ∷ []

unfoldable pub from_str_name : String → Option WarrantStatus
from_str_name value = match_name value arms

pub exact : Exact as_str_name from_str_name
unfolding Exact from_str_name match_name
exact = (
  λ a. elim a as (λ k. from_str_name (as_str_name k) ≡ some k) [
    | unknow ↦ refl
    | normal ↦ refl
    | suspend ↦ refl
    | stop_trade ↦ refl
    | pending_listing ↦ refl
  ],
  match_name_sound as_str_name arms refl,
)
