-- ===== src/Generated/Enums/DarkStatus.antt =====
-- crates/futu/src/generated/qot_common.rs: the enumeration DarkStatus.
use Prim.Native.String.{String}
use nautilus_futu.Prelude.{◌≡◌, refl, List, [], ◌∷◌, Option, some}
use nautilus_futu.Prelude.Words.{ℤ, pos}
use nautilus_futu.Generated.Enums.{match_name, Exact, match_name_sound}

pub data DarkStatus : Type 0 where
  dark_status_none trading end : DarkStatus

-- `self as i32`
abbrev pub as_i32 : DarkStatus → ℤ
as_i32 dark_status_none = pos 0
as_i32 trading = pos 1
as_i32 end = pos 2

abbrev pub as_str_name : DarkStatus → String
as_str_name dark_status_none = "DarkStatus_None"
as_str_name trading = "DarkStatus_Trading"
as_str_name end = "DarkStatus_End"

abbrev arms : List (String × DarkStatus)
arms =
    ("DarkStatus_None", dark_status_none)
    ∷ ("DarkStatus_Trading", trading)
    ∷ ("DarkStatus_End", end)
    ∷ []

unfoldable pub from_str_name : String → Option DarkStatus
from_str_name value = match_name value arms

pub exact : Exact as_str_name from_str_name
unfolding Exact from_str_name match_name
exact = (
  λ a. elim a as (λ k. from_str_name (as_str_name k) ≡ some k) [
    | dark_status_none ↦ refl
    | trading ↦ refl
    | end ↦ refl
  ],
  match_name_sound as_str_name arms refl,
)
