-- ===== src/Generated/Enums/TrdAccStatus.antt =====
-- crates/futu/src/generated/trd_common.rs: the enumeration TrdAccStatus.
use Prim.Native.String.{String}
use nautilus_futu.Prelude.{◌≡◌, refl, List, [], ◌∷◌, Option, some}
use nautilus_futu.Prelude.Words.{ℤ, pos}
use nautilus_futu.Generated.Enums.{match_name, Exact, match_name_sound}

pub data TrdAccStatus : Type 0 where
  active disabled : TrdAccStatus

-- `self as i32`
abbrev pub as_i32 : TrdAccStatus → ℤ
as_i32 active = pos 0
as_i32 disabled = pos 1

abbrev pub as_str_name : TrdAccStatus → String
as_str_name active = "TrdAccStatus_Active"
as_str_name disabled = "TrdAccStatus_Disabled"

abbrev arms : List (String × TrdAccStatus)
arms = ("TrdAccStatus_Active", active) ∷ ("TrdAccStatus_Disabled", disabled) ∷ []

unfoldable pub from_str_name : String → Option TrdAccStatus
from_str_name value = match_name value arms

pub exact : Exact as_str_name from_str_name
unfolding Exact from_str_name match_name
exact = (
  λ a. elim a as (λ k. from_str_name (as_str_name k) ≡ some k) [ active ↦ refl | disabled ↦ refl ],
  match_name_sound as_str_name arms refl,
)
