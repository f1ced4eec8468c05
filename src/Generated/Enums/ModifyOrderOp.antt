-- ===== src/Generated/Enums/ModifyOrderOp.antt =====
-- crates/futu/src/generated/trd_common.rs: the enumeration ModifyOrderOp.
use Prim.Native.String.{String}
use nautilus_futu.Prelude.{◌≡◌, refl, List, [], ◌∷◌, Option, some}
use nautilus_futu.Prelude.Words.{ℤ, pos}
use nautilus_futu.Generated.Enums.{match_name, Exact, match_name_sound}

pub data ModifyOrderOp : Type 0 where
  unknown normal cancel disable enable delete : ModifyOrderOp

-- `self as i32`
abbrev pub as_i32 : ModifyOrderOp → ℤ
as_i32 unknown = pos 0
as_i32 normal = pos 1
as_i32 cancel = pos 2
as_i32 disable = pos 3
as_i32 enable = pos 4
as_i32 delete = pos 5

abbrev pub as_str_name : ModifyOrderOp → String
as_str_name unknown = "ModifyOrderOp_Unknown"
as_str_name normal = "ModifyOrderOp_Normal"
as_str_name cancel = "ModifyOrderOp_Cancel"
as_str_name disable = "ModifyOrderOp_Disable"
as_str_name enable = "ModifyOrderOp_Enable"
as_str_name delete = "ModifyOrderOp_Delete"

abbrev arms : List (String × ModifyOrderOp)
arms =
    ("ModifyOrderOp_Unknown", unknown)
    ∷ ("ModifyOrderOp_Normal", normal)
    ∷ ("ModifyOrderOp_Cancel", cancel)
    ∷ ("ModifyOrderOp_Disable", disable)
    ∷ ("ModifyOrderOp_Enable", enable)
    ∷ ("ModifyOrderOp_Delete", delete)
    ∷ []

unfoldable pub from_str_name : String → Option ModifyOrderOp
from_str_name value = match_name value arms

pub exact : Exact as_str_name from_str_name
unfolding Exact from_str_name match_name
exact = (
  λ a. elim a as (λ k. from_str_name (as_str_name k) ≡ some k) [
    | unknown ↦ refl
    | normal ↦ refl
    | cancel ↦ refl
    | disable ↦ refl
    | enable ↦ refl
    | delete ↦ refl
  ],
  match_name_sound as_str_name arms refl,
)
