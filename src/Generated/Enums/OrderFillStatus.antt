-- ===== src/Generated/Enums/OrderFillStatus.antt =====
-- crates/futu/src/generated/trd_common.rs: the enumeration OrderFillStatus.
use Prim.Native.String.{String}
use nautilus_futu.Prelude.{◌≡◌, refl, List, [], ◌∷◌, Option, some}
use nautilus_futu.Prelude.Words.{ℤ, pos}
use nautilus_futu.Generated.Enums.{match_name, Exact, match_name_sound}

pub data OrderFillStatus : Type 0 where
  order_fill_status_ok cancelled changed : OrderFillStatus

-- `self as i32`
abbrev pub as_i32 : OrderFillStatus → ℤ
as_i32 order_fill_status_ok = pos 0
as_i32 cancelled = pos 1
as_i32 changed = pos 2

abbrev pub as_str_name : OrderFillStatus → String
as_str_name order_fill_status_ok = "OrderFillStatus_OK"
as_str_name cancelled = "OrderFillStatus_Cancelled"
as_str_name changed = "OrderFillStatus_Changed"

abbrev arms : List (String × OrderFillStatus)
arms =
    ("OrderFillStatus_OK", order_fill_status_ok)
    ∷ ("OrderFillStatus_Cancelled", cancelled)
    ∷ ("OrderFillStatus_Changed", changed)
    ∷ []

unfoldable pub from_str_name : String → Option OrderFillStatus
from_str_name value = match_name value arms

pub exact : Exact as_str_name from_str_name
unfolding Exact from_str_name match_name
exact = (
  λ a. elim a as (λ k. from_str_name (as_str_name k) ≡ some k) [
    | order_fill_status_ok ↦ refl
    | cancelled ↦ refl
    | changed ↦ refl
  ],
  match_name_sound as_str_name arms refl,
)
