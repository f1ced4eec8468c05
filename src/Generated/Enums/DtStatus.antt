-- ===== src/Generated/Enums/DtStatus.antt =====
-- crates/futu/src/generated/trd_common.rs: the enumeration DtStatus.
use Prim.Native.String.{String}
use nautilus_futu.Prelude.{◌≡◌, refl, List, [], ◌∷◌, Option, some}
use nautilus_futu.Prelude.Words.{ℤ, pos}
use nautilus_futu.Generated.Enums.{match_name, Exact, match_name_sound}

pub data DtStatus : Type 0 where
  unknown unlimited em_call dt_call : DtStatus

-- `self as i32`
abbrev pub as_i32 : DtStatus → ℤ
as_i32 unknown = pos 0
as_i32 unlimited = pos 1
as_i32 em_call = pos 2
as_i32 dt_call = pos 3

abbrev pub as_str_name : DtStatus → String
as_str_name unknown = "DTStatus_Unknown"
as_str_name unlimited = "DTStatus_Unlimited"
as_str_name em_call = "DTStatus_EMCall"
as_str_name dt_call = "DTStatus_DTCall"

abbrev arms : List (String × DtStatus)
arms =
    ("DTStatus_Unknown", unknown)
    ∷ ("DTStatus_Unlimited", unlimited)
    ∷ ("DTStatus_EMCall", em_call)
    ∷ ("DTStatus_DTCall", dt_call)
    ∷ []

unfoldable pub from_str_name : String → Option DtStatus
from_str_name value = match_name value arms

pub exact : Exact as_str_name from_str_name
unfolding Exact from_str_name match_name
exact = (
  λ a. elim a as (λ k. from_str_name (as_str_name k) ≡ some k) [
    | unknown ↦ refl
    | unlimited ↦ refl
    | em_call ↦ refl
    | dt_call ↦ refl
  ],
  match_name_sound as_str_name arms refl,
)
