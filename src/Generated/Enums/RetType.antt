-- ===== src/Generated/Enums/RetType.antt =====
-- crates/futu/src/generated/common.rs: the enumeration RetType.
use Prim.Native.String.{String}
use nautilus_futu.Prelude.{◌≡◌, refl, List, [], ◌∷◌, Option, some}
use nautilus_futu.Prelude.Words.{ℤ, pos, negsuc}
use nautilus_futu.Generated.Enums.{match_name, Exact, match_name_sound}

pub data RetType : Type 0 where
  succeed failed time_out dis_connect unknown invalid : RetType

-- `self as i32`
abbrev pub as_i32 : RetType → ℤ
as_i32 succeed = pos 0
as_i32 failed = negsuc 0
as_i32 time_out = negsuc 99
as_i32 dis_connect = negsuc 199
as_i32 unknown = negsuc 399
as_i32 invalid = negsuc 499

abbrev pub as_str_name : RetType → String
as_str_name succeed = "RetType_Succeed"
as_str_name failed = "RetType_Failed"
as_str_name time_out = "RetType_TimeOut"
as_str_name dis_connect = "RetType_DisConnect"
as_str_name unknown = "RetType_Unknown"
as_str_name invalid = "RetType_Invalid"

abbrev arms : List (String × RetType)
arms =
    ("RetType_Succeed", succeed)
    ∷ ("RetType_Failed", failed)
    ∷ ("RetType_TimeOut", time_out)
    ∷ ("RetType_DisConnect", dis_connect)
    ∷ ("RetType_Unknown", unknown)
    ∷ ("RetType_Invalid", invalid)
    ∷ []

unfoldable pub from_str_name : String → Option RetType
from_str_name value = match_name value arms

pub exact : Exact as_str_name from_str_name
unfolding Exact from_str_name match_name
exact = (
  λ a. elim a as (λ k. from_str_name (as_str_name k) ≡ some k) [
    | succeed ↦ refl
    | failed ↦ refl
    | time_out ↦ refl
    | dis_connect ↦ refl
    | unknown ↦ refl
    | invalid ↦ refl
  ],
  match_name_sound as_str_name arms refl,
)
