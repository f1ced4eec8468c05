-- ===== src/Generated/Enums/PushDataType.antt =====
-- crates/futu/src/generated/qot_common.rs: the enumeration PushDataType.
use Prim.Native.String.{String}
use nautilus_futu.Prelude.{◌≡◌, refl, List, [], ◌∷◌, Option, some}
use nautilus_futu.Prelude.Words.{ℤ, pos}
use nautilus_futu.Generated.Enums.{match_name, Exact, match_name_sound}

pub data PushDataType : Type 0 where
  unknow realtime by_dis_conn cache : PushDataType

-- `self as i32`
abbrev pub as_i32 : PushDataType → ℤ
as_i32 unknow = pos 0
as_i32 realtime = pos 1
as_i32 by_dis_conn = pos 2
as_i32 cache = pos 3

abbrev pub as_str_name : PushDataType → String
as_str_name unknow = "PushDataType_Unknow"
as_str_name realtime = "PushDataType_Realtime"
as_str_name by_dis_conn = "PushDataType_ByDisConn"
as_str_name cache = "PushDataType_Cache"

abbrev arms : List (String × PushDataType)
arms =
    ("PushDataType_Unknow", unknow)
    ∷ ("PushDataType_Realtime", realtime)
    ∷ ("PushDataType_ByDisConn", by_dis_conn)
    ∷ ("PushDataType_Cache", cache)
    ∷ []

unfoldable pub from_str_name : String → Option PushDataType
from_str_name value = match_name value arms

pub exact : Exact as_str_name from_str_name
unfolding Exact from_str_name match_name
exact = (
  λ a. elim a as (λ k. from_str_name (as_str_name k) ≡ some k) [
    | unknow ↦ refl
    | realtime ↦ refl
    | by_dis_conn ↦ refl
    | cache ↦ refl
  ],
  match_name_sound as_str_name arms refl,
)
