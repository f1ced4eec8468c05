-- ===== src/Generated/Enums/ProtoFmt.antt =====
-- crates/futu/src/generated/common.rs: the enumeration ProtoFmt.
use Prim.Native.String.{String}
use nautilus_futu.Prelude.{◌≡◌, refl, List, [], ◌∷◌, Option, some}
use nautilus_futu.Prelude.Words.{ℤ, pos}
use nautilus_futu.Generated.Enums.{match_name, Exact, match_name_sound}

pub data ProtoFmt : Type 0 where
  protobuf json : ProtoFmt

-- `self as i32`
abbrev pub as_i32 : ProtoFmt → ℤ
as_i32 protobuf = pos 0
as_i32 json = pos 1

abbrev pub as_str_name : ProtoFmt → String
as_str_name protobuf = "ProtoFmt_Protobuf"
as_str_name json = "ProtoFmt_Json"

abbrev arms : List (String × ProtoFmt)
arms = ("ProtoFmt_Protobuf", protobuf) ∷ ("ProtoFmt_Json", json) ∷ []

unfoldable pub from_str_name : String → Option ProtoFmt
from_str_name value = match_name value arms

pub exact : Exact as_str_name from_str_name
unfolding Exact from_str_name match_name
exact = (
  λ a. elim a as (λ k. from_str_name (as_str_name k) ≡ some k) [ protobuf ↦ refl | json ↦ refl ],
  match_name_sound as_str_name arms refl,
)
