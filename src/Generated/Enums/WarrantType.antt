-- ===== src/Generated/Enums/WarrantType.antt =====
-- crates/futu/src/generated/qot_common.rs: the enumeration WarrantType.
use Prim.Native.String.{String}
use nautilus_futu.Prelude.{◌≡◌, refl, List, [], ◌∷◌, Option, some}
use nautilus_futu.Prelude.Words.{ℤ, pos}
use nautilus_futu.Generated.Enums.{match_name, Exact, match_name_sound}

pub data WarrantType : Type 0 where
  unknown buy sell bull bear in_line : WarrantType

-- `self as i32`
abbrev pub as_i32 : WarrantType → ℤ
as_i32 unknown = pos 0
as_i32 buy = pos 1
as_i32 sell = pos 2
as_i32 bull = pos 3
as_i32 bear = pos 4
as_i32 in_line = pos 5

abbrev pub as_str_name : WarrantType → String
as_str_name unknown = "WarrantType_Unknown"
as_str_name buy = "WarrantType_Buy"
as_str_name sell = "WarrantType_Sell"
as_str_name bull = "WarrantType_Bull"
as_str_name bear = "WarrantType_Bear"
as_str_name in_line = "WarrantType_InLine"

abbrev arms : List (String × WarrantType)
arms =
    ("WarrantType_Unknown", unknown)
    ∷ ("WarrantType_Buy", buy)
    ∷ ("WarrantType_Sell", sell)
    ∷ ("WarrantType_Bull", bull)
    ∷ ("WarrantType_Bear", bear)
    ∷ ("WarrantType_InLine", in_line)
    ∷ []

unfoldable pub from_str_name : String → Option WarrantType
from_str_name value = match_name value arms

pub exact : Exact as_str_name from_str_name
unfolding Exact from_str_name match_name
exact = (
  λ a. elim a as (λ k. from_str_name (as_str_name k) ≡ some k) [
    | unknown ↦ refl
    | buy ↦ refl
    | sell ↦ refl
    | bull ↦ refl
    | bear ↦ refl
    | in_line ↦ refl
  ],
  match_name_sound as_str_name arms refl,
)
