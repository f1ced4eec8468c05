-- ===== src/Generated/Enums/OptionType.antt =====
-- crates/futu/src/generated/qot_common.rs: the enumeration OptionType.
use Prim.Native.String.{String}
use nautilus_futu.Prelude.{◌≡◌, refl, List, [], ◌∷◌, Option, some}
use nautilus_futu.Prelude.Words.{ℤ, pos}
use nautilus_futu.Generated.Enums.{match_name, Exact, match_name_sound}

pub data OptionType : Type 0 where
  unknown call put : OptionType

-- `self as i32`
abbrev pub as_i32 : OptionType → ℤ
as_i32 unknown = pos 0
as_i32 call = pos 1
as_i32 put = pos 2

abbrev pub as_str_name : OptionType → String
as_str_name unknown = "OptionType_Unknown"
as_str_name call = "OptionType_Call"
as_str_name put = "OptionType_Put"

abbrev arms : List (String × OptionType)
arms = ("OptionType_Unknown", unknown) ∷ ("OptionType_Call", call) ∷ ("OptionType_Put", put) ∷ []

unfoldable pub from_str_name : String → Option OptionType
from_str_name value = match_name value arms

pub exact : Exact as_str_name from_str_name
unfolding Exact from_str_name match_name
exact = (
  λ a. elim a as (λ k. from_str_name (as_str_name k) ≡ some k) [
    | unknown ↦ refl
    | call ↦ refl
    | put ↦ refl
  ],
  match_name_sound as_str_name arms refl,
)
