-- ===== src/Generated/Enums/RehabType.antt =====
-- crates/futu/src/generated/qot_common.rs: the enumeration RehabType.
use Prim.Native.String.{String}
use nautilus_futu.Prelude.{◌≡◌, refl, List, [], ◌∷◌, Option, some}
use nautilus_futu.Prelude.Words.{ℤ, pos}
use nautilus_futu.Generated.Enums.{match_name, Exact, match_name_sound}

pub data RehabType : Type 0 where
  rehab_type_none forward backward : RehabType

-- `self as i32`
abbrev pub as_i32 : RehabType → ℤ
as_i32 rehab_type_none = pos 0
as_i32 forward = pos 1
as_i32 backward = pos 2

abbrev pub as_str_name : RehabType → String
as_str_name rehab_type_none = "RehabType_None"
as_str_name forward = "RehabType_Forward"
as_str_name backward = "RehabType_Backward"

abbrev arms : List (String × RehabType)
arms =
    ("RehabType_None", rehab_type_none)
    ∷ ("RehabType_Forward", forward)
    ∷ ("RehabType_Backward", backward)
    ∷ []

unfoldable pub from_str_name : String → Option RehabType
from_str_name value = match_name value arms

pub exact : Exact as_str_name from_str_name
unfolding Exact from_str_name match_name
exact = (
  λ a. elim a as (λ k. from_str_name (as_str_name k) ≡ some k) [
    | rehab_type_none ↦ refl
    | forward ↦ refl
    | backward ↦ refl
  ],
  match_name_sound as_str_name arms refl,
)
