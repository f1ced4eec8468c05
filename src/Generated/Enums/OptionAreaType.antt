-- ===== src/Generated/Enums/OptionAreaType.antt =====
-- crates/futu/src/generated/qot_common.rs: the enumeration OptionAreaType.
use Prim.Native.String.{String}
use nautilus_futu.Prelude.{◌≡◌, refl, List, [], ◌∷◌, Option, some}
use nautilus_futu.Prelude.Words.{ℤ, pos}
use nautilus_futu.Generated.Enums.{match_name, Exact, match_name_sound}

pub data OptionAreaType : Type 0 where
  unknown american european bermuda : OptionAreaType

-- `self as i32`
abbrev pub as_i32 : OptionAreaType → ℤ
as_i32 unknown = pos 0
as_i32 american = pos 1
as_i32 european = pos 2
as_i32 bermuda = pos 3

abbrev pub as_str_name : OptionAreaType → String
as_str_name unknown = "OptionAreaType_Unknown"
as_str_name american = "OptionAreaType_American"
as_str_name european = "OptionAreaType_European"
as_str_name bermuda = "OptionAreaType_Bermuda"

abbrev arms : List (String × OptionAreaType)
arms =
    ("OptionAreaType_Unknown", unknown)
    ∷ ("OptionAreaType_American", american)
    ∷ ("OptionAreaType_European", european)
    ∷ ("OptionAreaType_Bermuda", bermuda)
    ∷ []

unfoldable pub from_str_name : String → Option OptionAreaType
from_str_name value = match_name value arms

pub exact : Exact as_str_name from_str_name
unfolding Exact from_str_name match_name
exact = (
  λ a. elim a as (λ k. from_str_name (as_str_name k) ≡ some k) [
    | unknown ↦ refl
    | american ↦ refl
    | european ↦ refl
    | bermuda ↦ refl
  ],
  match_name_sound as_str_name arms refl,
)
