-- ===== src/Generated/Enums/TrdCategory.antt =====
-- crates/futu/src/generated/trd_common.rs: the enumeration TrdCategory.
use Prim.Native.String.{String}
use nautilus_futu.Prelude.{◌≡◌, refl, List, [], ◌∷◌, Option, some}
use nautilus_futu.Prelude.Words.{ℤ, pos}
use nautilus_futu.Generated.Enums.{match_name, Exact, match_name_sound}

pub data TrdCategory : Type 0 where
  unknown security future : TrdCategory

-- `self as i32`
abbrev pub as_i32 : TrdCategory → ℤ
as_i32 unknown = pos 0
as_i32 security = pos 1
as_i32 future = pos 2

abbrev pub as_str_name : TrdCategory → String
as_str_name unknown = "TrdCategory_Unknown"
as_str_name security = "TrdCategory_Security"
as_str_name future = "TrdCategory_Future"

abbrev arms : List (String × TrdCategory)
arms =
    ("TrdCategory_Unknown", unknown)
    ∷ ("TrdCategory_Security", security)
    ∷ ("TrdCategory_Future", future)
    ∷ []

unfoldable pub from_str_name : String → Option TrdCategory
from_str_name value = match_name value arms

pub exact : Exact as_str_name from_str_name
unfolding Exact from_str_name match_name
exact = (
  λ a. elim a as (λ k. from_str_name (as_str_name k) ≡ some k) [
    | unknown ↦ refl
    | security ↦ refl
    | future ↦ refl
  ],
  match_name_sound as_str_name arms refl,
)
