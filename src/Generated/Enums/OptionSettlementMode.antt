-- ===== src/Generated/Enums/OptionSettlementMode.antt =====
-- crates/futu/src/generated/qot_common.rs: the enumeration OptionSettlementMode.
use Prim.Native.String.{String}
use nautilus_futu.Prelude.{◌≡◌, refl, List, [], ◌∷◌, Option, some}
use nautilus_futu.Prelude.Words.{ℤ, pos}
use nautilus_futu.Generated.Enums.{match_name, Exact, match_name_sound}

pub data OptionSettlementMode : Type 0 where
  unknown am pm : OptionSettlementMode

-- `self as i32`
abbrev pub as_i32 : OptionSettlementMode → ℤ
as_i32 unknown = pos 0
as_i32 am = pos 1
as_i32 pm = pos 2

abbrev pub as_str_name : OptionSettlementMode → String
as_str_name unknown = "OptionSettlementMode_Unknown"
as_str_name am = "OptionSettlementMode_AM"
as_str_name pm = "OptionSettlementMode_PM"

abbrev arms : List (String × OptionSettlementMode)
arms =
    ("OptionSettlementMode_Unknown", unknown)
    ∷ ("OptionSettlementMode_AM", am)
    ∷ ("OptionSettlementMode_PM", pm)
    ∷ []

unfoldable pub from_str_name : String → Option OptionSettlementMode
from_str_name value = match_name value arms

pub exact : Exact as_str_name from_str_name
unfolding Exact from_str_name match_name
exact = (
  λ a. elim a as (λ k. from_str_name (as_str_name k) ≡ some k) [
    | unknown ↦ refl
    | am ↦ refl
    | pm ↦ refl
  ],
  match_name_sound as_str_name arms refl,
)
