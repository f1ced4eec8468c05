-- ===== src/Generated/Enums/CltRiskLevel.antt =====
-- crates/futu/src/generated/trd_common.rs: the enumeration CltRiskLevel.
use Prim.Native.String.{String}
use nautilus_futu.Prelude.{◌≡◌, refl, List, [], ◌∷◌, Option, some}
use nautilus_futu.Prelude.Words.{ℤ, pos, negsuc}
use nautilus_futu.Generated.Enums.{match_name, Exact, match_name_sound}

pub data CltRiskLevel : Type 0 where
  unknown safe warning danger absolute_safe opt_danger : CltRiskLevel

-- `self as i32`
abbrev pub as_i32 : CltRiskLevel → ℤ
as_i32 unknown = negsuc 0
as_i32 safe = pos 0
as_i32 warning = pos 1
as_i32 danger = pos 2
as_i32 absolute_safe = pos 3
as_i32 opt_danger = pos 4

abbrev pub as_str_name : CltRiskLevel → String
as_str_name unknown = "CltRiskLevel_Unknown"
as_str_name safe = "CltRiskLevel_Safe"
as_str_name warning = "CltRiskLevel_Warning"
as_str_name danger = "CltRiskLevel_Danger"
as_str_name absolute_safe = "CltRiskLevel_AbsoluteSafe"
as_str_name opt_danger = "CltRiskLevel_OptDanger"

abbrev arms : List (String × CltRiskLevel)
arms =
    ("CltRiskLevel_Unknown", unknown)
    ∷ ("CltRiskLevel_Safe", safe)
    ∷ ("CltRiskLevel_Warning", warning)
    ∷ ("CltRiskLevel_Danger", danger)
    ∷ ("CltRiskLevel_AbsoluteSafe", absolute_safe)
    ∷ ("CltRiskLevel_OptDanger", opt_danger)
    ∷ []

unfoldable pub from_str_name : String → Option CltRiskLevel
from_str_name value = match_name value arms

pub exact : Exact as_str_name from_str_name
unfolding Exact from_str_name match_name
exact = (
  λ a. elim a as (λ k. from_str_name (as_str_name k) ≡ some k) [
    | unknown ↦ refl
    | safe ↦ refl
    | warning ↦ refl
    | danger ↦ refl
    | absolute_safe ↦ refl
    | opt_danger ↦ refl
  ],
  match_name_sound as_str_name arms refl,
)
