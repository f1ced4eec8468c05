-- ===== src/Generated/Enums/SecurityFirm.antt =====
-- crates/futu/src/generated/trd_common.rs: the enumeration SecurityFirm.
use Prim.Native.String.{String}
use nautilus_futu.Prelude.{◌≡◌, refl, List, [], ◌∷◌, Option, some}
use nautilus_futu.Prelude.Words.{ℤ, pos}
use nautilus_futu.Generated.Enums.{match_name, Exact, match_name_sound}

pub data SecurityFirm : Type 0 where
  unknown futu_securities futu_inc futu_sg futu_au : SecurityFirm

-- `self as i32`
abbrev pub as_i32 : SecurityFirm → ℤ
as_i32 unknown = pos 0
as_i32 futu_securities = pos 1
as_i32 futu_inc = pos 2
as_i32 futu_sg = pos 3
as_i32 futu_au = pos 4

abbrev pub as_str_name : SecurityFirm → String
as_str_name unknown = "SecurityFirm_Unknown"
as_str_name futu_securities = "SecurityFirm_FutuSecurities"
as_str_name futu_inc = "SecurityFirm_FutuInc"
as_str_name futu_sg = "SecurityFirm_FutuSG"
as_str_name futu_au = "SecurityFirm_FutuAU"

abbrev arms : List (String × SecurityFirm)
arms =
    ("SecurityFirm_Unknown", unknown)
    ∷ ("SecurityFirm_FutuSecurities", futu_securities)
    ∷ ("SecurityFirm_FutuInc", futu_inc)
    ∷ ("SecurityFirm_FutuSG", futu_sg)
    ∷ ("SecurityFirm_FutuAU", futu_au)
    ∷ []

unfoldable pub from_str_name : String → Option SecurityFirm
from_str_name value = match_name value arms

pub exact : Exact as_str_name from_str_name
unfolding Exact from_str_name match_name
exact = (
  λ a. elim a as (λ k. from_str_name (as_str_name k) ≡ some k) [
    | unknown ↦ refl
    | futu_securities ↦ refl
    | futu_inc ↦ refl
    | futu_sg ↦ refl
    | futu_au ↦ refl
  ],
  match_name_sound as_str_name arms refl,
)
