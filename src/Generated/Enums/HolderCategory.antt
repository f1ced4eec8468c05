-- ===== src/Generated/Enums/HolderCategory.antt =====
-- crates/futu/src/generated/qot_common.rs: the enumeration HolderCategory.
use Prim.Native.String.{String}
use nautilus_futu.Prelude.{◌≡◌, refl, List, [], ◌∷◌, Option, some}
use nautilus_futu.Prelude.Words.{ℤ, pos}
use nautilus_futu.Generated.Enums.{match_name, Exact, match_name_sound}

pub data HolderCategory : Type 0 where
  unknow agency fund senior_manager : HolderCategory

-- `self as i32`
abbrev pub as_i32 : HolderCategory → ℤ
as_i32 unknow = pos 0
as_i32 agency = pos 1
as_i32 fund = pos 2
as_i32 senior_manager = pos 3

abbrev pub as_str_name : HolderCategory → String
as_str_name unknow = "HolderCategory_Unknow"
as_str_name agency = "HolderCategory_Agency"
as_str_name fund = "HolderCategory_Fund"
as_str_name senior_manager = "HolderCategory_SeniorManager"

abbrev arms : List (String × HolderCategory)
arms =
    ("HolderCategory_Unknow", unknow)
    ∷ ("HolderCategory_Agency", agency)
    ∷ ("HolderCategory_Fund", fund)
    ∷ ("HolderCategory_SeniorManager", senior_manager)
    ∷ []

unfoldable pub from_str_name : String → Option HolderCategory
from_str_name value = match_name value arms

pub exact : Exact as_str_name from_str_name
unfolding Exact from_str_name match_name
exact = (
  λ a. elim a as (λ k. from_str_name (as_str_name k) ≡ some k) [
    | unknow ↦ refl
    | agency ↦ refl
    | fund ↦ refl
    | senior_manager ↦ refl
  ],
  match_name_sound as_str_name arms refl,
)
