-- ===== src/Generated/Enums/CompanyAct.antt =====
-- crates/futu/src/generated/qot_common.rs: the enumeration CompanyAct.
use Prim.Native.String.{String}
use nautilus_futu.Prelude.{◌≡◌, refl, List, [], ◌∷◌, Option, some}
use nautilus_futu.Prelude.Words.{ℤ, pos}
use nautilus_futu.Generated.Enums.{match_name, Exact, match_name_sound}

pub data CompanyAct : Type 0 where
  company_act_none split join bonus transfer allot add dividend sp_dividend : CompanyAct

-- `self as i32`
abbrev pub as_i32 : CompanyAct → ℤ
as_i32 company_act_none = pos 0
as_i32 split = pos 1
as_i32 join = pos 2
as_i32 bonus = pos 4
as_i32 transfer = pos 8
as_i32 allot = pos 16
as_i32 add = pos 32
as_i32 dividend = pos 64
as_i32 sp_dividend = pos 128

abbrev pub as_str_name : CompanyAct → String
as_str_name company_act_none = "CompanyAct_None"
as_str_name split = "CompanyAct_Split"
as_str_name join = "CompanyAct_Join"
as_str_name bonus = "CompanyAct_Bonus"
as_str_name transfer = "CompanyAct_Transfer"
as_str_name allot = "CompanyAct_Allot"
as_str_name add = "CompanyAct_Add"
as_str_name dividend = "CompanyAct_Dividend"
as_str_name sp_dividend = "CompanyAct_SPDividend"

abbrev arms : List (String × CompanyAct)
arms =
    ("CompanyAct_None", company_act_none)
    ∷ ("CompanyAct_Split", split)
    ∷ ("CompanyAct_Join", join)
    ∷ ("CompanyAct_Bonus", bonus)
    ∷ ("CompanyAct_Transfer", transfer)
    ∷ ("CompanyAct_Allot", allot)
    ∷ ("CompanyAct_Add", add)
    ∷ ("CompanyAct_Dividend", dividend)
    ∷ ("CompanyAct_SPDividend", sp_dividend)
    ∷ []

unfoldable pub from_str_name : String → Option CompanyAct
from_str_name value = match_name value arms

pub exact : Exact as_str_name from_str_name
unfolding Exact from_str_name match_name
exact = (
  λ a. elim a as (λ k. from_str_name (as_str_name k) ≡ some k) [
    | company_act_none ↦ refl
    | split ↦ refl
    | join ↦ refl
    | bonus ↦ refl
    | transfer ↦ refl
    | allot ↦ refl
    | add ↦ refl
    | dividend ↦ refl
    | sp_dividend ↦ refl
  ],
  match_name_sound as_str_name arms refl,
)
