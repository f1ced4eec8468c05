-- ===== src/Generated/Enums/AssetClass.antt =====
-- crates/futu/src/generated/qot_common.rs: the enumeration AssetClass.
use Prim.Native.String.{String}
use nautilus_futu.Prelude.{◌≡◌, refl, List, [], ◌∷◌, Option, some}
use nautilus_futu.Prelude.Words.{ℤ, pos}
use nautilus_futu.Generated.Enums.{match_name, Exact, match_name_sound}

pub data AssetClass : Type 0 where
  unknow stock bond commodity currency_market future swap : AssetClass

-- `self as i32`
abbrev pub as_i32 : AssetClass → ℤ
as_i32 unknow = pos 0
as_i32 stock = pos 1
as_i32 bond = pos 2
as_i32 commodity = pos 3
as_i32 currency_market = pos 4
as_i32 future = pos 5
as_i32 swap = pos 6

abbrev pub as_str_name : AssetClass → String
as_str_name unknow = "AssetClass_Unknow"
as_str_name stock = "AssetClass_Stock"
as_str_name bond = "AssetClass_Bond"
as_str_name commodity = "AssetClass_Commodity"
as_str_name currency_market = "AssetClass_CurrencyMarket"
as_str_name future = "AssetClass_Future"
as_str_name swap = "AssetClass_Swap"

abbrev arms : List (String × AssetClass)
arms =
    ("AssetClass_Unknow", unknow)
    ∷ ("AssetClass_Stock", stock)
    ∷ ("AssetClass_Bond", bond)
    ∷ ("AssetClass_Commodity", commodity)
    ∷ ("AssetClass_CurrencyMarket", currency_market)
    ∷ ("AssetClass_Future", future)
    ∷ ("AssetClass_Swap", swap)
    ∷ []

unfoldable pub from_str_name : String → Option AssetClass
from_str_name value = match_name value arms

pub exact : Exact as_str_name from_str_name
unfolding Exact from_str_name match_name
exact = (
  λ a. elim a as (λ k. from_str_name (as_str_name k) ≡ some k) [
    | unknow ↦ refl
    | stock ↦ refl
    | bond ↦ refl
    | commodity ↦ refl
    | currency_market ↦ refl
    | future ↦ refl
    | swap ↦ refl
  ],
  match_name_sound as_str_name arms refl,
)
