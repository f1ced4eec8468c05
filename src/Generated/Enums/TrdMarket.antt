-- ===== src/Generated/Enums/TrdMarket.antt =====
-- crates/futu/src/generated/trd_common.rs: the enumeration TrdMarket.
use Prim.Native.String.{String}
use nautilus_futu.Prelude.{◌≡◌, refl, List, [], ◌∷◌, Option, some}
use nautilus_futu.Prelude.Words.{ℤ, pos}
use nautilus_futu.Generated.Enums.{match_name, Exact, match_name_sound}

pub data TrdMarket : Type 0 where
  unknown hk us cn hkcc futures sg au futures_simulate_hk futures_simulate_us futures_simulate_sg
        futures_simulate_jp jp my ca hk_fund us_fund :
      TrdMarket

-- `self as i32`
abbrev pub as_i32 : TrdMarket → ℤ
as_i32 unknown = pos 0
as_i32 hk = pos 1
as_i32 us = pos 2
as_i32 cn = pos 3
as_i32 hkcc = pos 4
as_i32 futures = pos 5
as_i32 sg = pos 6
as_i32 au = pos 8
as_i32 futures_simulate_hk = pos 10
as_i32 futures_simulate_us = pos 11
as_i32 futures_simulate_sg = pos 12
as_i32 futures_simulate_jp = pos 13
as_i32 jp = pos 15
as_i32 my = pos 111
as_i32 ca = pos 112
as_i32 hk_fund = pos 113
as_i32 us_fund = pos 123

abbrev pub as_str_name : TrdMarket → String
as_str_name unknown = "TrdMarket_Unknown"
as_str_name hk = "TrdMarket_HK"
as_str_name us = "TrdMarket_US"
as_str_name cn = "TrdMarket_CN"
as_str_name hkcc = "TrdMarket_HKCC"
as_str_name futures = "TrdMarket_Futures"
as_str_name sg = "TrdMarket_SG"
as_str_name au = "TrdMarket_AU"
as_str_name futures_simulate_hk = "TrdMarket_Futures_Simulate_HK"
as_str_name futures_simulate_us = "TrdMarket_Futures_Simulate_US"
as_str_name futures_simulate_sg = "TrdMarket_Futures_Simulate_SG"
as_str_name futures_simulate_jp = "TrdMarket_Futures_Simulate_JP"
as_str_name jp = "TrdMarket_JP"
as_str_name my = "TrdMarket_MY"
as_str_name ca = "TrdMarket_CA"
as_str_name hk_fund = "TrdMarket_HK_Fund"
as_str_name us_fund = "TrdMarket_US_Fund"

abbrev arms : List (String × TrdMarket)
arms =
    ("TrdMarket_Unknown", unknown)
    ∷ ("TrdMarket_HK", hk)
    ∷ ("TrdMarket_US", us)
    ∷ ("TrdMarket_CN", cn)
    ∷ ("TrdMarket_HKCC", hkcc)
    ∷ ("TrdMarket_Futures", futures)
    ∷ ("TrdMarket_SG", sg)
    ∷ ("TrdMarket_AU", au)
    ∷ ("TrdMarket_Futures_Simulate_HK", futures_simulate_hk)
    ∷ ("TrdMarket_Futures_Simulate_US", futures_simulate_us)
    ∷ ("TrdMarket_Futures_Simulate_SG", futures_simulate_sg)
    ∷ ("TrdMarket_Futures_Simulate_JP", futures_simulate_jp)
    ∷ ("TrdMarket_JP", jp)
    ∷ ("TrdMarket_MY", my)
    ∷ ("TrdMarket_CA", ca)
    ∷ ("TrdMarket_HK_Fund", hk_fund)
    ∷ ("TrdMarket_US_Fund", us_fund)
    ∷ []

unfoldable pub from_str_name : String → Option TrdMarket
from_str_name value = match_name value arms

pub exact : Exact as_str_name from_str_name
unfolding Exact from_str_name match_name
exact = (
  λ a. elim a as (λ k. from_str_name (as_str_name k) ≡ some k) [
    | unknown ↦ refl
    | hk ↦ refl
    | us ↦ refl
    | cn ↦ refl
    | hkcc ↦ refl
    | futures ↦ refl
    | sg ↦ refl
    | au ↦ refl
    | futures_simulate_hk ↦ refl
    | futures_simulate_us ↦ refl
    | futures_simulate_sg ↦ refl
    | futures_simulate_jp ↦ refl
    | jp ↦ refl
    | my ↦ refl
    | ca ↦ refl
    | hk_fund ↦ refl
    | us_fund ↦ refl
  ],
  match_name_sound as_str_name arms refl,
)
