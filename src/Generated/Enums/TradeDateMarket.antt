-- ===== src/Generated/Enums/TradeDateMarket.antt =====
-- crates/futu/src/generated/qot_common.rs: the enumeration TradeDateMarket.
use Prim.Native.String.{String}
use nautilus_futu.Prelude.{◌≡◌, refl, List, [], ◌∷◌, Option, some}
use nautilus_futu.Prelude.Words.{ℤ, pos}
use nautilus_futu.Generated.Enums.{match_name, Exact, match_name_sound}

pub data TradeDateMarket : Type 0 where
  unknown hk us cn nt st jp_future sg_future : TradeDateMarket

-- `self as i32`
abbrev pub as_i32 : TradeDateMarket → ℤ
as_i32 unknown = pos 0
as_i32 hk = pos 1
as_i32 us = pos 2
as_i32 cn = pos 3
as_i32 nt = pos 4
as_i32 st = pos 5
as_i32 jp_future = pos 6
as_i32 sg_future = pos 7

abbrev pub as_str_name : TradeDateMarket → String
as_str_name unknown = "TradeDateMarket_Unknown"
as_str_name hk = "TradeDateMarket_HK"
as_str_name us = "TradeDateMarket_US"
as_str_name cn = "TradeDateMarket_CN"
as_str_name nt = "TradeDateMarket_NT"
as_str_name st = "TradeDateMarket_ST"
as_str_name jp_future = "TradeDateMarket_JP_Future"
as_str_name sg_future = "TradeDateMarket_SG_Future"

abbrev arms : List (String × TradeDateMarket)
arms =
    ("TradeDateMarket_Unknown", unknown)
    ∷ ("TradeDateMarket_HK", hk)
    ∷ ("TradeDateMarket_US", us)
    ∷ ("TradeDateMarket_CN", cn)
    ∷ ("TradeDateMarket_NT", nt)
    ∷ ("TradeDateMarket_ST", st)
    ∷ ("TradeDateMarket_JP_Future", jp_future)
    ∷ ("TradeDateMarket_SG_Future", sg_future)
    ∷ []

unfoldable pub from_str_name : String → Option TradeDateMarket
from_str_name value = match_name value arms

pub exact : Exact as_str_name from_str_name
unfolding Exact from_str_name match_name
exact = (
  λ a. elim a as (λ k. from_str_name (as_str_name k) ≡ some k) [
    | unknown ↦ refl
    | hk ↦ refl
    | us ↦ refl
    | cn ↦ refl
    | nt ↦ refl
    | st ↦ refl
    | jp_future ↦ refl
    | sg_future ↦ refl
  ],
  match_name_sound as_str_name arms refl,
)
