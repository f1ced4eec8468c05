-- ===== src/Generated/Enums/TrdSecMarket.antt =====
-- crates/futu/src/generated/trd_common.rs: the enumeration TrdSecMarket.
use Prim.Native.String.{String}
use nautilus_futu.Prelude.{◌≡◌, refl, List, [], ◌∷◌, Option, some}
use nautilus_futu.Prelude.Words.{ℤ, pos}
use nautilus_futu.Generated.Enums.{match_name, Exact, match_name_sound}

pub data TrdSecMarket : Type 0 where
  unknown hk us cn_sh cn_sz sg jp au my ca fx : TrdSecMarket

-- `self as i32`
abbrev pub as_i32 : TrdSecMarket → ℤ
as_i32 unknown = pos 0
as_i32 hk = pos 1
as_i32 us = pos 2
as_i32 cn_sh = pos 31
as_i32 cn_sz = pos 32
as_i32 sg = pos 41
as_i32 jp = pos 51
as_i32 au = pos 61
as_i32 my = pos 71
as_i32 ca = pos 81
as_i32 fx = pos 91

abbrev pub as_str_name : TrdSecMarket → String
as_str_name unknown = "TrdSecMarket_Unknown"
as_str_name hk = "TrdSecMarket_HK"
as_str_name us = "TrdSecMarket_US"
as_str_name cn_sh = "TrdSecMarket_CN_SH"
as_str_name cn_sz = "TrdSecMarket_CN_SZ"
as_str_name sg = "TrdSecMarket_SG"
as_str_name jp = "TrdSecMarket_JP"
as_str_name au = "TrdSecMarket_AU"
as_str_name my = "TrdSecMarket_MY"
as_str_name ca = "TrdSecMarket_CA"
as_str_name fx = "TrdSecMarket_FX"

abbrev arms : List (String × TrdSecMarket)
arms =
    ("TrdSecMarket_Unknown", unknown)
    ∷ ("TrdSecMarket_HK", hk)
    ∷ ("TrdSecMarket_US", us)
    ∷ ("TrdSecMarket_CN_SH", cn_sh)
    ∷ ("TrdSecMarket_CN_SZ", cn_sz)
    ∷ ("TrdSecMarket_SG", sg)
    ∷ ("TrdSecMarket_JP", jp)
    ∷ ("TrdSecMarket_AU", au)
    ∷ ("TrdSecMarket_MY", my)
    ∷ ("TrdSecMarket_CA", ca)
    ∷ ("TrdSecMarket_FX", fx)
    ∷ []

unfoldable pub from_str_name : String → Option TrdSecMarket
from_str_name value = match_name value arms

pub exact : Exact as_str_name from_str_name
unfolding Exact from_str_name match_name
exact = (
  λ a. elim a as (λ k. from_str_name (as_str_name k) ≡ some k) [
    | unknown ↦ refl
    | hk ↦ refl
    | us ↦ refl
    | cn_sh ↦ refl
    | cn_sz ↦ refl
    | sg ↦ refl
    | jp ↦ refl
    | au ↦ refl
    | my ↦ refl
    | ca ↦ refl
    | fx ↦ refl
  ],
  match_name_sound as_str_name arms refl,
)
