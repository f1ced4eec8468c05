-- ===== src/Generated/Enums/ExchType.antt =====
-- crates/futu/src/generated/qot_common.rs: the enumeration ExchType.
use Prim.Native.String.{String}
use nautilus_futu.Prelude.{◌≡◌, refl, List, [], ◌∷◌, Option, some}
use nautilus_futu.Prelude.Words.{ℤ, pos}
use nautilus_futu.Generated.Enums.{match_name, Exact, match_name_sound}

pub data ExchType : Type 0 where
  unknown hk_main_board hk_gem_board hk_hkex us_nyse us_nasdaq us_pink us_amex us_option us_nymex
        us_comex us_cbot us_cme us_cboe cn_sh cn_sz cn_stib sg_sgx jp_ose :
      ExchType

-- `self as i32`
abbrev pub as_i32 : ExchType → ℤ
as_i32 unknown = pos 0
as_i32 hk_main_board = pos 1
as_i32 hk_gem_board = pos 2
as_i32 hk_hkex = pos 3
as_i32 us_nyse = pos 4
as_i32 us_nasdaq = pos 5
as_i32 us_pink = pos 6
as_i32 us_amex = pos 7
as_i32 us_option = pos 8
as_i32 us_nymex = pos 9
as_i32 us_comex = pos 10
as_i32 us_cbot = pos 11
as_i32 us_cme = pos 12
as_i32 us_cboe = pos 13
as_i32 cn_sh = pos 14
as_i32 cn_sz = pos 15
as_i32 cn_stib = pos 16
as_i32 sg_sgx = pos 17
as_i32 jp_ose = pos 18

abbrev pub as_str_name : ExchType → String
as_str_name unknown = "ExchType_Unknown"
as_str_name hk_main_board = "ExchType_HK_MainBoard"
as_str_name hk_gem_board = "ExchType_HK_GEMBoard"
as_str_name hk_hkex = "ExchType_HK_HKEX"
as_str_name us_nyse = "ExchType_US_NYSE"
as_str_name us_nasdaq = "ExchType_US_Nasdaq"
as_str_name us_pink = "ExchType_US_Pink"
as_str_name us_amex = "ExchType_US_AMEX"
as_str_name us_option = "ExchType_US_Option"
as_str_name us_nymex = "ExchType_US_NYMEX"
as_str_name us_comex = "ExchType_US_COMEX"
as_str_name us_cbot = "ExchType_US_CBOT"
as_str_name us_cme = "ExchType_US_CME"
as_str_name us_cboe = "ExchType_US_CBOE"
as_str_name cn_sh = "ExchType_CN_SH"
as_str_name cn_sz = "ExchType_CN_SZ"
as_str_name cn_stib = "ExchType_CN_STIB"
as_str_name sg_sgx = "ExchType_SG_SGX"
as_str_name jp_ose = "ExchType_JP_OSE"

abbrev arms : List (String × ExchType)
arms =
    ("ExchType_Unknown", unknown)
    ∷ ("ExchType_HK_MainBoard", hk_main_board)
    ∷ ("ExchType_HK_GEMBoard", hk_gem_board)
    ∷ ("ExchType_HK_HKEX", hk_hkex)
    ∷ ("ExchType_US_NYSE", us_nyse)
    ∷ ("ExchType_US_Nasdaq", us_nasdaq)
    ∷ ("ExchType_US_Pink", us_pink)
    ∷ ("ExchType_US_AMEX", us_amex)
    ∷ ("ExchType_US_Option", us_option)
    ∷ ("ExchType_US_NYMEX", us_nymex)
    ∷ ("ExchType_US_COMEX", us_comex)
    ∷ ("ExchType_US_CBOT", us_cbot)
    ∷ ("ExchType_US_CME", us_cme)
    ∷ ("ExchType_US_CBOE", us_cboe)
    ∷ ("ExchType_CN_SH", cn_sh)
    ∷ ("ExchType_CN_SZ", cn_sz)
    ∷ ("ExchType_CN_STIB", cn_stib)
    ∷ ("ExchType_SG_SGX", sg_sgx)
    ∷ ("ExchType_JP_OSE", jp_ose)
    ∷ []

unfoldable pub from_str_name : String → Option ExchType
from_str_name value = match_name value arms

pub exact : Exact as_str_name from_str_name
unfolding Exact from_str_name match_name
exact = (
  λ a. elim a as (λ k. from_str_name (as_str_name k) ≡ some k) [
    | unknown ↦ refl
    | hk_main_board ↦ refl
    | hk_gem_board ↦ refl
    | hk_hkex ↦ refl
    | us_nyse ↦ refl
    | us_nasdaq ↦ refl
    | us_pink ↦ refl
    | us_amex ↦ refl
    | us_option ↦ refl
    | us_nymex ↦ refl
    | us_comex ↦ refl
    | us_cbot ↦ refl
    | us_cme ↦ refl
    | us_cboe ↦ refl
    | cn_sh ↦ refl
    | cn_sz ↦ refl
    | cn_stib ↦ refl
    | sg_sgx ↦ refl
    | jp_ose ↦ refl
  ],
  match_name_sound as_str_name arms refl,
)
