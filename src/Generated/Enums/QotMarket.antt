-- ===== src/Generated/Enums/QotMarket.antt =====
-- crates/futu/src/generated/qot_common.rs: the enumeration QotMarket.
use Prim.Native.String.{String}
use nautilus_futu.Prelude.{◌≡◌, refl, List, [], ◌∷◌, Option, some}
use nautilus_futu.Prelude.Words.{ℤ, pos}
use nautilus_futu.Generated.Enums.{match_name, Exact, match_name_sound}

pub data QotMarket : Type 0 where
  unknown hk_security hk_future us_security cnsh_security cnsz_security sg_security jp_security
        au_security my_security ca_security fx_security :
      QotMarket

-- `self as i32`
abbrev pub as_i32 : QotMarket → ℤ
as_i32 unknown = pos 0
as_i32 hk_security = pos 1
as_i32 hk_future = pos 2
as_i32 us_security = pos 11
as_i32 cnsh_security = pos 21
as_i32 cnsz_security = pos 22
as_i32 sg_security = pos 31
as_i32 jp_security = pos 41
as_i32 au_security = pos 51
as_i32 my_security = pos 61
as_i32 ca_security = pos 71
as_i32 fx_security = pos 81

abbrev pub as_str_name : QotMarket → String
as_str_name unknown = "QotMarket_Unknown"
as_str_name hk_security = "QotMarket_HK_Security"
as_str_name hk_future = "QotMarket_HK_Future"
as_str_name us_security = "QotMarket_US_Security"
as_str_name cnsh_security = "QotMarket_CNSH_Security"
as_str_name cnsz_security = "QotMarket_CNSZ_Security"
as_str_name sg_security = "QotMarket_SG_Security"
as_str_name jp_security = "QotMarket_JP_Security"
as_str_name au_security = "QotMarket_AU_Security"
as_str_name my_security = "QotMarket_MY_Security"
as_str_name ca_security = "QotMarket_CA_Security"
as_str_name fx_security = "QotMarket_FX_Security"

abbrev arms : List (String × QotMarket)
arms =
    ("QotMarket_Unknown", unknown)
    ∷ ("QotMarket_HK_Security", hk_security)
    ∷ ("QotMarket_HK_Future", hk_future)
    ∷ ("QotMarket_US_Security", us_security)
    ∷ ("QotMarket_CNSH_Security", cnsh_security)
    ∷ ("QotMarket_CNSZ_Security", cnsz_security)
    ∷ ("QotMarket_SG_Security", sg_security)
    ∷ ("QotMarket_JP_Security", jp_security)
    ∷ ("QotMarket_AU_Security", au_security)
    ∷ ("QotMarket_MY_Security", my_security)
    ∷ ("QotMarket_CA_Security", ca_security)
    ∷ ("QotMarket_FX_Security", fx_security)
    ∷ []

unfoldable pub from_str_name : String → Option QotMarket
from_str_name value = match_name value arms

pub exact : Exact as_str_name from_str_name
unfolding Exact from_str_name match_name
exact = (
  λ a. elim a as (λ k. from_str_name (as_str_name k) ≡ some k) [
    | unknown ↦ refl
    | hk_security ↦ refl
    | hk_future ↦ refl
    | us_security ↦ refl
    | cnsh_security ↦ refl
    | cnsz_security ↦ refl
    | sg_security ↦ refl
    | jp_security ↦ refl
    | au_security ↦ refl
    | my_security ↦ refl
    | ca_security ↦ refl
    | fx_security ↦ refl
  ],
  match_name_sound as_str_name arms refl,
)
