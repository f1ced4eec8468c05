-- ===== src/Generated/Enums/Currency.antt =====
-- crates/futu/src/generated/trd_common.rs: the enumeration Currency.
use Prim.Native.String.{String}
use nautilus_futu.Prelude.{◌≡◌, refl, List, [], ◌∷◌, Option, some}
use nautilus_futu.Prelude.Words.{ℤ, pos}
use nautilus_futu.Generated.Enums.{match_name, Exact, match_name_sound}

pub data Currency : Type 0 where
  unknown hkd usd cnh jpy sgd aud cad myr : Currency

-- `self as i32`
abbrev pub as_i32 : Currency → ℤ
as_i32 unknown = pos 0
as_i32 hkd = pos 1
as_i32 usd = pos 2
as_i32 cnh = pos 3
as_i32 jpy = pos 4
as_i32 sgd = pos 5
as_i32 aud = pos 6
as_i32 cad = pos 7
as_i32 myr = pos 8

abbrev pub as_str_name : Currency → String
as_str_name unknown = "Currency_Unknown"
as_str_name hkd = "Currency_HKD"
as_str_name usd = "Currency_USD"
as_str_name cnh = "Currency_CNH"
as_str_name jpy = "Currency_JPY"
as_str_name sgd = "Currency_SGD"
as_str_name aud = "Currency_AUD"
as_str_name cad = "Currency_CAD"
as_str_name myr = "Currency_MYR"

abbrev arms : List (String × Currency)
arms =
    ("Currency_Unknown", unknown)
    ∷ ("Currency_HKD", hkd)
    ∷ ("Currency_USD", usd)
    ∷ ("Currency_CNH", cnh)
    ∷ ("Currency_JPY", jpy)
    ∷ ("Currency_SGD", sgd)
    ∷ ("Currency_AUD", aud)
    ∷ ("Currency_CAD", cad)
    ∷ ("Currency_MYR", myr)
    ∷ []

unfoldable pub from_str_name : String → Option Currency
from_str_name value = match_name value arms

pub exact : Exact as_str_name from_str_name
unfolding Exact from_str_name match_name
exact = (
  λ a. elim a as (λ k. from_str_name (as_str_name k) ≡ some k) [
    | unknown ↦ refl
    | hkd ↦ refl
    | usd ↦ refl
    | cnh ↦ refl
    | jpy ↦ refl
    | sgd ↦ refl
    | aud ↦ refl
    | cad ↦ refl
    | myr ↦ refl
  ],
  match_name_sound as_str_name arms refl,
)
