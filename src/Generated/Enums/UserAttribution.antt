-- ===== src/Generated/Enums/UserAttribution.antt =====
-- crates/futu/src/generated/common.rs: the enumeration UserAttribution.
use Prim.Native.String.{String}
use nautilus_futu.Prelude.{◌≡◌, refl, List, [], ◌∷◌, Option, some}
use nautilus_futu.Prelude.Words.{ℤ, pos}
use nautilus_futu.Generated.Enums.{match_name, Exact, match_name_sound}

pub data UserAttribution : Type 0 where
  unknown nn mm sg au jp hk : UserAttribution

-- `self as i32`
abbrev pub as_i32 : UserAttribution → ℤ
as_i32 unknown = pos 0
as_i32 nn = pos 1
as_i32 mm = pos 2
as_i32 sg = pos 3
as_i32 au = pos 4
as_i32 jp = pos 5
as_i32 hk = pos 6

abbrev pub as_str_name : UserAttribution → String
as_str_name unknown = "UserAttribution_Unknown"
as_str_name nn = "UserAttribution_NN"
as_str_name mm = "UserAttribution_MM"
as_str_name sg = "UserAttribution_SG"
as_str_name au = "UserAttribution_AU"
as_str_name jp = "UserAttribution_JP"
as_str_name hk = "UserAttribution_HK"

abbrev arms : List (String × UserAttribution)
arms =
    ("UserAttribution_Unknown", unknown)
    ∷ ("UserAttribution_NN", nn)
    ∷ ("UserAttribution_MM", mm)
    ∷ ("UserAttribution_SG", sg)
    ∷ ("UserAttribution_AU", au)
    ∷ ("UserAttribution_JP", jp)
    ∷ ("UserAttribution_HK", hk)
    ∷ []

unfoldable pub from_str_name : String → Option UserAttribution
from_str_name value = match_name value arms

pub exact : Exact as_str_name from_str_name
unfolding Exact from_str_name match_name
exact = (
  λ a. elim a as (λ k. from_str_name (as_str_name k) ≡ some k) [
    | unknown ↦ refl
    | nn ↦ refl
    | mm ↦ refl
    | sg ↦ refl
    | au ↦ refl
    | jp ↦ refl
    | hk ↦ refl
  ],
  match_name_sound as_str_name arms refl,
)
