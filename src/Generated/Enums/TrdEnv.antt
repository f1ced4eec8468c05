-- ===== src/Generated/Enums/TrdEnv.antt =====
-- crates/futu/src/generated/trd_common.rs: the enumeration TrdEnv.
use Prim.Native.String.{String}
use nautilus_futu.Prelude.{◌≡◌, refl, List, [], ◌∷◌, Option, some}
use nautilus_futu.Prelude.Words.{ℤ, pos}
use nautilus_futu.Generated.Enums.{match_name, Exact, match_name_sound}

pub data TrdEnv : Type 0 where
  simulate real : TrdEnv

-- `self as i32`
abbrev pub as_i32 : TrdEnv → ℤ
as_i32 simulate = pos 0
as_i32 real = pos 1

abbrev pub as_str_name : TrdEnv → String
as_str_name simulate = "TrdEnv_Simulate"
as_str_name real = "TrdEnv_Real"

abbrev arms : List (String × TrdEnv)
arms = ("TrdEnv_Simulate", simulate) ∷ ("TrdEnv_Real", real) ∷ []

unfoldable pub from_str_name : String → Option TrdEnv
from_str_name value = match_name value arms

pub exact : Exact as_str_name from_str_name
unfolding Exact from_str_name match_name
exact = (
  λ a. elim a as (λ k. from_str_name (as_str_name k) ≡ some k) [ simulate ↦ refl | real ↦ refl ],
  match_name_sound as_str_name arms refl,
)
