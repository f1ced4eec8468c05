-- ===== src/Generated/Enums/TimeInForce.antt =====
-- crates/futu/src/generated/trd_common.rs: the enumeration TimeInForce.
use Prim.Native.String.{String}
use nautilus_futu.Prelude.{◌≡◌, refl, List, [], ◌∷◌, Option, some}
use nautilus_futu.Prelude.Words.{ℤ, pos}
use nautilus_futu.Generated.Enums.{match_name, Exact, match_name_sound}

pub data TimeInForce : Type 0 where
  day gtc : TimeInForce

-- `self as i32`
abbrev pub as_i32 : TimeInForce → ℤ
as_i32 day = pos 0
as_i32 gtc = pos 1

abbrev pub as_str_name : TimeInForce → String
as_str_name day = "TimeInForce_DAY"
as_str_name gtc = "TimeInForce_GTC"

abbrev arms : List (String × TimeInForce)
arms = ("TimeInForce_DAY", day) ∷ ("TimeInForce_GTC", gtc) ∷ []

unfoldable pub from_str_name : String → Option TimeInForce
from_str_name value = match_name value arms

pub exact : Exact as_str_name from_str_name
unfolding Exact from_str_name match_name
exact = (
  λ a. elim a as (λ k. from_str_name (as_str_name k) ≡ some k) [ day ↦ refl | gtc ↦ refl ],
  match_name_sound as_str_name arms refl,
)
