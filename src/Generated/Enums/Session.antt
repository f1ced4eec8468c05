-- ===== src/Generated/Enums/Session.antt =====
-- crates/futu/src/generated/common.rs: the enumeration Session.
use Prim.Native.String.{String}
use nautilus_futu.Prelude.{◌≡◌, refl, List, [], ◌∷◌, Option, some}
use nautilus_futu.Prelude.Words.{ℤ, pos}
use nautilus_futu.Generated.Enums.{match_name, Exact, match_name_sound}

pub data Session : Type 0 where
  session_none rth eth session_all overnight : Session

-- `self as i32`
abbrev pub as_i32 : Session → ℤ
as_i32 session_none = pos 0
as_i32 rth = pos 1
as_i32 eth = pos 2
as_i32 session_all = pos 3
as_i32 overnight = pos 4

abbrev pub as_str_name : Session → String
as_str_name session_none = "Session_NONE"
as_str_name rth = "Session_RTH"
as_str_name eth = "Session_ETH"
as_str_name session_all = "Session_ALL"
as_str_name overnight = "Session_OVERNIGHT"

abbrev arms : List (String × Session)
arms =
    ("Session_NONE", session_none)
    ∷ ("Session_RTH", rth)
    ∷ ("Session_ETH", eth)
    ∷ ("Session_ALL", session_all)
    ∷ ("Session_OVERNIGHT", overnight)
    ∷ []

unfoldable pub from_str_name : String → Option Session
from_str_name value = match_name value arms

pub exact : Exact as_str_name from_str_name
unfolding Exact from_str_name match_name
exact = (
  λ a. elim a as (λ k. from_str_name (as_str_name k) ≡ some k) [
    | session_none ↦ refl
    | rth ↦ refl
    | eth ↦ refl
    | session_all ↦ refl
    | overnight ↦ refl
  ],
  match_name_sound as_str_name arms refl,
)
