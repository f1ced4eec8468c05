-- ===== src/Generated/Enums/TickerDirection.antt =====
-- crates/futu/src/generated/qot_common.rs: the enumeration TickerDirection.
use Prim.Native.String.{String}
use nautilus_futu.Prelude.{◌≡◌, refl, List, [], ◌∷◌, Option, some}
use nautilus_futu.Prelude.Words.{ℤ, pos}
use nautilus_futu.Generated.Enums.{match_name, Exact, match_name_sound}

pub data TickerDirection : Type 0 where
  unknown bid ask neutral : TickerDirection

-- `self as i32`
abbrev pub as_i32 : TickerDirection → ℤ
as_i32 unknown = pos 0
as_i32 bid = pos 1
as_i32 ask = pos 2
as_i32 neutral = pos 3

abbrev pub as_str_name : TickerDirection → String
as_str_name unknown = "TickerDirection_Unknown"
as_str_name bid = "TickerDirection_Bid"
as_str_name ask = "TickerDirection_Ask"
as_str_name neutral = "TickerDirection_Neutral"

abbrev arms : List (String × TickerDirection)
arms =
    ("TickerDirection_Unknown", unknown)
    ∷ ("TickerDirection_Bid", bid)
    ∷ ("TickerDirection_Ask", ask)
    ∷ ("TickerDirection_Neutral", neutral)
    ∷ []

unfoldable pub from_str_name : String → Option TickerDirection
from_str_name value = match_name value arms

pub exact : Exact as_str_name from_str_name
unfolding Exact from_str_name match_name
exact = (
  λ a. elim a as (λ k. from_str_name (as_str_name k) ≡ some k) [
    | unknown ↦ refl
    | bid ↦ refl
    | ask ↦ refl
    | neutral ↦ refl
  ],
  match_name_sound as_str_name arms refl,
)
