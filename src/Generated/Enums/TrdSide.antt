-- ===== src/Generated/Enums/TrdSide.antt =====
-- crates/futu/src/generated/trd_common.rs: the enumeration TrdSide.
use Prim.Native.String.{String}
use nautilus_futu.Prelude.{◌≡◌, refl, List, [], ◌∷◌, Option, some}
use nautilus_futu.Prelude.Words.{ℤ, pos}
use nautilus_futu.Generated.Enums.{match_name, Exact, match_name_sound}

pub data TrdSide : Type 0 where
  unknown buy sell sell_short buy_back : TrdSide

-- `self as i32`
abbrev pub as_i32 : TrdSide → ℤ
as_i32 unknown = pos 0
as_i32 buy = pos 1
as_i32 sell = pos 2
as_i32 sell_short = pos 3
as_i32 buy_back = pos 4

abbrev pub as_str_name : TrdSide → String
as_str_name unknown = "TrdSide_Unknown"
as_str_name buy = "TrdSide_Buy"
as_str_name sell = "TrdSide_Sell"
as_str_name sell_short = "TrdSide_SellShort"
as_str_name buy_back = "TrdSide_BuyBack"

abbrev arms : List (String × TrdSide)
arms =
    ("TrdSide_Unknown", unknown)
    ∷ ("TrdSide_Buy", buy)
    ∷ ("TrdSide_Sell", sell)
    ∷ ("TrdSide_SellShort", sell_short)
    ∷ ("TrdSide_BuyBack", buy_back)
    ∷ []

unfoldable pub from_str_name : String → Option TrdSide
from_str_name value = match_name value arms

pub exact : Exact as_str_name from_str_name
unfolding Exact from_str_name match_name
exact = (
  λ a. elim a as (λ k. from_str_name (as_str_name k) ≡ some k) [
    | unknown ↦ refl
    | buy ↦ refl
    | sell ↦ refl
    | sell_short ↦ refl
    | buy_back ↦ refl
  ],
  match_name_sound as_str_name arms refl,
)
