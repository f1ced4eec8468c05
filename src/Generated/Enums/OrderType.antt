-- ===== src/Generated/Enums/OrderType.antt =====
-- crates/futu/src/generated/trd_common.rs: the enumeration OrderType.
use Prim.Native.String.{String}
use nautilus_futu.Prelude.{◌≡◌, refl, List, [], ◌∷◌, Option, some}
use nautilus_futu.Prelude.Words.{ℤ, pos}
use nautilus_futu.Generated.Enums.{match_name, Exact, match_name_sound}

pub data OrderType : Type 0 where
  unknown normal market absolute_limit auction auction_limit special_limit special_limit_all stop
        stop_limit marketif_touched limitif_touched trailing_stop trailing_stop_limit twap_market
        twap_limit vwap_market vwap_limit :
      OrderType

-- `self as i32`
abbrev pub as_i32 : OrderType → ℤ
as_i32 unknown = pos 0
as_i32 normal = pos 1
as_i32 market = pos 2
as_i32 absolute_limit = pos 5
as_i32 auction = pos 6
as_i32 auction_limit = pos 7
as_i32 special_limit = pos 8
as_i32 special_limit_all = pos 9
as_i32 stop = pos 10
as_i32 stop_limit = pos 11
as_i32 marketif_touched = pos 12
as_i32 limitif_touched = pos 13
as_i32 trailing_stop = pos 14
as_i32 trailing_stop_limit = pos 15
as_i32 twap_market = pos 16
as_i32 twap_limit = pos 17
as_i32 vwap_market = pos 18
as_i32 vwap_limit = pos 19

abbrev pub as_str_name : OrderType → String
as_str_name unknown = "OrderType_Unknown"
as_str_name normal = "OrderType_Normal"
as_str_name market = "OrderType_Market"
as_str_name absolute_limit = "OrderType_AbsoluteLimit"
as_str_name auction = "OrderType_Auction"
as_str_name auction_limit = "OrderType_AuctionLimit"
as_str_name special_limit = "OrderType_SpecialLimit"
as_str_name special_limit_all = "OrderType_SpecialLimit_All"
as_str_name stop = "OrderType_Stop"
as_str_name stop_limit = "OrderType_StopLimit"
as_str_name marketif_touched = "OrderType_MarketifTouched"
as_str_name limitif_touched = "OrderType_LimitifTouched"
as_str_name trailing_stop = "OrderType_TrailingStop"
as_str_name trailing_stop_limit = "OrderType_TrailingStopLimit"
as_str_name twap_market = "OrderType_TWAP_MARKET"
as_str_name twap_limit = "OrderType_TWAP_LIMIT"
as_str_name vwap_market = "OrderType_VWAP_MARKET"
as_str_name vwap_limit = "OrderType_VWAP_LIMIT"

abbrev arms : List (String × OrderType)
arms =
    ("OrderType_Unknown", unknown)
    ∷ ("OrderType_Normal", normal)
    ∷ ("OrderType_Market", market)
    ∷ ("OrderType_AbsoluteLimit", absolute_limit)
    ∷ ("OrderType_Auction", auction)
    ∷ ("OrderType_AuctionLimit", auction_limit)
    ∷ ("OrderType_SpecialLimit", special_limit)
    ∷ ("OrderType_SpecialLimit_All", special_limit_all)
    ∷ ("OrderType_Stop", stop)
    ∷ ("OrderType_StopLimit", stop_limit)
    ∷ ("OrderType_MarketifTouched", marketif_touched)
    ∷ ("OrderType_LimitifTouched", limitif_touched)
    ∷ ("OrderType_TrailingStop", trailing_stop)
    ∷ ("OrderType_TrailingStopLimit", trailing_stop_limit)
    ∷ ("OrderType_TWAP_MARKET", twap_market)
    ∷ ("OrderType_TWAP_LIMIT", twap_limit)
    ∷ ("OrderType_VWAP_MARKET", vwap_market)
    ∷ ("OrderType_VWAP_LIMIT", vwap_limit)
    ∷ []

unfoldable pub from_str_name : String → Option OrderType
from_str_name value = match_name value arms

pub exact : Exact as_str_name from_str_name
unfolding Exact from_str_name match_name
exact = (
  λ a. elim a as (λ k. from_str_name (as_str_name k) ≡ some k) [
    | unknown ↦ refl
    | normal ↦ refl
    | market ↦ refl
    | absolute_limit ↦ refl
    | auction ↦ refl
    | auction_limit ↦ refl
    | special_limit ↦ refl
    | special_limit_all ↦ refl
    | stop ↦ refl
    | stop_limit ↦ refl
    | marketif_touched ↦ refl
    | limitif_touched ↦ refl
    | trailing_stop ↦ refl
    | trailing_stop_limit ↦ refl
    | twap_market ↦ refl
    | twap_limit ↦ refl
    | vwap_market ↦ refl
    | vwap_limit ↦ refl
  ],
  match_name_sound as_str_name arms refl,
)
