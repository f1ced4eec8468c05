-- ===== src/Generated/Enums/TickerType.antt =====
-- crates/futu/src/generated/qot_common.rs: the enumeration TickerType.
use Prim.Native.String.{String}
use nautilus_futu.Prelude.{◌≡◌, refl, List, [], ◌∷◌, Option, some}
use nautilus_futu.Prelude.Words.{ℤ, pos}
use nautilus_futu.Generated.Enums.{match_name, Exact, match_name_sound}

pub data TickerType : Type 0 where
  unknown automatch late none_automatch inter_automatch inter_none_automatch odd_lot auction bulk
        crash cross_market bulk_sold free_on_board rule127_or155 delay market_center_close_price
        next_day market_center_opening prior_reference_price market_center_open_price seller t
        extended_trading_hours contingent avg_price otc_sold odd_lot_cross_market
        derivatively_priced re_opening_priced closing_priced comprehensive_delay_price overseas :
      TickerType

-- `self as i32`
abbrev pub as_i32 : TickerType → ℤ
as_i32 unknown = pos 0
as_i32 automatch = pos 1
as_i32 late = pos 2
as_i32 none_automatch = pos 3
as_i32 inter_automatch = pos 4
as_i32 inter_none_automatch = pos 5
as_i32 odd_lot = pos 6
as_i32 auction = pos 7
as_i32 bulk = pos 8
as_i32 crash = pos 9
as_i32 cross_market = pos 10
as_i32 bulk_sold = pos 11
as_i32 free_on_board = pos 12
as_i32 rule127_or155 = pos 13
as_i32 delay = pos 14
as_i32 market_center_close_price = pos 15
as_i32 next_day = pos 16
as_i32 market_center_opening = pos 17
as_i32 prior_reference_price = pos 18
as_i32 market_center_open_price = pos 19
as_i32 seller = pos 20
as_i32 t = pos 21
as_i32 extended_trading_hours = pos 22
as_i32 contingent = pos 23
as_i32 avg_price = pos 24
as_i32 otc_sold = pos 25
as_i32 odd_lot_cross_market = pos 26
as_i32 derivatively_priced = pos 27
as_i32 re_opening_priced = pos 28
as_i32 closing_priced = pos 29
as_i32 comprehensive_delay_price = pos 30
as_i32 overseas = pos 31

abbrev pub as_str_name : TickerType → String
as_str_name unknown = "TickerType_Unknown"
as_str_name automatch = "TickerType_Automatch"
as_str_name late = "TickerType_Late"
as_str_name none_automatch = "TickerType_NoneAutomatch"
as_str_name inter_automatch = "TickerType_InterAutomatch"
as_str_name inter_none_automatch = "TickerType_InterNoneAutomatch"
as_str_name odd_lot = "TickerType_OddLot"
as_str_name auction = "TickerType_Auction"
as_str_name bulk = "TickerType_Bulk"
as_str_name crash = "TickerType_Crash"
as_str_name cross_market = "TickerType_CrossMarket"
as_str_name bulk_sold = "TickerType_BulkSold"
as_str_name free_on_board = "TickerType_FreeOnBoard"
as_str_name rule127_or155 = "TickerType_Rule127Or155"
as_str_name delay = "TickerType_Delay"
as_str_name market_center_close_price = "TickerType_MarketCenterClosePrice"
as_str_name next_day = "TickerType_NextDay"
as_str_name market_center_opening = "TickerType_MarketCenterOpening"
as_str_name prior_reference_price = "TickerType_PriorReferencePrice"
as_str_name market_center_open_price = "TickerType_MarketCenterOpenPrice"
as_str_name seller = "TickerType_Seller"
as_str_name t = "TickerType_T"
as_str_name extended_trading_hours = "TickerType_ExtendedTradingHours"
as_str_name contingent = "TickerType_Contingent"
as_str_name avg_price = "TickerType_AvgPrice"
as_str_name otc_sold = "TickerType_OTCSold"
as_str_name odd_lot_cross_market = "TickerType_OddLotCrossMarket"
as_str_name derivatively_priced = "TickerType_DerivativelyPriced"
as_str_name re_opening_priced = "TickerType_ReOpeningPriced"
as_str_name closing_priced = "TickerType_ClosingPriced"
as_str_name comprehensive_delay_price = "TickerType_ComprehensiveDelayPrice"
as_str_name overseas = "TickerType_Overseas"

abbrev arms : List (String × TickerType)
arms =
    ("TickerType_Unknown", unknown)
    ∷ ("TickerType_Automatch", automatch)
    ∷ ("TickerType_Late", late)
    ∷ ("TickerType_NoneAutomatch", none_automatch)
    ∷ ("TickerType_InterAutomatch", inter_automatch)
    ∷ ("TickerType_InterNoneAutomatch", inter_none_automatch)
    ∷ ("TickerType_OddLot", odd_lot)
    ∷ ("TickerType_Auction", auction)
    ∷ ("TickerType_Bulk", bulk)
    ∷ ("TickerType_Crash", crash)
    ∷ ("TickerType_CrossMarket", cross_market)
    ∷ ("TickerType_BulkSold", bulk_sold)
    ∷ ("TickerType_FreeOnBoard", free_on_board)
    ∷ ("TickerType_Rule127Or155", rule127_or155)
    ∷ ("TickerType_Delay", delay)
    ∷ ("TickerType_MarketCenterClosePrice", market_center_close_price)
    ∷ ("TickerType_NextDay", next_day)
    ∷ ("TickerType_MarketCenterOpening", market_center_opening)
    ∷ ("TickerType_PriorReferencePrice", prior_reference_price)
    ∷ ("TickerType_MarketCenterOpenPrice", market_center_open_price)
    ∷ ("TickerType_Seller", seller)
    ∷ ("TickerType_T", t)
    ∷ ("TickerType_ExtendedTradingHours", extended_trading_hours)
    ∷ ("TickerType_Contingent", contingent)
    ∷ ("TickerType_AvgPrice", avg_price)
    ∷ ("TickerType_OTCSold", otc_sold)
    ∷ ("TickerType_OddLotCrossMarket", odd_lot_cross_market)
    ∷ ("TickerType_DerivativelyPriced", derivatively_priced)
    ∷ ("TickerType_ReOpeningPriced", re_opening_priced)
    ∷ ("TickerType_ClosingPriced", closing_priced)
    ∷ ("TickerType_ComprehensiveDelayPrice", comprehensive_delay_price)
    ∷ ("TickerType_Overseas", overseas)
    ∷ []

unfoldable pub from_str_name : String → Option TickerType
from_str_name value = match_name value arms

pub exact : Exact as_str_name from_str_name
unfolding Exact from_str_name match_name
exact = (
  λ a. elim a as (λ k. from_str_name (as_str_name k) ≡ some k) [
    | unknown ↦ refl
    | automatch ↦ refl
    | late ↦ refl
    | none_automatch ↦ refl
    | inter_automatch ↦ refl
    | inter_none_automatch ↦ refl
    | odd_lot ↦ refl
    | auction ↦ refl
    | bulk ↦ refl
    | crash ↦ refl
    | cross_market ↦ refl
    | bulk_sold ↦ refl
    | free_on_board ↦ refl
    | rule127_or155 ↦ refl
    | delay ↦ refl
    | market_center_close_price ↦ refl
    | next_day ↦ refl
    | market_center_opening ↦ refl
    | prior_reference_price ↦ refl
    | market_center_open_price ↦ refl
    | seller ↦ refl
    | t ↦ refl
    | extended_trading_hours ↦ refl
    | contingent ↦ refl
    | avg_price ↦ refl
    | otc_sold ↦ refl
    | odd_lot_cross_market ↦ refl
    | derivatively_priced ↦ refl
    | re_opening_priced ↦ refl
    | closing_priced ↦ refl
    | comprehensive_delay_price ↦ refl
    | overseas ↦ refl
  ],
  match_name_sound as_str_name arms refl,
)
