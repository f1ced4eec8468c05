-- ===== src/Generated/Enums/SortField.antt =====
-- crates/futu/src/generated/qot_common.rs: the enumeration SortField.
use Prim.Native.String.{String}
use nautilus_futu.Prelude.{◌≡◌, refl, List, [], ◌∷◌, Option, some}
use nautilus_futu.Prelude.Words.{ℤ, pos}
use nautilus_futu.Generated.Enums.{match_name, Exact, match_name_sound}

pub data SortField : Type 0 where
  unknow code cur_price price_change_val change_rate status bid_price ask_price bid_vol ask_vol
        volume turnover amplitude score premium effective_leverage delta implied_volatility type
        strike_price break_even_point maturity_time list_time last_trade_time leverage in_out_money
        recovery_price change_price change street_rate street_vol warrant_name issuer lot_size
        issue_size upper_strike_price lower_strike_price in_line_price_status pre_cur_price
        after_cur_price pre_price_change_val after_price_change_val pre_change_rate
        after_change_rate pre_amplitude after_amplitude pre_turnover after_turnover
        last_settle_price position position_change :
      SortField

-- `self as i32`
abbrev pub as_i32 : SortField → ℤ
as_i32 unknow = pos 0
as_i32 code = pos 1
as_i32 cur_price = pos 2
as_i32 price_change_val = pos 3
as_i32 change_rate = pos 4
as_i32 status = pos 5
as_i32 bid_price = pos 6
as_i32 ask_price = pos 7
as_i32 bid_vol = pos 8
as_i32 ask_vol = pos 9
as_i32 volume = pos 10
as_i32 turnover = pos 11
as_i32 amplitude = pos 30
as_i32 score = pos 12
as_i32 premium = pos 13
as_i32 effective_leverage = pos 14
as_i32 delta = pos 15
as_i32 implied_volatility = pos 16
as_i32 type = pos 17
as_i32 strike_price = pos 18
as_i32 break_even_point = pos 19
as_i32 maturity_time = pos 20
as_i32 list_time = pos 21
as_i32 last_trade_time = pos 22
as_i32 leverage = pos 23
as_i32 in_out_money = pos 24
as_i32 recovery_price = pos 25
as_i32 change_price = pos 26
as_i32 change = pos 27
as_i32 street_rate = pos 28
as_i32 street_vol = pos 29
as_i32 warrant_name = pos 31
as_i32 issuer = pos 32
as_i32 lot_size = pos 33
as_i32 issue_size = pos 34
as_i32 upper_strike_price = pos 45
as_i32 lower_strike_price = pos 46
as_i32 in_line_price_status = pos 47
as_i32 pre_cur_price = pos 35
as_i32 after_cur_price = pos 36
as_i32 pre_price_change_val = pos 37
as_i32 after_price_change_val = pos 38
as_i32 pre_change_rate = pos 39
as_i32 after_change_rate = pos 40
as_i32 pre_amplitude = pos 41
as_i32 after_amplitude = pos 42
as_i32 pre_turnover = pos 43
as_i32 after_turnover = pos 44
as_i32 last_settle_price = pos 48
as_i32 position = pos 49
as_i32 position_change = pos 50

abbrev pub as_str_name : SortField → String
as_str_name unknow = "SortField_Unknow"
as_str_name code = "SortField_Code"
as_str_name cur_price = "SortField_CurPrice"
as_str_name price_change_val = "SortField_PriceChangeVal"
as_str_name change_rate = "SortField_ChangeRate"
as_str_name status = "SortField_Status"
as_str_name bid_price = "SortField_BidPrice"
as_str_name ask_price = "SortField_AskPrice"
as_str_name bid_vol = "SortField_BidVol"
as_str_name ask_vol = "SortField_AskVol"
as_str_name volume = "SortField_Volume"
as_str_name turnover = "SortField_Turnover"
as_str_name amplitude = "SortField_Amplitude"
as_str_name score = "SortField_Score"
as_str_name premium = "SortField_Premium"
as_str_name effective_leverage = "SortField_EffectiveLeverage"
as_str_name delta = "SortField_Delta"
as_str_name implied_volatility = "SortField_ImpliedVolatility"
as_str_name type = "SortField_Type"
as_str_name strike_price = "SortField_StrikePrice"
as_str_name break_even_point = "SortField_BreakEvenPoint"
as_str_name maturity_time = "SortField_MaturityTime"
as_str_name list_time = "SortField_ListTime"
as_str_name last_trade_time = "SortField_LastTradeTime"
as_str_name leverage = "SortField_Leverage"
as_str_name in_out_money = "SortField_InOutMoney"
as_str_name recovery_price = "SortField_RecoveryPrice"
as_str_name change_price = "SortField_ChangePrice"
as_str_name change = "SortField_Change"
as_str_name street_rate = "SortField_StreetRate"
as_str_name street_vol = "SortField_StreetVol"
as_str_name warrant_name = "SortField_WarrantName"
as_str_name issuer = "SortField_Issuer"
as_str_name lot_size = "SortField_LotSize"
as_str_name issue_size = "SortField_IssueSize"
as_str_name upper_strike_price = "SortField_UpperStrikePrice"
as_str_name lower_strike_price = "SortField_LowerStrikePrice"
as_str_name in_line_price_status = "SortField_InLinePriceStatus"
as_str_name pre_cur_price = "SortField_PreCurPrice"
as_str_name after_cur_price = "SortField_AfterCurPrice"
as_str_name pre_price_change_val = "SortField_PrePriceChangeVal"
as_str_name after_price_change_val = "SortField_AfterPriceChangeVal"
as_str_name pre_change_rate = "SortField_PreChangeRate"
as_str_name after_change_rate = "SortField_AfterChangeRate"
as_str_name pre_amplitude = "SortField_PreAmplitude"
as_str_name after_amplitude = "SortField_AfterAmplitude"
as_str_name pre_turnover = "SortField_PreTurnover"
as_str_name after_turnover = "SortField_AfterTurnover"
as_str_name last_settle_price = "SortField_LastSettlePrice"
as_str_name position = "SortField_Position"
as_str_name position_change = "SortField_PositionChange"

abbrev arms : List (String × SortField)
arms =
    ("SortField_Unknow", unknow)
    ∷ ("SortField_Code", code)
    ∷ ("SortField_CurPrice", cur_price)
    ∷ ("SortField_PriceChangeVal", price_change_val)
    ∷ ("SortField_ChangeRate", change_rate)
    ∷ ("SortField_Status", status)
    ∷ ("SortField_BidPrice", bid_price)
    ∷ ("SortField_AskPrice", ask_price)
    ∷ ("SortField_BidVol", bid_vol)
    ∷ ("SortField_AskVol", ask_vol)
    ∷ ("SortField_Volume", volume)
    ∷ ("SortField_Turnover", turnover)
    ∷ ("SortField_Amplitude", amplitude)
    ∷ ("SortField_Score", score)
    ∷ ("SortField_Premium", premium)
    ∷ ("SortField_EffectiveLeverage", effective_leverage)
    ∷ ("SortField_Delta", delta)
    ∷ ("SortField_ImpliedVolatility", implied_volatility)
    ∷ ("SortField_Type", type)
    ∷ ("SortField_StrikePrice", strike_price)
    ∷ ("SortField_BreakEvenPoint", break_even_point)
    ∷ ("SortField_MaturityTime", maturity_time)
    ∷ ("SortField_ListTime", list_time)
    ∷ ("SortField_LastTradeTime", last_trade_time)
    ∷ ("SortField_Leverage", leverage)
    ∷ ("SortField_InOutMoney", in_out_money)
    ∷ ("SortField_RecoveryPrice", recovery_price)
    ∷ ("SortField_ChangePrice", change_price)
    ∷ ("SortField_Change", change)
    ∷ ("SortField_StreetRate", street_rate)
    ∷ ("SortField_StreetVol", street_vol)
    ∷ ("SortField_WarrantName", warrant_name)
    ∷ ("SortField_Issuer", issuer)
    ∷ ("SortField_LotSize", lot_size)
    ∷ ("SortField_IssueSize", issue_size)
    ∷ ("SortField_UpperStrikePrice", upper_strike_price)
    ∷ ("SortField_LowerStrikePrice", lower_strike_price)
    ∷ ("SortField_InLinePriceStatus", in_line_price_status)
    ∷ ("SortField_PreCurPrice", pre_cur_price)
    ∷ ("SortField_AfterCurPrice", after_cur_price)
    ∷ ("SortField_PrePriceChangeVal", pre_price_change_val)
    ∷ ("SortField_AfterPriceChangeVal", after_price_change_val)
    ∷ ("SortField_PreChangeRate", pre_change_rate)
    ∷ ("SortField_AfterChangeRate", after_change_rate)
    ∷ ("SortField_PreAmplitude", pre_amplitude)
    ∷ ("SortField_AfterAmplitude", after_amplitude)
    ∷ ("SortField_PreTurnover", pre_turnover)
    ∷ ("SortField_AfterTurnover", after_turnover)
    ∷ ("SortField_LastSettlePrice", last_settle_price)
    ∷ ("SortField_Position", position)
    ∷ ("SortField_PositionChange", position_change)
    ∷ []

unfoldable pub from_str_name : String → Option SortField
from_str_name value = match_name value arms

pub exact : Exact as_str_name from_str_name
unfolding Exact from_str_name match_name
exact = (
  λ a. elim a as (λ k. from_str_name (as_str_name k) ≡ some k) [
    | unknow ↦ refl
    | code ↦ refl
    | cur_price ↦ refl
    | price_change_val ↦ refl
    | change_rate ↦ refl
    | status ↦ refl
    | bid_price ↦ refl
    | ask_price ↦ refl
    | bid_vol ↦ refl
    | ask_vol ↦ refl
    | volume ↦ refl
    | turnover ↦ refl
    | amplitude ↦ refl
    | score ↦ refl
    | premium ↦ refl
    | effective_leverage ↦ refl
    | delta ↦ refl
    | implied_volatility ↦ refl
    | type ↦ refl
    | strike_price ↦ refl
    | break_even_point ↦ refl
    | maturity_time ↦ refl
    | list_time ↦ refl
    | last_trade_time ↦ refl
    | leverage ↦ refl
    | in_out_money ↦ refl
    | recovery_price ↦ refl
    | change_price ↦ refl
    | change ↦ refl
    | street_rate ↦ refl
    | street_vol ↦ refl
    | warrant_name ↦ refl
    | issuer ↦ refl
    | lot_size ↦ refl
    | issue_size ↦ refl
    | upper_strike_price ↦ refl
    | lower_strike_price ↦ refl
    | in_line_price_status ↦ refl
    | pre_cur_price ↦ refl
    | after_cur_price ↦ refl
    | pre_price_change_val ↦ refl
    | after_price_change_val ↦ refl
    | pre_change_rate ↦ refl
    | after_change_rate ↦ refl
    | pre_amplitude ↦ refl
    | after_amplitude ↦ refl
    | pre_turnover ↦ refl
    | after_turnover ↦ refl
    | last_settle_price ↦ refl
    | position ↦ refl
    | position_change ↦ refl
  ],
  match_name_sound as_str_name arms refl,
)
