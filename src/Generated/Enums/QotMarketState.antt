-- ===== src/Generated/Enums/QotMarketState.antt =====
-- crates/futu/src/generated/qot_common.rs: the enumeration QotMarketState.
use Prim.Native.String.{String}
use nautilus_futu.Prelude.{◌≡◌, refl, List, [], ◌∷◌, Option, some}
use nautilus_futu.Prelude.Words.{ℤ, pos}
use nautilus_futu.Generated.Enums.{match_name, Exact, match_name_sound}

pub data QotMarketState : Type 0 where
  qot_market_state_none auction waiting_open morning rest afternoon closed pre_market_begin
        pre_market_end after_hours_begin after_hours_end futu_switch_date night_open night_end
        future_day_open future_day_break future_day_close future_day_wait_for_open hk_cas
        future_night_wait future_afternoon future_switch_date future_open future_break
        future_break_over future_close stib_after_hours_wait stib_after_hours_begin
        stib_after_hours_end close_auction afternoon_end night overnight_begin overnight_end
        trade_at_last trade_auction overnight :
      QotMarketState

-- `self as i32`
abbrev pub as_i32 : QotMarketState → ℤ
as_i32 qot_market_state_none = pos 0
as_i32 auction = pos 1
as_i32 waiting_open = pos 2
as_i32 morning = pos 3
as_i32 rest = pos 4
as_i32 afternoon = pos 5
as_i32 closed = pos 6
as_i32 pre_market_begin = pos 8
as_i32 pre_market_end = pos 9
as_i32 after_hours_begin = pos 10
as_i32 after_hours_end = pos 11
as_i32 futu_switch_date = pos 12
as_i32 night_open = pos 13
as_i32 night_end = pos 14
as_i32 future_day_open = pos 15
as_i32 future_day_break = pos 16
as_i32 future_day_close = pos 17
as_i32 future_day_wait_for_open = pos 18
as_i32 hk_cas = pos 19
as_i32 future_night_wait = pos 20
as_i32 future_afternoon = pos 21
as_i32 future_switch_date = pos 22
as_i32 future_open = pos 23
as_i32 future_break = pos 24
as_i32 future_break_over = pos 25
as_i32 future_close = pos 26
as_i32 stib_after_hours_wait = pos 27
as_i32 stib_after_hours_begin = pos 28
as_i32 stib_after_hours_end = pos 29
as_i32 close_auction = pos 30
as_i32 afternoon_end = pos 31
as_i32 night = pos 32
as_i32 overnight_begin = pos 33
as_i32 overnight_end = pos 34
as_i32 trade_at_last = pos 35
as_i32 trade_auction = pos 36
as_i32 overnight = pos 37

abbrev pub as_str_name : QotMarketState → String
as_str_name qot_market_state_none = "QotMarketState_None"
as_str_name auction = "QotMarketState_Auction"
as_str_name waiting_open = "QotMarketState_WaitingOpen"
as_str_name morning = "QotMarketState_Morning"
as_str_name rest = "QotMarketState_Rest"
as_str_name afternoon = "QotMarketState_Afternoon"
as_str_name closed = "QotMarketState_Closed"
as_str_name pre_market_begin = "QotMarketState_PreMarketBegin"
as_str_name pre_market_end = "QotMarketState_PreMarketEnd"
as_str_name after_hours_begin = "QotMarketState_AfterHoursBegin"
as_str_name after_hours_end = "QotMarketState_AfterHoursEnd"
as_str_name futu_switch_date = "QotMarketState_FUTU_SWITCH_DATE"
as_str_name night_open = "QotMarketState_NightOpen"
as_str_name night_end = "QotMarketState_NightEnd"
as_str_name future_day_open = "QotMarketState_FutureDayOpen"
as_str_name future_day_break = "QotMarketState_FutureDayBreak"
as_str_name future_day_close = "QotMarketState_FutureDayClose"
as_str_name future_day_wait_for_open = "QotMarketState_FutureDayWaitForOpen"
as_str_name hk_cas = "QotMarketState_HkCas"
as_str_name future_night_wait = "QotMarketState_FutureNightWait"
as_str_name future_afternoon = "QotMarketState_FutureAfternoon"
as_str_name future_switch_date = "QotMarketState_FutureSwitchDate"
as_str_name future_open = "QotMarketState_FutureOpen"
as_str_name future_break = "QotMarketState_FutureBreak"
as_str_name future_break_over = "QotMarketState_FutureBreakOver"
as_str_name future_close = "QotMarketState_FutureClose"
as_str_name stib_after_hours_wait = "QotMarketState_StibAfterHoursWait"
as_str_name stib_after_hours_begin = "QotMarketState_StibAfterHoursBegin"
as_str_name stib_after_hours_end = "QotMarketState_StibAfterHoursEnd"
as_str_name close_auction = "QotMarketState_CLOSE_AUCTION"
as_str_name afternoon_end = "QotMarketState_AFTERNOON_END"
as_str_name night = "QotMarketState_NIGHT"
as_str_name overnight_begin = "QotMarketState_OVERNIGHT_BEGIN"
as_str_name overnight_end = "QotMarketState_OVERNIGHT_END"
as_str_name trade_at_last = "QotMarketState_TRADE_AT_LAST"
as_str_name trade_auction = "QotMarketState_TRADE_AUCTION"
as_str_name overnight = "QotMarketState_OVERNIGHT"

abbrev arms : List (String × QotMarketState)
arms =
    ("QotMarketState_None", qot_market_state_none)
    ∷ ("QotMarketState_Auction", auction)
    ∷ ("QotMarketState_WaitingOpen", waiting_open)
    ∷ ("QotMarketState_Morning", morning)
    ∷ ("QotMarketState_Rest", rest)
    ∷ ("QotMarketState_Afternoon", afternoon)
    ∷ ("QotMarketState_Closed", closed)
    ∷ ("QotMarketState_PreMarketBegin", pre_market_begin)
    ∷ ("QotMarketState_PreMarketEnd", pre_market_end)
    ∷ ("QotMarketState_AfterHoursBegin", after_hours_begin)
    ∷ ("QotMarketState_AfterHoursEnd", after_hours_end)
    ∷ ("QotMarketState_FUTU_SWITCH_DATE", futu_switch_date)
    ∷ ("QotMarketState_NightOpen", night_open)
    ∷ ("QotMarketState_NightEnd", night_end)
    ∷ ("QotMarketState_FutureDayOpen", future_day_open)
    ∷ ("QotMarketState_FutureDayBreak", future_day_break)
    ∷ ("QotMarketState_FutureDayClose", future_day_close)
    ∷ ("QotMarketState_FutureDayWaitForOpen", future_day_wait_for_open)
    ∷ ("QotMarketState_HkCas", hk_cas)
    ∷ ("QotMarketState_FutureNightWait", future_night_wait)
    ∷ ("QotMarketState_FutureAfternoon", future_afternoon)
    ∷ ("QotMarketState_FutureSwitchDate", future_switch_date)
    ∷ ("QotMarketState_FutureOpen", future_open)
    ∷ ("QotMarketState_FutureBreak", future_break)
    ∷ ("QotMarketState_FutureBreakOver", future_break_over)
    ∷ ("QotMarketState_FutureClose", future_close)
    ∷ ("QotMarketState_StibAfterHoursWait", stib_after_hours_wait)
    ∷ ("QotMarketState_StibAfterHoursBegin", stib_after_hours_begin)
    ∷ ("QotMarketState_StibAfterHoursEnd", stib_after_hours_end)
    ∷ ("QotMarketState_CLOSE_AUCTION", close_auction)
    ∷ ("QotMarketState_AFTERNOON_END", afternoon_end)
    ∷ ("QotMarketState_NIGHT", night)
    ∷ ("QotMarketState_OVERNIGHT_BEGIN", overnight_begin)
    ∷ ("QotMarketState_OVERNIGHT_END", overnight_end)
    ∷ ("QotMarketState_TRADE_AT_LAST", trade_at_last)
    ∷ ("QotMarketState_TRADE_AUCTION", trade_auction)
    ∷ ("QotMarketState_OVERNIGHT", overnight)
    ∷ []

unfoldable pub from_str_name : String → Option QotMarketState
from_str_name value = match_name value arms

pub exact : Exact as_str_name from_str_name
unfolding Exact from_str_name match_name
exact = (
  λ a. elim a as (λ k. from_str_name (as_str_name k) ≡ some k) [
    | qot_market_state_none ↦ refl
    | auction ↦ refl
    | waiting_open ↦ refl
    | morning ↦ refl
    | rest ↦ refl
    | afternoon ↦ refl
    | closed ↦ refl
    | pre_market_begin ↦ refl
    | pre_market_end ↦ refl
    | after_hours_begin ↦ refl
    | after_hours_end ↦ refl
    | futu_switch_date ↦ refl
    | night_open ↦ refl
    | night_end ↦ refl
    | future_day_open ↦ refl
    | future_day_break ↦ refl
    | future_day_close ↦ refl
    | future_day_wait_for_open ↦ refl
    | hk_cas ↦ refl
    | future_night_wait ↦ refl
    | future_afternoon ↦ refl
    | future_switch_date ↦ refl
    | future_open ↦ refl
    | future_break ↦ refl
    | future_break_over ↦ refl
    | future_close ↦ refl
    | stib_after_hours_wait ↦ refl
    | stib_after_hours_begin ↦ refl
    | stib_after_hours_end ↦ refl
    | close_auction ↦ refl
    | afternoon_end ↦ refl
    | night ↦ refl
    | overnight_begin ↦ refl
    | overnight_end ↦ refl
    | trade_at_last ↦ refl
    | trade_auction ↦ refl
    | overnight ↦ refl
  ],
  match_name_sound as_str_name arms refl,
)
