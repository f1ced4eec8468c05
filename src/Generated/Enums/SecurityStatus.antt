-- ===== src/Generated/Enums/SecurityStatus.antt =====
-- crates/futu/src/generated/qot_common.rs: the enumeration SecurityStatus.
use Prim.Native.String.{String}
use nautilus_futu.Prelude.{◌≡◌, refl, List, [], ◌∷◌, Option, some}
use nautilus_futu.Prelude.Words.{ℤ, pos}
use nautilus_futu.Generated.Enums.{match_name, Exact, match_name_sound}

pub data SecurityStatus : Type 0 where
  unknown normal listing purchasing subscribing before_drak_trade_opening drak_trading
        drak_trade_end to_be_open suspended called expired_last_trading_date expired delisted
        change_to_temporary_code temporary_code_trade_end changed_plate_trade_end
        changed_code_trade_end recoverable_circuit_breaker un_recoverable_circuit_breaker
        after_combination after_transation :
      SecurityStatus

-- `self as i32`
abbrev pub as_i32 : SecurityStatus → ℤ
as_i32 unknown = pos 0
as_i32 normal = pos 1
as_i32 listing = pos 2
as_i32 purchasing = pos 3
as_i32 subscribing = pos 4
as_i32 before_drak_trade_opening = pos 5
as_i32 drak_trading = pos 6
as_i32 drak_trade_end = pos 7
as_i32 to_be_open = pos 8
as_i32 suspended = pos 9
as_i32 called = pos 10
as_i32 expired_last_trading_date = pos 11
as_i32 expired = pos 12
as_i32 delisted = pos 13
as_i32 change_to_temporary_code = pos 14
as_i32 temporary_code_trade_end = pos 15
as_i32 changed_plate_trade_end = pos 16
as_i32 changed_code_trade_end = pos 17
as_i32 recoverable_circuit_breaker = pos 18
as_i32 un_recoverable_circuit_breaker = pos 19
as_i32 after_combination = pos 20
as_i32 after_transation = pos 21

abbrev pub as_str_name : SecurityStatus → String
as_str_name unknown = "SecurityStatus_Unknown"
as_str_name normal = "SecurityStatus_Normal"
as_str_name listing = "SecurityStatus_Listing"
as_str_name purchasing = "SecurityStatus_Purchasing"
as_str_name subscribing = "SecurityStatus_Subscribing"
as_str_name before_drak_trade_opening = "SecurityStatus_BeforeDrakTradeOpening"
as_str_name drak_trading = "SecurityStatus_DrakTrading"
as_str_name drak_trade_end = "SecurityStatus_DrakTradeEnd"
as_str_name to_be_open = "SecurityStatus_ToBeOpen"
as_str_name suspended = "SecurityStatus_Suspended"
as_str_name called = "SecurityStatus_Called"
as_str_name expired_last_trading_date = "SecurityStatus_ExpiredLastTradingDate"
as_str_name expired = "SecurityStatus_Expired"
as_str_name delisted = "SecurityStatus_Delisted"
as_str_name change_to_temporary_code = "SecurityStatus_ChangeToTemporaryCode"
as_str_name temporary_code_trade_end = "SecurityStatus_TemporaryCodeTradeEnd"
as_str_name changed_plate_trade_end = "SecurityStatus_ChangedPlateTradeEnd"
as_str_name changed_code_trade_end = "SecurityStatus_ChangedCodeTradeEnd"
as_str_name recoverable_circuit_breaker = "SecurityStatus_RecoverableCircuitBreaker"
as_str_name un_recoverable_circuit_breaker = "SecurityStatus_UnRecoverableCircuitBreaker"
as_str_name after_combination = "SecurityStatus_AfterCombination"
as_str_name after_transation = "SecurityStatus_AfterTransation"

abbrev arms : List (String × SecurityStatus)
arms =
    ("SecurityStatus_Unknown", unknown)
    ∷ ("SecurityStatus_Normal", normal)
    ∷ ("SecurityStatus_Listing", listing)
    ∷ ("SecurityStatus_Purchasing", purchasing)
    ∷ ("SecurityStatus_Subscribing", subscribing)
    ∷ ("SecurityStatus_BeforeDrakTradeOpening", before_drak_trade_opening)
    ∷ ("SecurityStatus_DrakTrading", drak_trading)
    ∷ ("SecurityStatus_DrakTradeEnd", drak_trade_end)
    ∷ ("SecurityStatus_ToBeOpen", to_be_open)
    ∷ ("SecurityStatus_Suspended", suspended)
    ∷ ("SecurityStatus_Called", called)
    ∷ ("SecurityStatus_ExpiredLastTradingDate", expired_last_trading_date)
    ∷ ("SecurityStatus_Expired", expired)
    ∷ ("SecurityStatus_Delisted", delisted)
    ∷ ("SecurityStatus_ChangeToTemporaryCode", change_to_temporary_code)
    ∷ ("SecurityStatus_TemporaryCodeTradeEnd", temporary_code_trade_end)
    ∷ ("SecurityStatus_ChangedPlateTradeEnd", changed_plate_trade_end)
    ∷ ("SecurityStatus_ChangedCodeTradeEnd", changed_code_trade_end)
    ∷ ("SecurityStatus_RecoverableCircuitBreaker", recoverable_circuit_breaker)
    ∷ ("SecurityStatus_UnRecoverableCircuitBreaker", un_recoverable_circuit_breaker)
    ∷ ("SecurityStatus_AfterCombination", after_combination)
    ∷ ("SecurityStatus_AfterTransation", after_transation)
    ∷ []

unfoldable pub from_str_name : String → Option SecurityStatus
from_str_name value = match_name value arms

pub exact : Exact as_str_name from_str_name
unfolding Exact from_str_name match_name
exact = (
  λ a. elim a as (λ k. from_str_name (as_str_name k) ≡ some k) [
    | unknown ↦ refl
    | normal ↦ refl
    | listing ↦ refl
    | purchasing ↦ refl
    | subscribing ↦ refl
    | before_drak_trade_opening ↦ refl
    | drak_trading ↦ refl
    | drak_trade_end ↦ refl
    | to_be_open ↦ refl
    | suspended ↦ refl
    | called ↦ refl
    | expired_last_trading_date ↦ refl
    | expired ↦ refl
    | delisted ↦ refl
    | change_to_temporary_code ↦ refl
    | temporary_code_trade_end ↦ refl
    | changed_plate_trade_end ↦ refl
    | changed_code_trade_end ↦ refl
    | recoverable_circuit_breaker ↦ refl
    | un_recoverable_circuit_breaker ↦ refl
    | after_combination ↦ refl
    | after_transation ↦ refl
  ],
  match_name_sound as_str_name arms refl,
)
