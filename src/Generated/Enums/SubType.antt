-- ===== src/Generated/Enums/SubType.antt =====
-- crates/futu/src/generated/qot_common.rs: the enumeration SubType.
use Prim.Native.String.{String}
use nautilus_futu.Prelude.{◌≡◌, refl, List, [], ◌∷◌, Option, some}
use nautilus_futu.Prelude.Words.{ℤ, pos}
use nautilus_futu.Generated.Enums.{match_name, Exact, match_name_sound}

pub data SubType : Type 0 where
  sub_type_none basic order_book ticker rt kl_day kl5min kl15min kl30min kl60min kl1min kl_week
        kl_month broker kl_qurater kl_year kl3min :
      SubType

-- `self as i32`
abbrev pub as_i32 : SubType → ℤ
as_i32 sub_type_none = pos 0
as_i32 basic = pos 1
as_i32 order_book = pos 2
as_i32 ticker = pos 4
as_i32 rt = pos 5
as_i32 kl_day = pos 6
as_i32 kl5min = pos 7
as_i32 kl15min = pos 8
as_i32 kl30min = pos 9
as_i32 kl60min = pos 10
as_i32 kl1min = pos 11
as_i32 kl_week = pos 12
as_i32 kl_month = pos 13
as_i32 broker = pos 14
as_i32 kl_qurater = pos 15
as_i32 kl_year = pos 16
as_i32 kl3min = pos 17

abbrev pub as_str_name : SubType → String
as_str_name sub_type_none = "SubType_None"
as_str_name basic = "SubType_Basic"
as_str_name order_book = "SubType_OrderBook"
as_str_name ticker = "SubType_Ticker"
as_str_name rt = "SubType_RT"
as_str_name kl_day = "SubType_KL_Day"
as_str_name kl5min = "SubType_KL_5Min"
as_str_name kl15min = "SubType_KL_15Min"
as_str_name kl30min = "SubType_KL_30Min"
as_str_name kl60min = "SubType_KL_60Min"
as_str_name kl1min = "SubType_KL_1Min"
as_str_name kl_week = "SubType_KL_Week"
as_str_name kl_month = "SubType_KL_Month"
as_str_name broker = "SubType_Broker"
as_str_name kl_qurater = "SubType_KL_Qurater"
as_str_name kl_year = "SubType_KL_Year"
as_str_name kl3min = "SubType_KL_3Min"

abbrev arms : List (String × SubType)
arms =
    ("SubType_None", sub_type_none)
    ∷ ("SubType_Basic", basic)
    ∷ ("SubType_OrderBook", order_book)
    ∷ ("SubType_Ticker", ticker)
    ∷ ("SubType_RT", rt)
    ∷ ("SubType_KL_Day", kl_day)
    ∷ ("SubType_KL_5Min", kl5min)
    ∷ ("SubType_KL_15Min", kl15min)
    ∷ ("SubType_KL_30Min", kl30min)
    ∷ ("SubType_KL_60Min", kl60min)
    ∷ ("SubType_KL_1Min", kl1min)
    ∷ ("SubType_KL_Week", kl_week)
    ∷ ("SubType_KL_Month", kl_month)
    ∷ ("SubType_Broker", broker)
    ∷ ("SubType_KL_Qurater", kl_qurater)
    ∷ ("SubType_KL_Year", kl_year)
    ∷ ("SubType_KL_3Min", kl3min)
    ∷ []

unfoldable pub from_str_name : String → Option SubType
from_str_name value = match_name value arms

pub exact : Exact as_str_name from_str_name
unfolding Exact from_str_name match_name
exact = (
  λ a. elim a as (λ k. from_str_name (as_str_name k) ≡ some k) [
    | sub_type_none ↦ refl
    | basic ↦ refl
    | order_book ↦ refl
    | ticker ↦ refl
    | rt ↦ refl
    | kl_day ↦ refl
    | kl5min ↦ refl
    | kl15min ↦ refl
    | kl30min ↦ refl
    | kl60min ↦ refl
    | kl1min ↦ refl
    | kl_week ↦ refl
    | kl_month ↦ refl
    | broker ↦ refl
    | kl_qurater ↦ refl
    | kl_year ↦ refl
    | kl3min ↦ refl
  ],
  match_name_sound as_str_name arms refl,
)
