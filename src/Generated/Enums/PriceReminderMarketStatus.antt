-- ===== src/Generated/Enums/PriceReminderMarketStatus.antt =====
-- crates/futu/src/generated/qot_common.rs: the enumeration PriceReminderMarketStatus.
use Prim.Native.String.{String}
use nautilus_futu.Prelude.{◌≡◌, refl, List, [], ◌∷◌, Option, some}
use nautilus_futu.Prelude.Words.{ℤ, pos}
use nautilus_futu.Generated.Enums.{match_name, Exact, match_name_sound}

pub data PriceReminderMarketStatus : Type 0 where
  unknow price_reminder_market_status_open us_pre us_after us_over_night : PriceReminderMarketStatus

-- `self as i32`
abbrev pub as_i32 : PriceReminderMarketStatus → ℤ
as_i32 unknow = pos 0
as_i32 price_reminder_market_status_open = pos 1
as_i32 us_pre = pos 2
as_i32 us_after = pos 3
as_i32 us_over_night = pos 4

abbrev pub as_str_name : PriceReminderMarketStatus → String
as_str_name unknow = "PriceReminderMarketStatus_Unknow"
as_str_name price_reminder_market_status_open = "PriceReminderMarketStatus_Open"
as_str_name us_pre = "PriceReminderMarketStatus_USPre"
as_str_name us_after = "PriceReminderMarketStatus_USAfter"
as_str_name us_over_night = "PriceReminderMarketStatus_USOverNight"

abbrev arms : List (String × PriceReminderMarketStatus)
arms =
    ("PriceReminderMarketStatus_Unknow", unknow)
    ∷ ("PriceReminderMarketStatus_Open", price_reminder_market_status_open)
    ∷ ("PriceReminderMarketStatus_USPre", us_pre)
    ∷ ("PriceReminderMarketStatus_USAfter", us_after)
    ∷ ("PriceReminderMarketStatus_USOverNight", us_over_night)
    ∷ []

unfoldable pub from_str_name : String → Option PriceReminderMarketStatus
from_str_name value = match_name value arms

pub exact : Exact as_str_name from_str_name
unfolding Exact from_str_name match_name
exact = (
  λ a. elim a as (λ k. from_str_name (as_str_name k) ≡ some k) [
    | unknow ↦ refl
    | price_reminder_market_status_open ↦ refl
    | us_pre ↦ refl
    | us_after ↦ refl
    | us_over_night ↦ refl
  ],
  match_name_sound as_str_name arms refl,
)
