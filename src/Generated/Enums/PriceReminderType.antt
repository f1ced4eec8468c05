-- ===== src/Generated/Enums/PriceReminderType.antt =====
-- crates/futu/src/generated/qot_common.rs: the enumeration PriceReminderType.
use Prim.Native.String.{String}
use nautilus_futu.Prelude.{◌≡◌, refl, List, [], ◌∷◌, Option, some}
use nautilus_futu.Prelude.Words.{ℤ, pos}
use nautilus_futu.Generated.Enums.{match_name, Exact, match_name_sound}

pub data PriceReminderType : Type 0 where
  unknown price_up price_down change_rate_up change_rate_down price_reminder_type5min_change_rate_up
        price_reminder_type5min_change_rate_down volume_up turnover_up turnover_rate_up bid_price_up
        ask_price_down bid_vol_up ask_vol_up price_reminder_type3min_change_rate_up
        price_reminder_type3min_change_rate_down :
      PriceReminderType

-- `self as i32`
abbrev pub as_i32 : PriceReminderType → ℤ
as_i32 unknown = pos 0
as_i32 price_up = pos 1
as_i32 price_down = pos 2
as_i32 change_rate_up = pos 3
as_i32 change_rate_down = pos 4
as_i32 price_reminder_type5min_change_rate_up = pos 5
as_i32 price_reminder_type5min_change_rate_down = pos 6
as_i32 volume_up = pos 7
as_i32 turnover_up = pos 8
as_i32 turnover_rate_up = pos 9
as_i32 bid_price_up = pos 10
as_i32 ask_price_down = pos 11
as_i32 bid_vol_up = pos 12
as_i32 ask_vol_up = pos 13
as_i32 price_reminder_type3min_change_rate_up = pos 14
as_i32 price_reminder_type3min_change_rate_down = pos 15

abbrev pub as_str_name : PriceReminderType → String
as_str_name unknown = "PriceReminderType_Unknown"
as_str_name price_up = "PriceReminderType_PriceUp"
as_str_name price_down = "PriceReminderType_PriceDown"
as_str_name change_rate_up = "PriceReminderType_ChangeRateUp"
as_str_name change_rate_down = "PriceReminderType_ChangeRateDown"
as_str_name price_reminder_type5min_change_rate_up = "PriceReminderType_5MinChangeRateUp"
as_str_name price_reminder_type5min_change_rate_down = "PriceReminderType_5MinChangeRateDown"
as_str_name volume_up = "PriceReminderType_VolumeUp"
as_str_name turnover_up = "PriceReminderType_TurnoverUp"
as_str_name turnover_rate_up = "PriceReminderType_TurnoverRateUp"
as_str_name bid_price_up = "PriceReminderType_BidPriceUp"
as_str_name ask_price_down = "PriceReminderType_AskPriceDown"
as_str_name bid_vol_up = "PriceReminderType_BidVolUp"
as_str_name ask_vol_up = "PriceReminderType_AskVolUp"
as_str_name price_reminder_type3min_change_rate_up = "PriceReminderType_3MinChangeRateUp"
as_str_name price_reminder_type3min_change_rate_down = "PriceReminderType_3MinChangeRateDown"

abbrev arms : List (String × PriceReminderType)
arms =
    ("PriceReminderType_Unknown", unknown)
    ∷ ("PriceReminderType_PriceUp", price_up)
    ∷ ("PriceReminderType_PriceDown", price_down)
    ∷ ("PriceReminderType_ChangeRateUp", change_rate_up)
    ∷ ("PriceReminderType_ChangeRateDown", change_rate_down)
    ∷ ("PriceReminderType_5MinChangeRateUp", price_reminder_type5min_change_rate_up)
    ∷ ("PriceReminderType_5MinChangeRateDown", price_reminder_type5min_change_rate_down)
    ∷ ("PriceReminderType_VolumeUp", volume_up)
    ∷ ("PriceReminderType_TurnoverUp", turnover_up)
    ∷ ("PriceReminderType_TurnoverRateUp", turnover_rate_up)
    ∷ ("PriceReminderType_BidPriceUp", bid_price_up)
    ∷ ("PriceReminderType_AskPriceDown", ask_price_down)
    ∷ ("PriceReminderType_BidVolUp", bid_vol_up)
    ∷ ("PriceReminderType_AskVolUp", ask_vol_up)
    ∷ ("PriceReminderType_3MinChangeRateUp", price_reminder_type3min_change_rate_up)
    ∷ ("PriceReminderType_3MinChangeRateDown", price_reminder_type3min_change_rate_down)
    ∷ []

unfoldable pub from_str_name : String → Option PriceReminderType
from_str_name value = match_name value arms

pub exact : Exact as_str_name from_str_name
unfolding Exact from_str_name match_name
exact = (
  λ a. elim a as (λ k. from_str_name (as_str_name k) ≡ some k) [
    | unknown ↦ refl
    | price_up ↦ refl
    | price_down ↦ refl
    | change_rate_up ↦ refl
    | change_rate_down ↦ refl
    | price_reminder_type5min_change_rate_up ↦ refl
    | price_reminder_type5min_change_rate_down ↦ refl
    | volume_up ↦ refl
    | turnover_up ↦ refl
    | turnover_rate_up ↦ refl
    | bid_price_up ↦ refl
    | ask_price_down ↦ refl
    | bid_vol_up ↦ refl
    | ask_vol_up ↦ refl
    | price_reminder_type3min_change_rate_up ↦ refl
    | price_reminder_type3min_change_rate_down ↦ refl
  ],
  match_name_sound as_str_name arms refl,
)
