-- ===== src/Generated/Enums/ExpirationCycle.antt =====
-- crates/futu/src/generated/qot_common.rs: the enumeration ExpirationCycle.
use Prim.Native.String.{String}
use nautilus_futu.Prelude.{◌≡◌, refl, List, [], ◌∷◌, Option, some}
use nautilus_futu.Prelude.Words.{ℤ, pos}
use nautilus_futu.Generated.Enums.{match_name, Exact, match_name_sound}

pub data ExpirationCycle : Type 0 where
  unknown week month month_end quarter week_mon week_tue week_wed week_thu week_fri :
      ExpirationCycle

-- `self as i32`
abbrev pub as_i32 : ExpirationCycle → ℤ
as_i32 unknown = pos 0
as_i32 week = pos 1
as_i32 month = pos 2
as_i32 month_end = pos 3
as_i32 quarter = pos 4
as_i32 week_mon = pos 11
as_i32 week_tue = pos 12
as_i32 week_wed = pos 13
as_i32 week_thu = pos 14
as_i32 week_fri = pos 15

abbrev pub as_str_name : ExpirationCycle → String
as_str_name unknown = "ExpirationCycle_Unknown"
as_str_name week = "ExpirationCycle_Week"
as_str_name month = "ExpirationCycle_Month"
as_str_name month_end = "ExpirationCycle_MonthEnd"
as_str_name quarter = "ExpirationCycle_Quarter"
as_str_name week_mon = "ExpirationCycle_WeekMon"
as_str_name week_tue = "ExpirationCycle_WeekTue"
as_str_name week_wed = "ExpirationCycle_WeekWed"
as_str_name week_thu = "ExpirationCycle_WeekThu"
as_str_name week_fri = "ExpirationCycle_WeekFri"

abbrev arms : List (String × ExpirationCycle)
arms =
    ("ExpirationCycle_Unknown", unknown)
    ∷ ("ExpirationCycle_Week", week)
    ∷ ("ExpirationCycle_Month", month)
    ∷ ("ExpirationCycle_MonthEnd", month_end)
    ∷ ("ExpirationCycle_Quarter", quarter)
    ∷ ("ExpirationCycle_WeekMon", week_mon)
    ∷ ("ExpirationCycle_WeekTue", week_tue)
    ∷ ("ExpirationCycle_WeekWed", week_wed)
    ∷ ("ExpirationCycle_WeekThu", week_thu)
    ∷ ("ExpirationCycle_WeekFri", week_fri)
    ∷ []

unfoldable pub from_str_name : String → Option ExpirationCycle
from_str_name value = match_name value arms

pub exact : Exact as_str_name from_str_name
unfolding Exact from_str_name match_name
exact = (
  λ a. elim a as (λ k. from_str_name (as_str_name k) ≡ some k) [
    | unknown ↦ refl
    | week ↦ refl
    | month ↦ refl
    | month_end ↦ refl
    | quarter ↦ refl
    | week_mon ↦ refl
    | week_tue ↦ refl
    | week_wed ↦ refl
    | week_thu ↦ refl
    | week_fri ↦ refl
  ],
  match_name_sound as_str_name arms refl,
)
