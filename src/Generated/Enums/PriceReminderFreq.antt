-- ===== src/Generated/Enums/PriceReminderFreq.antt =====
-- crates/futu/src/generated/qot_common.rs: the enumeration PriceReminderFreq.
use Prim.Native.String.{String}
use nautilus_futu.Prelude.{◌≡◌, refl, List, [], ◌∷◌, Option, some}
use nautilus_futu.Prelude.Words.{ℤ, pos}
use nautilus_futu.Generated.Enums.{match_name, Exact, match_name_sound}

pub data PriceReminderFreq : Type 0 where
  unknown always once_a_day only_once : PriceReminderFreq

-- `self as i32`
abbrev pub as_i32 : PriceReminderFreq → ℤ
as_i32 unknown = pos 0
as_i32 always = pos 1
as_i32 once_a_day = pos 2
as_i32 only_once = pos 3

abbrev pub as_str_name : PriceReminderFreq → String
as_str_name unknown = "PriceReminderFreq_Unknown"
as_str_name always = "PriceReminderFreq_Always"
as_str_name once_a_day = "PriceReminderFreq_OnceADay"
as_str_name only_once = "PriceReminderFreq_OnlyOnce"

abbrev arms : List (String × PriceReminderFreq)
arms =
    ("PriceReminderFreq_Unknown", unknown)
    ∷ ("PriceReminderFreq_Always", always)
    ∷ ("PriceReminderFreq_OnceADay", once_a_day)
    ∷ ("PriceReminderFreq_OnlyOnce", only_once)
    ∷ []

unfoldable pub from_str_name : String → Option PriceReminderFreq
from_str_name value = match_name value arms

pub exact : Exact as_str_name from_str_name
unfolding Exact from_str_name match_name
exact = (
  λ a. elim a as (λ k. from_str_name (as_str_name k) ≡ some k) [
    | unknown ↦ refl
    | always ↦ refl
    | once_a_day ↦ refl
    | only_once ↦ refl
  ],
  match_name_sound as_str_name arms refl,
)
