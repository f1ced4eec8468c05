-- ===== src/Generated/Enums/KlFields.antt =====
-- crates/futu/src/generated/qot_common.rs: the enumeration KlFields.
use Prim.Native.String.{String}
use nautilus_futu.Prelude.{◌≡◌, refl, List, [], ◌∷◌, Option, some}
use nautilus_futu.Prelude.Words.{ℤ, pos}
use nautilus_futu.Generated.Enums.{match_name, Exact, match_name_sound}

pub data KlFields : Type 0 where
  kl_fields_none high kl_fields_open low close last_close volume turnover turnover_rate pe
        change_rate :
      KlFields

-- `self as i32`
abbrev pub as_i32 : KlFields → ℤ
as_i32 kl_fields_none = pos 0
as_i32 high = pos 1
as_i32 kl_fields_open = pos 2
as_i32 low = pos 4
as_i32 close = pos 8
as_i32 last_close = pos 16
as_i32 volume = pos 32
as_i32 turnover = pos 64
as_i32 turnover_rate = pos 128
as_i32 pe = pos 256
as_i32 change_rate = pos 512

abbrev pub as_str_name : KlFields → String
as_str_name kl_fields_none = "KLFields_None"
as_str_name high = "KLFields_High"
as_str_name kl_fields_open = "KLFields_Open"
as_str_name low = "KLFields_Low"
as_str_name close = "KLFields_Close"
as_str_name last_close = "KLFields_LastClose"
as_str_name volume = "KLFields_Volume"
as_str_name turnover = "KLFields_Turnover"
as_str_name turnover_rate = "KLFields_TurnoverRate"
as_str_name pe = "KLFields_PE"
as_str_name change_rate = "KLFields_ChangeRate"

abbrev arms : List (String × KlFields)
arms =
    ("KLFields_None", kl_fields_none)
    ∷ ("KLFields_High", high)
    ∷ ("KLFields_Open", kl_fields_open)
    ∷ ("KLFields_Low", low)
    ∷ ("KLFields_Close", close)
    ∷ ("KLFields_LastClose", last_close)
    ∷ ("KLFields_Volume", volume)
    ∷ ("KLFields_Turnover", turnover)
    ∷ ("KLFields_TurnoverRate", turnover_rate)
    ∷ ("KLFields_PE", pe)
    ∷ ("KLFields_ChangeRate", change_rate)
    ∷ []

unfoldable pub from_str_name : String → Option KlFields
from_str_name value = match_name value arms

pub exact : Exact as_str_name from_str_name
unfolding Exact from_str_name match_name
exact = (
  λ a. elim a as (λ k. from_str_name (as_str_name k) ≡ some k) [
    | kl_fields_none ↦ refl
    | high ↦ refl
    | kl_fields_open ↦ refl
    | low ↦ refl
    | close ↦ refl
    | last_close ↦ refl
    | volume ↦ refl
    | turnover ↦ refl
    | turnover_rate ↦ refl
    | pe ↦ refl
    | change_rate ↦ refl
  ],
  match_name_sound as_str_name arms refl,
)
