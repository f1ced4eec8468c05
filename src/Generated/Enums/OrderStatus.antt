-- ===== src/Generated/Enums/OrderStatus.antt =====
-- crates/futu/src/generated/trd_common.rs: the enumeration OrderStatus.
use Prim.Native.String.{String}
use nautilus_futu.Prelude.{◌≡◌, refl, List, [], ◌∷◌, Option, some}
use nautilus_futu.Prelude.Words.{ℤ, pos, negsuc}
use nautilus_futu.Generated.Enums.{match_name, Exact, match_name_sound}

pub data OrderStatus : Type 0 where
  unsubmitted unknown waiting_submit submitting submit_failed time_out submitted filled_part
        filled_all cancelling_part cancelling_all cancelled_part cancelled_all failed disabled
        deleted fill_cancelled :
      OrderStatus

-- `self as i32`
abbrev pub as_i32 : OrderStatus → ℤ
as_i32 unsubmitted = pos 0
as_i32 unknown = negsuc 0
as_i32 waiting_submit = pos 1
as_i32 submitting = pos 2
as_i32 submit_failed = pos 3
as_i32 time_out = pos 4
as_i32 submitted = pos 5
as_i32 filled_part = pos 10
as_i32 filled_all = pos 11
as_i32 cancelling_part = pos 12
as_i32 cancelling_all = pos 13
as_i32 cancelled_part = pos 14
as_i32 cancelled_all = pos 15
as_i32 failed = pos 21
as_i32 disabled = pos 22
as_i32 deleted = pos 23
as_i32 fill_cancelled = pos 24

abbrev pub as_str_name : OrderStatus → String
as_str_name unsubmitted = "OrderStatus_Unsubmitted"
as_str_name unknown = "OrderStatus_Unknown"
as_str_name waiting_submit = "OrderStatus_WaitingSubmit"
as_str_name submitting = "OrderStatus_Submitting"
as_str_name submit_failed = "OrderStatus_SubmitFailed"
as_str_name time_out = "OrderStatus_TimeOut"
as_str_name submitted = "OrderStatus_Submitted"
as_str_name filled_part = "OrderStatus_Filled_Part"
as_str_name filled_all = "OrderStatus_Filled_All"
as_str_name cancelling_part = "OrderStatus_Cancelling_Part"
as_str_name cancelling_all = "OrderStatus_Cancelling_All"
as_str_name cancelled_part = "OrderStatus_Cancelled_Part"
as_str_name cancelled_all = "OrderStatus_Cancelled_All"
as_str_name failed = "OrderStatus_Failed"
as_str_name disabled = "OrderStatus_Disabled"
as_str_name deleted = "OrderStatus_Deleted"
as_str_name fill_cancelled = "OrderStatus_FillCancelled"

abbrev arms : List (String × OrderStatus)
arms =
    ("OrderStatus_Unsubmitted", unsubmitted)
    ∷ ("OrderStatus_Unknown", unknown)
    ∷ ("OrderStatus_WaitingSubmit", waiting_submit)
    ∷ ("OrderStatus_Submitting", submitting)
    ∷ ("OrderStatus_SubmitFailed", submit_failed)
    ∷ ("OrderStatus_TimeOut", time_out)
    ∷ ("OrderStatus_Submitted", submitted)
    ∷ ("OrderStatus_Filled_Part", filled_part)
    ∷ ("OrderStatus_Filled_All", filled_all)
    ∷ ("OrderStatus_Cancelling_Part", cancelling_part)
    ∷ ("OrderStatus_Cancelling_All", cancelling_all)
    ∷ ("OrderStatus_Cancelled_Part", cancelled_part)
    ∷ ("OrderStatus_Cancelled_All", cancelled_all)
    ∷ ("OrderStatus_Failed", failed)
    ∷ ("OrderStatus_Disabled", disabled)
    ∷ ("OrderStatus_Deleted", deleted)
    ∷ ("OrderStatus_FillCancelled", fill_cancelled)
    ∷ []

unfoldable pub from_str_name : String → Option OrderStatus
from_str_name value = match_name value arms

pub exact : Exact as_str_name from_str_name
unfolding Exact from_str_name match_name
exact = (
  λ a. elim a as (λ k. from_str_name (as_str_name k) ≡ some k) [
    | unsubmitted ↦ refl
    | unknown ↦ refl
    | waiting_submit ↦ refl
    | submitting ↦ refl
    | submit_failed ↦ refl
    | time_out ↦ refl
    | submitted ↦ refl
    | filled_part ↦ refl
    | filled_all ↦ refl
    | cancelling_part ↦ refl
    | cancelling_all ↦ refl
    | cancelled_part ↦ refl
    | cancelled_all ↦ refl
    | failed ↦ refl
    | disabled ↦ refl
    | deleted ↦ refl
    | fill_cancelled ↦ refl
  ],
  match_name_sound as_str_name arms refl,
)
