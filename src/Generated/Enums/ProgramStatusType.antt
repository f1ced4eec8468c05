-- ===== src/Generated/Enums/ProgramStatusType.antt =====
-- crates/futu/src/generated/common.rs: the enumeration ProgramStatusType.
use Prim.Native.String.{String}
use nautilus_futu.Prelude.{◌≡◌, refl, List, [], ◌∷◌, Option, some}
use nautilus_futu.Prelude.Words.{ℤ, pos}
use nautilus_futu.Generated.Enums.{match_name, Exact, match_name_sound}

pub data ProgramStatusType : Type 0 where
  program_status_type_none loaded loging need_pic_verify_code need_phone_verify_code login_failed
        force_update nessary_data_preparing nessary_data_missing un_agree_disclaimer ready
        force_logout disclaimer_pull_failed :
      ProgramStatusType

-- `self as i32`
abbrev pub as_i32 : ProgramStatusType → ℤ
as_i32 program_status_type_none = pos 0
as_i32 loaded = pos 1
as_i32 loging = pos 2
as_i32 need_pic_verify_code = pos 3
as_i32 need_phone_verify_code = pos 4
as_i32 login_failed = pos 5
as_i32 force_update = pos 6
as_i32 nessary_data_preparing = pos 7
as_i32 nessary_data_missing = pos 8
as_i32 un_agree_disclaimer = pos 9
as_i32 ready = pos 10
as_i32 force_logout = pos 11
as_i32 disclaimer_pull_failed = pos 12

abbrev pub as_str_name : ProgramStatusType → String
as_str_name program_status_type_none = "ProgramStatusType_None"
as_str_name loaded = "ProgramStatusType_Loaded"
as_str_name loging = "ProgramStatusType_Loging"
as_str_name need_pic_verify_code = "ProgramStatusType_NeedPicVerifyCode"
as_str_name need_phone_verify_code = "ProgramStatusType_NeedPhoneVerifyCode"
as_str_name login_failed = "ProgramStatusType_LoginFailed"
as_str_name force_update = "ProgramStatusType_ForceUpdate"
as_str_name nessary_data_preparing = "ProgramStatusType_NessaryDataPreparing"
as_str_name nessary_data_missing = "ProgramStatusType_NessaryDataMissing"
as_str_name un_agree_disclaimer = "ProgramStatusType_UnAgreeDisclaimer"
as_str_name ready = "ProgramStatusType_Ready"
as_str_name force_logout = "ProgramStatusType_ForceLogout"
as_str_name disclaimer_pull_failed = "ProgramStatusType_DisclaimerPullFailed"

abbrev arms : List (String × ProgramStatusType)
arms =
    ("ProgramStatusType_None", program_status_type_none)
    ∷ ("ProgramStatusType_Loaded", loaded)
    ∷ ("ProgramStatusType_Loging", loging)
    ∷ ("ProgramStatusType_NeedPicVerifyCode", need_pic_verify_code)
    ∷ ("ProgramStatusType_NeedPhoneVerifyCode", need_phone_verify_code)
    ∷ ("ProgramStatusType_LoginFailed", login_failed)
    ∷ ("ProgramStatusType_ForceUpdate", force_update)
    ∷ ("ProgramStatusType_NessaryDataPreparing", nessary_data_preparing)
    ∷ ("ProgramStatusType_NessaryDataMissing", nessary_data_missing)
    ∷ ("ProgramStatusType_UnAgreeDisclaimer", un_agree_disclaimer)
    ∷ ("ProgramStatusType_Ready", ready)
    ∷ ("ProgramStatusType_ForceLogout", force_logout)
    ∷ ("ProgramStatusType_DisclaimerPullFailed", disclaimer_pull_failed)
    ∷ []

unfoldable pub from_str_name : String → Option ProgramStatusType
from_str_name value = match_name value arms

pub exact : Exact as_str_name from_str_name
unfolding Exact from_str_name match_name
exact = (
  λ a. elim a as (λ k. from_str_name (as_str_name k) ≡ some k) [
    | program_status_type_none ↦ refl
    | loaded ↦ refl
    | loging ↦ refl
    | need_pic_verify_code ↦ refl
    | need_phone_verify_code ↦ refl
    | login_failed ↦ refl
    | force_update ↦ refl
    | nessary_data_preparing ↦ refl
    | nessary_data_missing ↦ refl
    | un_agree_disclaimer ↦ refl
    | ready ↦ refl
    | force_logout ↦ refl
    | disclaimer_pull_failed ↦ refl
  ],
  match_name_sound as_str_name arms refl,
)
