-- ===== src/Generated/Quote.antt =====
-- crates/futu/src/generated: what the quote requests carry.
use nautilus_futu.Prelude.{ℕ, List, Bool, Option}
use nautilus_futu.Prelude.Words.{ℤ}
use nautilus_futu.Prelude.Text.{Text}
use nautilus_futu.Generated.Common.{Security}

-- qot_sub.rs
pub record QotSubC2s : Type 0 where
  pub security_list : List Security
  pub sub_type_list : List ℤ
  pub is_sub_or_un_sub : Bool
  pub is_reg_or_un_reg_push : Option Bool
  pub reg_push_rehab_type_list : List ℤ
  pub is_first_push : Option Bool
  pub is_unsub_all : Option Bool
  pub is_sub_order_book_detail : Option Bool
  pub extended_time : Option Bool
  pub session : Option ℤ

-- qot_reg_qot_push.rs
pub record QotRegQotPushC2s : Type 0 where
  pub security_list : List Security
  pub sub_type_list : List ℤ
  pub rehab_type_list : List ℤ
  pub is_reg_or_un_reg : Bool
  pub is_first_push : Option Bool

-- qot_get_kl.rs
pub record QotGetKlC2s : Type 0 where
  pub rehab_type : ℤ
  pub kl_type : ℤ
  pub security : Security
  pub req_num : ℤ

-- qot_get_history_kl.rs
pub record QotGetHistoryKlC2s : Type 0 where
  pub rehab_type : ℤ
  pub kl_type : ℤ
  pub security : Security
  pub begin_time : Text
  pub end_time : Text
  pub max_ack_kl_num : Option ℤ
  pub need_kl_fields_flag : Option ℤ
  pub next_req_key : Option (List ℕ)

-- qot_get_basic_qot.rs
pub record QotGetBasicQotC2s : Type 0 where
  pub security_list : List Security

-- qot_get_static_info.rs
pub record QotGetStaticInfoC2s : Type 0 where
  pub market : Option ℤ
  pub sec_type : Option ℤ
  pub security_list : List Security

-- qot_get_security_snapshot.rs
pub record QotGetSecuritySnapshotC2s : Type 0 where
  pub security_list : List Security

-- qot_get_order_book.rs
pub record QotGetOrderBookC2s : Type 0 where
  pub security : Security
  pub num : ℤ

-- qot_get_ticker.rs
pub record QotGetTickerC2s : Type 0 where
  pub security : Security
  pub max_ret_num : ℤ

-- qot_get_plate_security.rs
pub record QotGetPlateSecurityC2s : Type 0 where
  pub plate : Security
  pub sort_field : Option ℤ
  pub ascend : Option Bool

-- qot_get_sub_info.rs
pub record QotGetSubInfoC2s : Type 0 where
  pub is_req_all_conn : Option Bool

-- qot_get_rt.rs
pub record QotGetRtC2s : Type 0 where
  pub security : Security

-- qot_get_broker.rs
pub record QotGetBrokerC2s : Type 0 where
  pub security : Security

-- qot_get_rehab.rs
pub record QotGetRehabC2s : Type 0 where
  pub security_list : List Security

-- qot_get_suspend.rs
pub record QotGetSuspendC2s : Type 0 where
  pub security_list : List Security
  pub begin_time : Text
  pub end_time : Text

-- qot_get_plate_set.rs
pub record QotGetPlateSetC2s : Type 0 where
  pub market : ℤ
  pub plate_set_type : ℤ

-- qot_get_reference.rs
pub record QotGetReferenceC2s : Type 0 where
  pub security : Security
  pub reference_type : ℤ

-- qot_get_owner_plate.rs
pub record QotGetOwnerPlateC2s : Type 0 where
  pub security_list : List Security

-- qot_get_capital_flow.rs
pub record QotGetCapitalFlowC2s : Type 0 where
  pub security : Security
  pub period_type : Option ℤ
  pub begin_time : Option Text
  pub end_time : Option Text

-- qot_get_capital_distribution.rs
pub record QotGetCapitalDistributionC2s : Type 0 where
  pub security : Security

-- qot_get_user_security.rs
pub record QotGetUserSecurityC2s : Type 0 where
  pub group_name : Text

-- qot_modify_user_security.rs
pub record QotModifyUserSecurityC2s : Type 0 where
  pub group_name : Text
  pub op : ℤ
  pub security_list : List Security

-- qot_get_code_change.rs
pub record TimeFilter : Type 0 where
  pub type : ℤ
  pub begin_time : Option Text
  pub end_time : Option Text

-- qot_get_code_change.rs
pub record QotGetCodeChangeC2s : Type 0 where
  pub place_holder : Option ℤ
  pub security_list : List Security
  pub time_filter_list : List TimeFilter
  pub type_list : List ℤ

-- qot_get_ipo_list.rs
pub record QotGetIpoListC2s : Type 0 where
  pub market : ℤ

-- qot_get_future_info.rs
pub record QotGetFutureInfoC2s : Type 0 where
  pub security_list : List Security

-- qot_request_trade_date.rs
pub record QotRequestTradeDateC2s : Type 0 where
  pub market : ℤ
  pub begin_time : Text
  pub end_time : Text
  pub security : Option Security

-- qot_get_option_expiration_date.rs
pub record QotGetOptionExpirationDateC2s : Type 0 where
  pub owner : Security
  pub index_option_type : Option ℤ

-- get_global_state.rs
pub record GetGlobalStateC2s : Type 0 where
  pub user_id : ℕ
