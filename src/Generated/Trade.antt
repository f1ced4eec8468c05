-- ===== src/Generated/Trade.antt =====
-- crates/futu/src/generated: what the trade requests carry. `F` is the type of `f64`.
use nautilus_futu.Prelude.{ℕ, List, Bool, Option}
use nautilus_futu.Prelude.Words.{ℤ}
use nautilus_futu.Prelude.Text.{Text}
use nautilus_futu.Generated.Common.{PacketId, TrdHeader, TrdFilterConditions, Security}

-- trd_get_acc_list.rs
pub record TrdGetAccListC2s : Type 0 where
  pub user_id : ℕ
  pub trd_category : Option ℤ
  pub need_general_sec_account : Option Bool

-- trd_unlock_trade.rs
pub record TrdUnlockTradeC2s : Type 0 where
  pub unlock : Bool
  pub pwd_md5 : Option Text
  pub security_firm : Option ℤ

-- trd_place_order.rs
pub record TrdPlaceOrderC2s (F : Type 0) : Type 0 where
  pub packet_id : PacketId
  pub header : TrdHeader
  pub trd_side : ℤ
  pub order_type : ℤ
  pub code : Text
  pub qty : F
  pub price : Option F
  pub adjust_price : Option Bool
  pub adjust_side_and_limit : Option F
  pub sec_market : Option ℤ
  pub remark : Option Text
  pub time_in_force : Option ℤ
  pub fill_outside_rth : Option Bool
  pub aux_price : Option F
  pub trail_type : Option ℤ
  pub trail_value : Option F
  pub trail_spread : Option F
  pub session : Option ℤ

-- trd_modify_order.rs
pub record TrdModifyOrderC2s (F : Type 0) : Type 0 where
  pub packet_id : PacketId
  pub header : TrdHeader
  pub order_id : ℕ
  pub modify_order_op : ℤ
  pub for_all : Option Bool
  pub trd_market : Option ℤ
  pub qty : Option F
  pub price : Option F
  pub adjust_price : Option Bool
  pub adjust_side_and_limit : Option F
  pub aux_price : Option F
  pub trail_type : Option ℤ
  pub trail_value : Option F
  pub trail_spread : Option F
  pub order_id_ex : Option Text

-- trd_get_order_list.rs
pub record TrdGetOrderListC2s : Type 0 where
  pub header : TrdHeader
  pub filter_conditions : Option TrdFilterConditions
  pub filter_status_list : List ℤ
  pub refresh_cache : Option Bool

-- trd_get_order_fill_list.rs
pub record TrdGetOrderFillListC2s : Type 0 where
  pub header : TrdHeader
  pub filter_conditions : Option TrdFilterConditions
  pub refresh_cache : Option Bool

-- trd_get_position_list.rs
pub record TrdGetPositionListC2s (F : Type 0) : Type 0 where
  pub header : TrdHeader
  pub filter_conditions : Option TrdFilterConditions
  pub filter_pl_ratio_min : Option F
  pub filter_pl_ratio_max : Option F
  pub refresh_cache : Option Bool

-- trd_get_funds.rs
pub record TrdGetFundsC2s : Type 0 where
  pub header : TrdHeader
  pub refresh_cache : Option Bool
  pub currency : Option ℤ

-- trd_get_history_order_list.rs
pub record TrdGetHistoryOrderListC2s : Type 0 where
  pub header : TrdHeader
  pub filter_conditions : TrdFilterConditions
  pub filter_status_list : List ℤ

-- trd_get_history_order_fill_list.rs
pub record TrdGetHistoryOrderFillListC2s : Type 0 where
  pub header : TrdHeader
  pub filter_conditions : TrdFilterConditions

-- trd_get_max_trd_qtys.rs
pub record TrdGetMaxTrdQtysC2s (F : Type 0) : Type 0 where
  pub header : TrdHeader
  pub order_type : ℤ
  pub code : Text
  pub price : F
  pub order_id : Option ℕ
  pub adjust_price : Option Bool
  pub adjust_side_and_limit : Option F
  pub sec_market : Option ℤ
  pub order_id_ex : Option Text

-- trd_get_margin_ratio.rs
pub record TrdGetMarginRatioC2s : Type 0 where
  pub header : TrdHeader
  pub security_list : List Security

-- trd_get_order_fee.rs
pub record TrdGetOrderFeeC2s : Type 0 where
  pub header : TrdHeader
  pub order_id_ex_list : List Text

-- trd_sub_acc_push.rs
pub record TrdSubAccPushC2s : Type 0 where
  pub acc_id_list : List ℕ
