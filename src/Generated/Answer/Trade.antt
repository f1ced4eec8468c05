-- ===== src/Generated/Answer/Trade.antt =====
-- crates/futu/src/generated: the answers to the trade requests. `F` is the type of `f64`.
use nautilus_futu.Prelude.{ℕ, Bool, Option, List}
use nautilus_futu.Prelude.Text.{Text}
use nautilus_futu.Generated.Common.{TrdHeader, Security}
use nautilus_futu.Generated.Answer.Account.{
  Order, OrderFill, TrdAcc, Position, Funds, MaxTrdQtys, OrderFee,
}

-- trd_get_acc_list.rs
pub record TrdGetAccListS2c : Type 0 where
  pub acc_list : List TrdAcc

-- trd_place_order.rs
pub record TrdPlaceOrderS2c : Type 0 where
  pub header : TrdHeader
  pub order_id : Option ℕ
  pub order_id_ex : Option Text

-- trd_get_order_list.rs
pub record TrdGetOrderListS2c (F : Type 0) : Type 0 where
  pub header : TrdHeader
  pub order_list : List (Order F)

-- trd_get_order_fill_list.rs
pub record TrdGetOrderFillListS2c (F : Type 0) : Type 0 where
  pub header : TrdHeader
  pub order_fill_list : List (OrderFill F)

-- trd_get_position_list.rs
pub record TrdGetPositionListS2c (F : Type 0) : Type 0 where
  pub header : TrdHeader
  pub position_list : List (Position F)

-- trd_get_funds.rs
pub record TrdGetFundsS2c (F : Type 0) : Type 0 where
  pub header : TrdHeader
  pub funds : Option (Funds F)

-- trd_get_history_order_list.rs
pub record TrdGetHistoryOrderListS2c (F : Type 0) : Type 0 where
  pub header : TrdHeader
  pub order_list : List (Order F)

-- trd_get_history_order_fill_list.rs
pub record TrdGetHistoryOrderFillListS2c (F : Type 0) : Type 0 where
  pub header : TrdHeader
  pub order_fill_list : List (OrderFill F)

-- trd_get_max_trd_qtys.rs
pub record TrdGetMaxTrdQtysS2c (F : Type 0) : Type 0 where
  pub header : TrdHeader
  pub max_trd_qtys : Option (MaxTrdQtys F)

-- trd_get_margin_ratio.rs
pub record MarginRatioInfo (F : Type 0) : Type 0 where
  pub security : Security
  pub is_long_permit : Option Bool
  pub is_short_permit : Option Bool
  pub short_pool_remain : Option F
  pub short_fee_rate : Option F
  pub alert_long_ratio : Option F
  pub alert_short_ratio : Option F
  pub im_long_ratio : Option F
  pub im_short_ratio : Option F
  pub mcm_long_ratio : Option F
  pub mcm_short_ratio : Option F
  pub mm_long_ratio : Option F
  pub mm_short_ratio : Option F

-- trd_get_margin_ratio.rs
pub record TrdGetMarginRatioS2c (F : Type 0) : Type 0 where
  pub header : TrdHeader
  pub margin_ratio_info_list : List (MarginRatioInfo F)

-- trd_get_order_fee.rs
pub record TrdGetOrderFeeS2c (F : Type 0) : Type 0 where
  pub header : TrdHeader
  pub order_fee_list : List (OrderFee F)
