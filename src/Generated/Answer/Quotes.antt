-- ===== src/Generated/Answer/Quotes.antt =====
-- crates/futu/src/generated: the answers to the other quote requests. `F` is the type of `f64`.
use nautilus_futu.Prelude.{ℕ, Bool, Option, List}
use nautilus_futu.Prelude.Words.{ℤ}
use nautilus_futu.Prelude.Text.{Text}
use nautilus_futu.Generated.Common.{Security}
use nautilus_futu.Generated.Answer.Market.{
  BasicQot, Ticker, OrderBook, KLine, SecurityStaticInfo, ConnSubInfo, TimeShare, Broker, PlateInfo,
}

-- qot_get_static_info.rs
pub record QotGetStaticInfoS2c (F : Type 0) : Type 0 where
  pub static_info_list : List (SecurityStaticInfo F)

-- qot_get_order_book.rs
pub record QotGetOrderBookS2c (F : Type 0) : Type 0 where
  pub security : Security
  pub name : Option Text
  pub order_book_ask_list : List (OrderBook F)
  pub order_book_bid_list : List (OrderBook F)
  pub svr_recv_time_bid : Option Text
  pub svr_recv_time_bid_timestamp : Option F
  pub svr_recv_time_ask : Option Text
  pub svr_recv_time_ask_timestamp : Option F

-- qot_get_ticker.rs
pub record QotGetTickerS2c (F : Type 0) : Type 0 where
  pub security : Security
  pub name : Option Text
  pub ticker_list : List (Ticker F)

-- qot_get_basic_qot.rs
pub record QotGetBasicQotS2c (F : Type 0) : Type 0 where
  pub basic_qot_list : List (BasicQot F)

-- qot_get_history_kl.rs
pub record QotGetHistoryKlS2c (F : Type 0) : Type 0 where
  pub security : Security
  pub kl_list : List (KLine F)
  pub next_req_key : Option (List ℕ)

-- qot_stock_filter.rs
pub record BaseData (F : Type 0) : Type 0 where
  pub field_name : ℤ
  pub value : F

-- qot_stock_filter.rs
pub record AccumulateData (F : Type 0) : Type 0 where
  pub field_name : ℤ
  pub value : F
  pub days : ℤ

-- qot_stock_filter.rs
pub record FinancialData (F : Type 0) : Type 0 where
  pub field_name : ℤ
  pub value : F
  pub quarter : ℤ

-- qot_stock_filter.rs
pub record StockData (F : Type 0) : Type 0 where
  pub security : Security
  pub name : Text
  pub base_data_list : List (BaseData F)
  pub accumulate_data_list : List (AccumulateData F)
  pub financial_data_list : List (FinancialData F)

-- qot_stock_filter.rs
pub record QotStockFilterS2c (F : Type 0) : Type 0 where
  pub last_page : Bool
  pub all_count : ℤ
  pub data_list : List (StockData F)

-- qot_get_plate_security.rs
pub record QotGetPlateSecurityS2c (F : Type 0) : Type 0 where
  pub static_info_list : List (SecurityStaticInfo F)

-- qot_get_sub_info.rs
pub record QotGetSubInfoS2c : Type 0 where
  pub conn_sub_info_list : List ConnSubInfo
  pub total_used_quota : ℤ
  pub remain_quota : ℤ

-- qot_get_rt.rs
pub record QotGetRtS2c (F : Type 0) : Type 0 where
  pub security : Security
  pub rt_list : List (TimeShare F)
  pub name : Option Text

-- qot_get_broker.rs
pub record QotGetBrokerS2c : Type 0 where
  pub security : Security
  pub broker_ask_list : List Broker
  pub broker_bid_list : List Broker
  pub name : Option Text

-- qot_get_plate_set.rs
pub record QotGetPlateSetS2c : Type 0 where
  pub plate_info_list : List PlateInfo

-- qot_get_reference.rs
pub record QotGetReferenceS2c (F : Type 0) : Type 0 where
  pub static_info_list : List (SecurityStaticInfo F)

-- qot_get_owner_plate.rs
pub record SecurityOwnerPlate : Type 0 where
  pub security : Security
  pub plate_info_list : List PlateInfo
  pub name : Option Text

-- qot_get_owner_plate.rs
pub record QotGetOwnerPlateS2c : Type 0 where
  pub owner_plate_list : List SecurityOwnerPlate

-- qot_get_user_security.rs
pub record QotGetUserSecurityS2c (F : Type 0) : Type 0 where
  pub static_info_list : List (SecurityStaticInfo F)
