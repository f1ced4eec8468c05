-- ===== src/Generated/Answer/Push.antt =====
-- crates/futu/src/generated: what pushes carry. `F` is the type of `f64`.
use nautilus_futu.Prelude.{Option, List}
use nautilus_futu.Prelude.Words.{ℤ}
use nautilus_futu.Prelude.Text.{Text}
use nautilus_futu.Generated.Common.{TrdHeader, Security}
use nautilus_futu.Generated.Answer.Market.{BasicQot, Ticker, OrderBook, KLine}
use nautilus_futu.Generated.Answer.Account.{Order, OrderFill}

-- qot_update_basic_qot.rs
pub record QotUpdateBasicQotS2c (F : Type 0) : Type 0 where
  pub basic_qot_list : List (BasicQot F)

-- qot_update_ticker.rs
pub record QotUpdateTickerS2c (F : Type 0) : Type 0 where
  pub security : Security
  pub name : Option Text
  pub ticker_list : List (Ticker F)

-- qot_update_order_book.rs
pub record QotUpdateOrderBookS2c (F : Type 0) : Type 0 where
  pub security : Security
  pub name : Option Text
  pub order_book_ask_list : List (OrderBook F)
  pub order_book_bid_list : List (OrderBook F)
  pub svr_recv_time_bid : Option Text
  pub svr_recv_time_bid_timestamp : Option F
  pub svr_recv_time_ask : Option Text
  pub svr_recv_time_ask_timestamp : Option F

-- qot_update_kl.rs
pub record QotUpdateKlS2c (F : Type 0) : Type 0 where
  pub rehab_type : ℤ
  pub kl_type : ℤ
  pub security : Security
  pub name : Option Text
  pub kl_list : List (KLine F)

-- trd_update_order.rs
pub record TrdUpdateOrderS2c (F : Type 0) : Type 0 where
  pub header : TrdHeader
  pub order : Order F

-- trd_update_order_fill.rs
pub record TrdUpdateOrderFillS2c (F : Type 0) : Type 0 where
  pub header : TrdHeader
  pub order_fill : OrderFill F
