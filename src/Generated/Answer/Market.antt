-- ===== src/Generated/Answer/Market.antt =====
-- crates/futu/src/generated: what several answers about quotes share. `F` is the type of `f64`.
use nautilus_futu.Prelude.{Bool, Option, List}
use nautilus_futu.Prelude.Words.{ℤ}
use nautilus_futu.Prelude.Text.{Text}
use nautilus_futu.Generated.Common.{Security}

-- qot_common.rs
pub record OptionBasicQotExData (F : Type 0) : Type 0 where
  pub strike_price : F
  pub contract_size : ℤ
  pub contract_size_float : Option F
  pub open_interest : ℤ
  pub implied_volatility : F
  pub premium : F
  pub delta : F
  pub gamma : F
  pub vega : F
  pub theta : F
  pub rho : F
  pub net_open_interest : Option ℤ
  pub expiry_date_distance : Option ℤ
  pub contract_nominal_value : Option F
  pub owner_lot_multiplier : Option F
  pub option_area_type : Option ℤ
  pub contract_multiplier : Option F
  pub index_option_type : Option ℤ

-- qot_common.rs
pub record PreAfterMarketData (F : Type 0) : Type 0 where
  pub price : Option F
  pub high_price : Option F
  pub low_price : Option F
  pub volume : Option ℤ
  pub turnover : Option F
  pub change_val : Option F
  pub change_rate : Option F
  pub amplitude : Option F

-- qot_common.rs
pub record FutureBasicQotExData (F : Type 0) : Type 0 where
  pub last_settle_price : F
  pub position : ℤ
  pub position_change : ℤ
  pub expiry_date_distance : Option ℤ

-- qot_common.rs
pub record WarrantBasicQotExData (F : Type 0) : Type 0 where
  pub delta : Option F
  pub implied_volatility : Option F
  pub premium : F

-- qot_common.rs
pub record BasicQot (F : Type 0) : Type 0 where
  pub security : Security
  pub name : Option Text
  pub is_suspended : Bool
  pub list_time : Text
  pub price_spread : F
  pub update_time : Text
  pub high_price : F
  pub open_price : F
  pub low_price : F
  pub cur_price : F
  pub last_close_price : F
  pub volume : ℤ
  pub turnover : F
  pub turnover_rate : F
  pub amplitude : F
  pub dark_status : Option ℤ
  pub option_ex_data : Option (OptionBasicQotExData F)
  pub list_timestamp : Option F
  pub update_timestamp : Option F
  pub pre_market : Option (PreAfterMarketData F)
  pub after_market : Option (PreAfterMarketData F)
  pub sec_status : Option ℤ
  pub future_ex_data : Option (FutureBasicQotExData F)
  pub warrant_ex_data : Option (WarrantBasicQotExData F)
  pub overnight : Option (PreAfterMarketData F)

-- qot_common.rs
pub record Ticker (F : Type 0) : Type 0 where
  pub time : Text
  pub sequence : ℤ
  pub dir : ℤ
  pub price : F
  pub volume : ℤ
  pub turnover : F
  pub recv_time : Option F
  pub type : Option ℤ
  pub type_sign : Option ℤ
  pub push_data_type : Option ℤ
  pub timestamp : Option F

-- qot_common.rs
pub record OrderBookDetail : Type 0 where
  pub order_id : ℤ
  pub volume : ℤ

-- qot_common.rs
pub record OrderBook (F : Type 0) : Type 0 where
  pub price : F
  pub volume : ℤ
  pub order_count : ℤ
  pub detail_list : List OrderBookDetail

-- qot_common.rs
pub record KLine (F : Type 0) : Type 0 where
  pub time : Text
  pub is_blank : Bool
  pub high_price : Option F
  pub open_price : Option F
  pub low_price : Option F
  pub close_price : Option F
  pub last_close_price : Option F
  pub volume : Option ℤ
  pub turnover : Option F
  pub turnover_rate : Option F
  pub pe : Option F
  pub change_rate : Option F
  pub timestamp : Option F

-- qot_common.rs
pub record SecurityStaticBasic (F : Type 0) : Type 0 where
  pub security : Security
  pub id : ℤ
  pub lot_size : ℤ
  pub sec_type : ℤ
  pub name : Text
  pub list_time : Text
  pub delisting : Option Bool
  pub list_timestamp : Option F
  pub exch_type : Option ℤ

-- qot_common.rs
pub record WarrantStaticExData : Type 0 where
  pub type : ℤ
  pub owner : Security

-- qot_common.rs
pub record OptionStaticExData (F : Type 0) : Type 0 where
  pub type : ℤ
  pub owner : Security
  pub strike_time : Text
  pub strike_price : F
  pub suspend : Bool
  pub market : Text
  pub strike_timestamp : Option F
  pub index_option_type : Option ℤ
  pub expiration_cycle : Option ℤ
  pub option_standard_type : Option ℤ
  pub option_settlement_mode : Option ℤ

-- qot_common.rs
pub record FutureStaticExData (F : Type 0) : Type 0 where
  pub last_trade_time : Text
  pub last_trade_timestamp : Option F
  pub is_main_contract : Bool

-- qot_common.rs
pub record SecurityStaticInfo (F : Type 0) : Type 0 where
  pub basic : SecurityStaticBasic F
  pub warrant_ex_data : Option WarrantStaticExData
  pub option_ex_data : Option (OptionStaticExData F)
  pub future_ex_data : Option (FutureStaticExData F)

-- qot_common.rs
pub record SubInfo : Type 0 where
  pub sub_type : ℤ
  pub security_list : List Security

-- qot_common.rs
pub record ConnSubInfo : Type 0 where
  pub sub_info_list : List SubInfo
  pub used_quota : ℤ
  pub is_own_conn_data : Bool

-- qot_common.rs
pub record TimeShare (F : Type 0) : Type 0 where
  pub time : Text
  pub minute : ℤ
  pub is_blank : Bool
  pub price : Option F
  pub last_close_price : Option F
  pub avg_price : Option F
  pub volume : Option ℤ
  pub turnover : Option F
  pub timestamp : Option F

-- qot_common.rs
pub record Broker : Type 0 where
  pub id : ℤ
  pub name : Text
  pub pos : ℤ
  pub order_id : Option ℤ
  pub volume : Option ℤ

-- qot_common.rs
pub record Rehab (F : Type 0) : Type 0 where
  pub time : Text
  pub company_act_flag : ℤ
  pub fwd_factor_a : F
  pub fwd_factor_b : F
  pub bwd_factor_a : F
  pub bwd_factor_b : F
  pub split_base : Option ℤ
  pub split_ert : Option ℤ
  pub join_base : Option ℤ
  pub join_ert : Option ℤ
  pub bonus_base : Option ℤ
  pub bonus_ert : Option ℤ
  pub transfer_base : Option ℤ
  pub transfer_ert : Option ℤ
  pub allot_base : Option ℤ
  pub allot_ert : Option ℤ
  pub allot_price : Option F
  pub add_base : Option ℤ
  pub add_ert : Option ℤ
  pub add_price : Option F
  pub dividend : Option F
  pub sp_dividend : Option F
  pub timestamp : Option F

-- qot_common.rs
pub record PlateInfo : Type 0 where
  pub plate : Security
  pub name : Text
  pub plate_type : Option ℤ
