-- ===== src/Generated/Answer/Events.antt =====
-- crates/futu/src/generated: the answers on corporate events, capital and dates, and the global
-- state. `F` is the type of `f64`.
use nautilus_futu.Prelude.{Bool, Option, List}
use nautilus_futu.Prelude.Words.{ℤ}
use nautilus_futu.Prelude.Text.{Text}
use nautilus_futu.Generated.Common.{Security}
use nautilus_futu.Generated.Answer.Market.{Rehab}

-- qot_get_rehab.rs
pub record SecurityRehab (F : Type 0) : Type 0 where
  pub security : Security
  pub rehab_list : List (Rehab F)

-- qot_get_rehab.rs
pub record QotGetRehabS2c (F : Type 0) : Type 0 where
  pub security_rehab_list : List (SecurityRehab F)

-- qot_get_suspend.rs
pub record Suspend (F : Type 0) : Type 0 where
  pub time : Text
  pub timestamp : Option F

-- qot_get_suspend.rs
pub record SecuritySuspend (F : Type 0) : Type 0 where
  pub security : Security
  pub suspend_list : List (Suspend F)

-- qot_get_suspend.rs
pub record QotGetSuspendS2c (F : Type 0) : Type 0 where
  pub security_suspend_list : List (SecuritySuspend F)

-- qot_get_capital_flow.rs
pub record CapitalFlowItem (F : Type 0) : Type 0 where
  pub in_flow : F
  pub time : Option Text
  pub timestamp : Option F
  pub main_in_flow : Option F
  pub super_in_flow : Option F
  pub big_in_flow : Option F
  pub mid_in_flow : Option F
  pub sml_in_flow : Option F

-- qot_get_capital_flow.rs
pub record QotGetCapitalFlowS2c (F : Type 0) : Type 0 where
  pub flow_item_list : List (CapitalFlowItem F)
  pub last_valid_time : Option Text
  pub last_valid_timestamp : Option F

-- qot_get_capital_distribution.rs
pub record QotGetCapitalDistributionS2c (F : Type 0) : Type 0 where
  pub capital_in_big : F
  pub capital_in_mid : F
  pub capital_in_small : F
  pub capital_out_big : F
  pub capital_out_mid : F
  pub capital_out_small : F
  pub update_time : Option Text
  pub update_timestamp : Option F
  pub capital_in_super : Option F
  pub capital_out_super : Option F

-- qot_get_code_change.rs
pub record CodeChangeInfo (F : Type 0) : Type 0 where
  pub type : ℤ
  pub security : Security
  pub related_security : Security
  pub public_time : Option Text
  pub public_timestamp : Option F
  pub effective_time : Option Text
  pub effective_timestamp : Option F
  pub end_time : Option Text
  pub end_timestamp : Option F

-- qot_get_code_change.rs
pub record QotGetCodeChangeS2c (F : Type 0) : Type 0 where
  pub code_change_list : List (CodeChangeInfo F)

-- qot_get_ipo_list.rs
pub record BasicIpoData (F : Type 0) : Type 0 where
  pub security : Security
  pub name : Text
  pub list_time : Option Text
  pub list_timestamp : Option F

-- qot_get_ipo_list.rs
pub record WinningNumData : Type 0 where
  pub winning_name : Text
  pub winning_info : Text

-- qot_get_ipo_list.rs
pub record CnIpoExData (F : Type 0) : Type 0 where
  pub apply_code : Text
  pub issue_size : ℤ
  pub online_issue_size : ℤ
  pub apply_upper_limit : ℤ
  pub apply_limit_market_value : ℤ
  pub is_estimate_ipo_price : Bool
  pub ipo_price : F
  pub industry_pe_rate : F
  pub is_estimate_winning_ratio : Bool
  pub winning_ratio : F
  pub issue_pe_rate : F
  pub apply_time : Option Text
  pub apply_timestamp : Option F
  pub winning_time : Option Text
  pub winning_timestamp : Option F
  pub is_has_won : Bool
  pub winning_num_data : List WinningNumData

-- qot_get_ipo_list.rs
pub record HkIpoExData (F : Type 0) : Type 0 where
  pub ipo_price_min : F
  pub ipo_price_max : F
  pub list_price : F
  pub lot_size : ℤ
  pub entrance_price : F
  pub is_subscribe_status : Bool
  pub apply_end_time : Option Text
  pub apply_end_timestamp : Option F

-- qot_get_ipo_list.rs
pub record UsIpoExData (F : Type 0) : Type 0 where
  pub ipo_price_min : F
  pub ipo_price_max : F
  pub issue_size : ℤ

-- qot_get_ipo_list.rs
pub record IpoData (F : Type 0) : Type 0 where
  pub basic : BasicIpoData F
  pub cn_ex_data : Option (CnIpoExData F)
  pub hk_ex_data : Option (HkIpoExData F)
  pub us_ex_data : Option (UsIpoExData F)

-- qot_get_ipo_list.rs
pub record QotGetIpoListS2c (F : Type 0) : Type 0 where
  pub ipo_list : List (IpoData F)

-- qot_request_trade_date.rs
pub record TradeDate (F : Type 0) : Type 0 where
  pub time : Text
  pub timestamp : Option F
  pub trade_date_type : Option ℤ

-- qot_request_trade_date.rs
pub record QotRequestTradeDateS2c (F : Type 0) : Type 0 where
  pub trade_date_list : List (TradeDate F)

-- get_global_state.rs
pub record GetGlobalStateS2c (F : Type 0) : Type 0 where
  pub market_hk : ℤ
  pub market_us : ℤ
  pub market_sh : ℤ
  pub market_sz : ℤ
  pub market_hk_future : ℤ
  pub qot_logined : Bool
  pub trd_logined : Bool
  pub server_ver : ℤ
  pub server_build_no : ℤ
  pub time : ℤ
  pub local_time : Option F
  pub market_us_future : Option ℤ
  pub market_sg_future : Option ℤ
  pub market_jp_future : Option ℤ
