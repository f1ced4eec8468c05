-- ===== src/Generated/Answer/Derivatives.antt =====
-- crates/futu/src/generated: the answers on options, warrants and futures. `F` is the type of
-- `f64`.
use nautilus_futu.Prelude.{Bool, Option, List}
use nautilus_futu.Prelude.Words.{ℤ}
use nautilus_futu.Prelude.Text.{Text}
use nautilus_futu.Generated.Common.{Security}
use nautilus_futu.Generated.Answer.Market.{SecurityStaticInfo}

-- qot_get_option_chain.rs
pub record OptionItem (F : Type 0) : Type 0 where
  pub call : Option (SecurityStaticInfo F)
  pub put : Option (SecurityStaticInfo F)

-- qot_get_option_chain.rs
pub record OptionChain (F : Type 0) : Type 0 where
  pub strike_time : Text
  pub option : List (OptionItem F)
  pub strike_timestamp : Option F

-- qot_get_option_chain.rs
pub record QotGetOptionChainS2c (F : Type 0) : Type 0 where
  pub option_chain : List (OptionChain F)

-- qot_get_warrant.rs
pub record WarrantData (F : Type 0) : Type 0 where
  pub stock : Security
  pub owner : Security
  pub type : ℤ
  pub issuer : ℤ
  pub maturity_time : Text
  pub maturity_timestamp : Option F
  pub list_time : Text
  pub list_timestamp : Option F
  pub last_trade_time : Text
  pub last_trade_timestamp : Option F
  pub recovery_price : Option F
  pub conversion_ratio : F
  pub lot_size : ℤ
  pub strike_price : F
  pub last_close_price : F
  pub name : Text
  pub cur_price : F
  pub price_change_val : F
  pub change_rate : F
  pub status : ℤ
  pub bid_price : F
  pub ask_price : F
  pub bid_vol : ℤ
  pub ask_vol : ℤ
  pub volume : ℤ
  pub turnover : F
  pub score : F
  pub premium : F
  pub break_even_point : F
  pub leverage : F
  pub ipop : F
  pub price_recovery_ratio : Option F
  pub conversion_price : F
  pub street_rate : F
  pub street_vol : ℤ
  pub amplitude : F
  pub issue_size : ℤ
  pub high_price : F
  pub low_price : F
  pub implied_volatility : Option F
  pub delta : Option F
  pub effective_leverage : F
  pub upper_strike_price : Option F
  pub lower_strike_price : Option F
  pub in_line_price_status : Option ℤ

-- qot_get_warrant.rs
pub record QotGetWarrantS2c (F : Type 0) : Type 0 where
  pub last_page : Bool
  pub all_count : ℤ
  pub warrant_data_list : List (WarrantData F)

-- qot_get_future_info.rs
pub record TradeTime (F : Type 0) : Type 0 where
  pub begin : Option F
  pub end : Option F

-- qot_get_future_info.rs
pub record FutureInfo (F : Type 0) : Type 0 where
  pub name : Text
  pub security : Security
  pub last_trade_time : Text
  pub last_trade_timestamp : Option F
  pub owner : Option Security
  pub owner_other : Text
  pub exchange : Text
  pub contract_type : Text
  pub contract_size : F
  pub contract_size_unit : Text
  pub quote_currency : Text
  pub min_var : F
  pub min_var_unit : Text
  pub quote_unit : Option Text
  pub trade_time : List (TradeTime F)
  pub time_zone : Text
  pub exchange_format_url : Text
  pub origin : Option Security

-- qot_get_future_info.rs
pub record QotGetFutureInfoS2c (F : Type 0) : Type 0 where
  pub future_info_list : List (FutureInfo F)

-- qot_get_option_expiration_date.rs
pub record OptionExpirationDate (F : Type 0) : Type 0 where
  pub strike_time : Option Text
  pub strike_timestamp : Option F
  pub option_expiry_date_distance : ℤ
  pub cycle : Option ℤ

-- qot_get_option_expiration_date.rs
pub record QotGetOptionExpirationDateS2c (F : Type 0) : Type 0 where
  pub date_list : List (OptionExpirationDate F)
