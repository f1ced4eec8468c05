-- ===== src/Generated/Screening.antt =====
-- crates/futu/src/generated: what the requests with filters carry. `F` is the type of `f64`.
use nautilus_futu.Prelude.{ℕ, List, Bool, Option}
use nautilus_futu.Prelude.Words.{ℤ}
use nautilus_futu.Prelude.Text.{Text}
use nautilus_futu.Generated.Common.{Security}

-- qot_stock_filter.rs
pub record BaseFilter (F : Type 0) : Type 0 where
  pub field_name : ℤ
  pub filter_min : Option F
  pub filter_max : Option F
  pub is_no_filter : Option Bool
  pub sort_dir : Option ℤ

-- qot_stock_filter.rs
pub record AccumulateFilter (F : Type 0) : Type 0 where
  pub field_name : ℤ
  pub filter_min : Option F
  pub filter_max : Option F
  pub is_no_filter : Option Bool
  pub sort_dir : Option ℤ
  pub days : ℤ

-- qot_stock_filter.rs
pub record FinancialFilter (F : Type 0) : Type 0 where
  pub field_name : ℤ
  pub filter_min : Option F
  pub filter_max : Option F
  pub is_no_filter : Option Bool
  pub sort_dir : Option ℤ
  pub quarter : ℤ

-- qot_stock_filter.rs
pub record QotStockFilterC2s (F : Type 0) : Type 0 where
  pub begin : ℤ
  pub num : ℤ
  pub market : ℤ
  pub plate : Option Security
  pub base_filter_list : List (BaseFilter F)
  pub accumulate_filter_list : List (AccumulateFilter F)
  pub financial_filter_list : List (FinancialFilter F)

-- qot_get_option_chain.rs
pub record DataFilter (F : Type 0) : Type 0 where
  pub implied_volatility_min : Option F
  pub implied_volatility_max : Option F
  pub delta_min : Option F
  pub delta_max : Option F
  pub gamma_min : Option F
  pub gamma_max : Option F
  pub vega_min : Option F
  pub vega_max : Option F
  pub theta_min : Option F
  pub theta_max : Option F
  pub rho_min : Option F
  pub rho_max : Option F
  pub net_open_interest_min : Option F
  pub net_open_interest_max : Option F
  pub open_interest_min : Option F
  pub open_interest_max : Option F
  pub vol_min : Option F
  pub vol_max : Option F

-- qot_get_option_chain.rs
pub record QotGetOptionChainC2s (F : Type 0) : Type 0 where
  pub owner : Security
  pub type : Option ℤ
  pub condition : Option ℤ
  pub begin_time : Text
  pub end_time : Text
  pub index_option_type : Option ℤ
  pub data_filter : Option (DataFilter F)

-- qot_get_warrant.rs
pub record QotGetWarrantC2s (F : Type 0) : Type 0 where
  pub begin : ℤ
  pub num : ℤ
  pub sort_field : ℤ
  pub ascend : Bool
  pub owner : Option Security
  pub type_list : List ℤ
  pub issuer_list : List ℤ
  pub maturity_time_min : Option Text
  pub maturity_time_max : Option Text
  pub ipo_period : Option ℤ
  pub price_type : Option ℤ
  pub status : Option ℤ
  pub cur_price_min : Option F
  pub cur_price_max : Option F
  pub strike_price_min : Option F
  pub strike_price_max : Option F
  pub street_min : Option F
  pub street_max : Option F
  pub conversion_min : Option F
  pub conversion_max : Option F
  pub vol_min : Option ℕ
  pub vol_max : Option ℕ
  pub premium_min : Option F
  pub premium_max : Option F
  pub leverage_ratio_min : Option F
  pub leverage_ratio_max : Option F
  pub delta_min : Option F
  pub delta_max : Option F
  pub implied_min : Option F
  pub implied_max : Option F
  pub recovery_price_min : Option F
  pub recovery_price_max : Option F
  pub price_recovery_ratio_min : Option F
  pub price_recovery_ratio_max : Option F
