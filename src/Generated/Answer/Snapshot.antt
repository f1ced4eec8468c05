-- ===== src/Generated/Answer/Snapshot.antt =====
-- crates/futu/src/generated: the answer with security snapshots. `F` is the type of `f64`.
use nautilus_futu.Prelude.{Bool, Option, List}
use nautilus_futu.Prelude.Words.{ℤ}
use nautilus_futu.Prelude.Text.{Text}
use nautilus_futu.Generated.Common.{Security}
use nautilus_futu.Generated.Answer.Market.{PreAfterMarketData}

-- qot_get_security_snapshot.rs
pub record SnapshotBasicData (F : Type 0) : Type 0 where
  pub security : Security
  pub name : Option Text
  pub type : ℤ
  pub is_suspend : Bool
  pub list_time : Text
  pub lot_size : ℤ
  pub price_spread : F
  pub update_time : Text
  pub high_price : F
  pub open_price : F
  pub low_price : F
  pub last_close_price : F
  pub cur_price : F
  pub volume : ℤ
  pub turnover : F
  pub turnover_rate : F
  pub list_timestamp : Option F
  pub update_timestamp : Option F
  pub ask_price : Option F
  pub bid_price : Option F
  pub ask_vol : Option ℤ
  pub bid_vol : Option ℤ
  pub enable_margin : Option Bool
  pub mortgage_ratio : Option F
  pub long_margin_initial_ratio : Option F
  pub enable_short_sell : Option Bool
  pub short_sell_rate : Option F
  pub short_available_volume : Option ℤ
  pub short_margin_initial_ratio : Option F
  pub amplitude : Option F
  pub avg_price : Option F
  pub bid_ask_ratio : Option F
  pub volume_ratio : Option F
  pub highest52_weeks_price : Option F
  pub lowest52_weeks_price : Option F
  pub highest_history_price : Option F
  pub lowest_history_price : Option F
  pub pre_market : Option (PreAfterMarketData F)
  pub after_market : Option (PreAfterMarketData F)
  pub sec_status : Option ℤ
  pub close_price5_minute : Option F
  pub overnight : Option (PreAfterMarketData F)

-- qot_get_security_snapshot.rs
pub record EquitySnapshotExData (F : Type 0) : Type 0 where
  pub issued_shares : ℤ
  pub issued_market_val : F
  pub net_asset : F
  pub net_profit : F
  pub earnings_pershare : F
  pub outstanding_shares : ℤ
  pub outstanding_market_val : F
  pub net_asset_pershare : F
  pub ey_rate : F
  pub pe_rate : F
  pub pb_rate : F
  pub pe_ttm_rate : F
  pub dividend_ttm : Option F
  pub dividend_ratio_ttm : Option F
  pub dividend_lfy : Option F
  pub dividend_lfy_ratio : Option F

-- qot_get_security_snapshot.rs
pub record WarrantSnapshotExData (F : Type 0) : Type 0 where
  pub conversion_rate : F
  pub warrant_type : ℤ
  pub strike_price : F
  pub maturity_time : Text
  pub end_trade_time : Text
  pub owner : Security
  pub recovery_price : F
  pub street_volumn : ℤ
  pub issue_volumn : ℤ
  pub street_rate : F
  pub delta : F
  pub implied_volatility : F
  pub premium : F
  pub maturity_timestamp : Option F
  pub end_trade_timestamp : Option F
  pub leverage : Option F
  pub ipop : Option F
  pub break_even_point : Option F
  pub conversion_price : Option F
  pub price_recovery_ratio : Option F
  pub score : Option F
  pub upper_strike_price : Option F
  pub lower_strike_price : Option F
  pub in_line_price_status : Option ℤ
  pub issuer_code : Option Text

-- qot_get_security_snapshot.rs
pub record OptionSnapshotExData (F : Type 0) : Type 0 where
  pub type : ℤ
  pub owner : Security
  pub strike_time : Text
  pub strike_price : F
  pub contract_size : ℤ
  pub contract_size_float : Option F
  pub open_interest : ℤ
  pub implied_volatility : F
  pub premium : F
  pub delta : F
  pub gamma : F
  pub vega : F
  pub theta : F
  pub rho : F
  pub strike_timestamp : Option F
  pub index_option_type : Option ℤ
  pub net_open_interest : Option ℤ
  pub expiry_date_distance : Option ℤ
  pub contract_nominal_value : Option F
  pub owner_lot_multiplier : Option F
  pub option_area_type : Option ℤ
  pub contract_multiplier : Option F

-- qot_get_security_snapshot.rs
pub record IndexSnapshotExData : Type 0 where
  pub raise_count : ℤ
  pub fall_count : ℤ
  pub equal_count : ℤ

-- qot_get_security_snapshot.rs
pub record PlateSnapshotExData : Type 0 where
  pub raise_count : ℤ
  pub fall_count : ℤ
  pub equal_count : ℤ

-- qot_get_security_snapshot.rs
pub record FutureSnapshotExData (F : Type 0) : Type 0 where
  pub last_settle_price : F
  pub position : ℤ
  pub position_change : ℤ
  pub last_trade_time : Text
  pub last_trade_timestamp : Option F
  pub is_main_contract : Bool

-- qot_get_security_snapshot.rs
pub record TrustSnapshotExData (F : Type 0) : Type 0 where
  pub dividend_yield : F
  pub aum : F
  pub outstanding_units : ℤ
  pub net_asset_value : F
  pub premium : F
  pub asset_class : ℤ

-- qot_get_security_snapshot.rs
pub record Snapshot (F : Type 0) : Type 0 where
  pub basic : SnapshotBasicData F
  pub equity_ex_data : Option (EquitySnapshotExData F)
  pub warrant_ex_data : Option (WarrantSnapshotExData F)
  pub option_ex_data : Option (OptionSnapshotExData F)
  pub index_ex_data : Option IndexSnapshotExData
  pub plate_ex_data : Option PlateSnapshotExData
  pub future_ex_data : Option (FutureSnapshotExData F)
  pub trust_ex_data : Option (TrustSnapshotExData F)

-- qot_get_security_snapshot.rs
pub record QotGetSecuritySnapshotS2c (F : Type 0) : Type 0 where
  pub snapshot_list : List (Snapshot F)
