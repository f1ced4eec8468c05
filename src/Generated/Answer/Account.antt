-- ===== src/Generated/Answer/Account.antt =====
-- crates/futu/src/generated: what several answers about trade share. `F` is the type of `f64`.
use nautilus_futu.Prelude.{ℕ, Bool, Option, List}
use nautilus_futu.Prelude.Words.{ℤ}
use nautilus_futu.Prelude.Text.{Text}

-- trd_common.rs
pub record Order (F : Type 0) : Type 0 where
  pub trd_side : ℤ
  pub order_type : ℤ
  pub order_status : ℤ
  pub order_id : ℕ
  pub order_id_ex : Text
  pub code : Text
  pub name : Text
  pub qty : F
  pub price : Option F
  pub create_time : Text
  pub update_time : Text
  pub fill_qty : Option F
  pub fill_avg_price : Option F
  pub last_err_msg : Option Text
  pub sec_market : Option ℤ
  pub create_timestamp : Option F
  pub update_timestamp : Option F
  pub remark : Option Text
  pub time_in_force : Option ℤ
  pub fill_outside_rth : Option Bool
  pub aux_price : Option F
  pub trail_type : Option ℤ
  pub trail_value : Option F
  pub trail_spread : Option F
  pub currency : Option ℤ
  pub trd_market : Option ℤ
  pub session : Option ℤ

-- trd_common.rs
pub record OrderFill (F : Type 0) : Type 0 where
  pub trd_side : ℤ
  pub fill_id : ℕ
  pub fill_id_ex : Text
  pub order_id : Option ℕ
  pub order_id_ex : Option Text
  pub code : Text
  pub name : Text
  pub qty : F
  pub price : F
  pub create_time : Text
  pub counter_broker_id : Option ℤ
  pub counter_broker_name : Option Text
  pub sec_market : Option ℤ
  pub create_timestamp : Option F
  pub update_timestamp : Option F
  pub status : Option ℤ
  pub trd_market : Option ℤ

-- trd_common.rs
pub record TrdAcc : Type 0 where
  pub trd_env : ℤ
  pub acc_id : ℕ
  pub trd_market_auth_list : List ℤ
  pub acc_type : Option ℤ
  pub card_num : Option Text
  pub security_firm : Option ℤ
  pub sim_acc_type : Option ℤ
  pub uni_card_num : Option Text
  pub acc_status : Option ℤ

-- trd_common.rs
pub record Position (F : Type 0) : Type 0 where
  pub position_id : ℕ
  pub position_side : ℤ
  pub code : Text
  pub name : Text
  pub qty : F
  pub can_sell_qty : F
  pub price : F
  pub cost_price : Option F
  pub val : F
  pub pl_val : F
  pub pl_ratio : Option F
  pub sec_market : Option ℤ
  pub td_pl_val : Option F
  pub td_trd_val : Option F
  pub td_buy_val : Option F
  pub td_buy_qty : Option F
  pub td_sell_val : Option F
  pub td_sell_qty : Option F
  pub unrealized_pl : Option F
  pub realized_pl : Option F
  pub currency : Option ℤ
  pub trd_market : Option ℤ
  pub diluted_cost_price : Option F
  pub average_cost_price : Option F
  pub average_pl_ratio : Option F

-- trd_common.rs
pub record AccCashInfo (F : Type 0) : Type 0 where
  pub currency : Option ℤ
  pub cash : Option F
  pub available_balance : Option F
  pub net_cash_power : Option F

-- trd_common.rs
pub record AccMarketInfo (F : Type 0) : Type 0 where
  pub trd_market : Option ℤ
  pub assets : Option F

-- trd_common.rs
pub record Funds (F : Type 0) : Type 0 where
  pub power : F
  pub total_assets : F
  pub cash : F
  pub market_val : F
  pub frozen_cash : F
  pub debt_cash : F
  pub avl_withdrawal_cash : F
  pub currency : Option ℤ
  pub available_funds : Option F
  pub unrealized_pl : Option F
  pub realized_pl : Option F
  pub risk_level : Option ℤ
  pub initial_margin : Option F
  pub maintenance_margin : Option F
  pub cash_info_list : List (AccCashInfo F)
  pub max_power_short : Option F
  pub net_cash_power : Option F
  pub long_mv : Option F
  pub short_mv : Option F
  pub pending_asset : Option F
  pub max_withdrawal : Option F
  pub risk_status : Option ℤ
  pub margin_call_margin : Option F
  pub is_pdt : Option Bool
  pub pdt_seq : Option Text
  pub beginning_dtbp : Option F
  pub remaining_dtbp : Option F
  pub dt_call_amount : Option F
  pub dt_status : Option ℤ
  pub securities_assets : Option F
  pub fund_assets : Option F
  pub bond_assets : Option F
  pub market_info_list : List (AccMarketInfo F)

-- trd_common.rs
pub record MaxTrdQtys (F : Type 0) : Type 0 where
  pub max_cash_buy : F
  pub max_cash_and_margin_buy : Option F
  pub max_position_sell : F
  pub max_sell_short : Option F
  pub max_buy_back : Option F
  pub long_required_im : Option F
  pub short_required_im : Option F

-- trd_common.rs
pub record OrderFeeItem (F : Type 0) : Type 0 where
  pub title : Option Text
  pub value : Option F

-- trd_common.rs
pub record OrderFee (F : Type 0) : Type 0 where
  pub order_id_ex : Text
  pub fee_amount : Option F
  pub fee_list : List (OrderFeeItem F)
