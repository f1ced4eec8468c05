-- ===== src/Trade/Query.antt =====
-- crates/futu/src/trade/query.rs. `F` is the type of `f64`.
use nautilus_futu.Prelude.{ℕ, List, Option, Result, none, map, []}
use nautilus_futu.Prelude.Words.{ℤ}
use nautilus_futu.Prelude.Text.{Text}
use nautilus_futu.Generated.Trade.{
  TrdGetOrderListC2s, TrdGetOrderFillListC2s, TrdGetPositionListC2s, TrdGetFundsC2s,
  TrdGetHistoryOrderListC2s, TrdGetHistoryOrderFillListC2s, TrdGetMaxTrdQtysC2s,
  TrdGetMarginRatioC2s, TrdGetOrderFeeC2s,
}
use nautilus_futu.Generated.Common.{TrdFilterConditions, Response, to_security, filter_or_default}
use nautilus_futu.Request.{Requester, Wire, exchange}
use nautilus_futu.Trade.Account.{TradeError, trade_errors}

abbrev pub proto_trd_get_order_list : ℕ
proto_trd_get_order_list = 2201

abbrev pub proto_trd_get_order_fill_list : ℕ
proto_trd_get_order_fill_list = 2211

abbrev pub proto_trd_get_position_list : ℕ
proto_trd_get_position_list = 2102

abbrev pub proto_trd_get_funds : ℕ
proto_trd_get_funds = 2101

abbrev pub proto_trd_get_history_order_list : ℕ
proto_trd_get_history_order_list = 2221

abbrev pub proto_trd_get_history_order_fill_list : ℕ
proto_trd_get_history_order_fill_list = 2222

abbrev pub proto_trd_get_max_trd_qtys : ℕ
proto_trd_get_max_trd_qtys = 2111

abbrev pub proto_trd_get_margin_ratio : ℕ
proto_trd_get_margin_ratio = 2223

abbrev pub proto_trd_get_order_fee : ℕ
proto_trd_get_order_fee = 2225

module _ {σ : Type 0} (t : Requester σ) where
  unfoldable pub get_order_list :
      {S : Type 0}
      → Wire TrdGetOrderListC2s S
      → ℤ
      → ℕ
      → ℤ
      → Option TrdFilterConditions
      → σ
      → Result TradeError (Response S) × σ
  get_order_list w trd_env acc_id trd_market filter st =
      exchange t trade_errors w proto_trd_get_order_list
        (record {
          header = record { trd_env = trd_env; acc_id = acc_id; trd_market = trd_market };
          filter_conditions = filter;
          filter_status_list = [];
          refresh_cache = none;
        })
        st

  unfoldable pub get_order_fill_list :
      {S : Type 0}
      → Wire TrdGetOrderFillListC2s S
      → ℤ
      → ℕ
      → ℤ
      → Option TrdFilterConditions
      → σ
      → Result TradeError (Response S) × σ
  get_order_fill_list w trd_env acc_id trd_market filter st =
      exchange t trade_errors w proto_trd_get_order_fill_list
        (record {
          header = record { trd_env = trd_env; acc_id = acc_id; trd_market = trd_market };
          filter_conditions = filter;
          refresh_cache = none;
        })
        st

  unfoldable pub get_position_list :
      {F S : Type 0}
      → Wire (TrdGetPositionListC2s F) S
      → ℤ
      → ℕ
      → ℤ
      → Option TrdFilterConditions
      → σ
      → Result TradeError (Response S) × σ
  get_position_list w trd_env acc_id trd_market filter st =
      exchange t trade_errors w proto_trd_get_position_list
        (record {
          header = record { trd_env = trd_env; acc_id = acc_id; trd_market = trd_market };
          filter_conditions = filter;
          filter_pl_ratio_min = none;
          filter_pl_ratio_max = none;
          refresh_cache = none;
        })
        st

  unfoldable pub get_funds :
      {S : Type 0}
      → Wire TrdGetFundsC2s S
      → ℤ
      → ℕ
      → ℤ
      → Option ℤ
      → σ
      → Result TradeError (Response S) × σ
  get_funds w trd_env acc_id trd_market currency st =
      exchange t trade_errors w proto_trd_get_funds
        (record {
          header = record { trd_env = trd_env; acc_id = acc_id; trd_market = trd_market };
          refresh_cache = none;
          currency = currency;
        })
        st

  unfoldable pub get_history_order_list :
      {S : Type 0}
      → Wire TrdGetHistoryOrderListC2s S
      → ℤ
      → ℕ
      → ℤ
      → Option TrdFilterConditions
      → List ℤ
      → σ
      → Result TradeError (Response S) × σ
  get_history_order_list w trd_env acc_id trd_market filter filter_status_list st =
      exchange t trade_errors w proto_trd_get_history_order_list
        (record {
          header = record { trd_env = trd_env; acc_id = acc_id; trd_market = trd_market };
          filter_conditions = filter_or_default filter;
          filter_status_list = filter_status_list;
        })
        st

  unfoldable pub get_history_order_fill_list :
      {S : Type 0}
      → Wire TrdGetHistoryOrderFillListC2s S
      → ℤ
      → ℕ
      → ℤ
      → Option TrdFilterConditions
      → σ
      → Result TradeError (Response S) × σ
  get_history_order_fill_list w trd_env acc_id trd_market filter st =
      exchange t trade_errors w proto_trd_get_history_order_fill_list
        (record {
          header = record { trd_env = trd_env; acc_id = acc_id; trd_market = trd_market };
          filter_conditions = filter_or_default filter;
        })
        st

  unfoldable pub get_max_trd_qtys :
      {F S : Type 0}
      → Wire (TrdGetMaxTrdQtysC2s F) S
      → ℤ
      → ℕ
      → ℤ
      → ℤ
      → Text
      → F
      → Option ℤ
      → σ
      → Result TradeError (Response S) × σ
  get_max_trd_qtys w trd_env acc_id trd_market order_type code price sec_market st =
      exchange t trade_errors w proto_trd_get_max_trd_qtys
        (record {
          header = record { trd_env = trd_env; acc_id = acc_id; trd_market = trd_market };
          order_type = order_type;
          code = code;
          price = price;
          order_id = none;
          adjust_price = none;
          adjust_side_and_limit = none;
          sec_market = sec_market;
          order_id_ex = none;
        })
        st

  unfoldable pub get_margin_ratio :
      {S : Type 0}
      → Wire TrdGetMarginRatioC2s S
      → ℤ
      → ℕ
      → ℤ
      → List (ℤ × Text)
      → σ
      → Result TradeError (Response S) × σ
  get_margin_ratio w trd_env acc_id trd_market securities st =
      exchange t trade_errors w proto_trd_get_margin_ratio
        (record {
          header = record { trd_env = trd_env; acc_id = acc_id; trd_market = trd_market };
          security_list = map to_security securities;
        })
        st

  unfoldable pub get_order_fee :
      {S : Type 0}
      → Wire TrdGetOrderFeeC2s S
      → ℤ
      → ℕ
      → ℤ
      → List Text
      → σ
      → Result TradeError (Response S) × σ
  get_order_fee w trd_env acc_id trd_market order_id_ex_list st =
      exchange t trade_errors w proto_trd_get_order_fee
        (record {
          header = record { trd_env = trd_env; acc_id = acc_id; trd_market = trd_market };
          order_id_ex_list = order_id_ex_list;
        })
        st
