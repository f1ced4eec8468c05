-- ===== src/Quote/Snapshot/Lists.antt =====
-- crates/futu/src/quote/snapshot.rs, from `get_capital_flow` to the end.
use mathlib.Core.Option
use nautilus_futu.Prelude.{ℕ, List, Option, Result, none, map, []}
use nautilus_futu.Prelude.Words.{ℤ}
use nautilus_futu.Prelude.Text.{Text}
use nautilus_futu.Generated.Quote.{
  QotGetCapitalFlowC2s, QotGetCapitalDistributionC2s, QotGetUserSecurityC2s,
  QotModifyUserSecurityC2s, QotGetCodeChangeC2s, QotGetIpoListC2s, QotGetFutureInfoC2s,
  QotRequestTradeDateC2s, QotGetOptionExpirationDateC2s,
}
use nautilus_futu.Generated.Common.{Response, to_security}
use nautilus_futu.Request.{Requester, Wire, exchange}
use nautilus_futu.Quote.Subscribe.{QuoteError, quote_errors}

abbrev pub proto_qot_get_capital_flow : ℕ
proto_qot_get_capital_flow = 3211

abbrev pub proto_qot_get_capital_distribution : ℕ
proto_qot_get_capital_distribution = 3212

abbrev pub proto_qot_get_user_security : ℕ
proto_qot_get_user_security = 3213

abbrev pub proto_qot_modify_user_security : ℕ
proto_qot_modify_user_security = 3214

abbrev pub proto_qot_get_code_change : ℕ
proto_qot_get_code_change = 3216

abbrev pub proto_qot_get_ipo_list : ℕ
proto_qot_get_ipo_list = 3217

abbrev pub proto_qot_get_future_info : ℕ
proto_qot_get_future_info = 3218

abbrev pub proto_qot_request_trade_date : ℕ
proto_qot_request_trade_date = 3219

abbrev pub proto_qot_get_option_expiration_date : ℕ
proto_qot_get_option_expiration_date = 3224

module _ {σ : Type 0} (t : Requester σ) where
  unfoldable pub get_capital_flow :
      {S : Type 0}
      → Wire QotGetCapitalFlowC2s S
      → ℤ
      → Text
      → Option ℤ
      → σ
      → Result QuoteError (Response S) × σ
  get_capital_flow w market code period_type st =
      exchange t quote_errors w proto_qot_get_capital_flow
        (record {
          security = record { market = market; code = code };
          period_type = period_type;
          begin_time = none;
          end_time = none;
        })
        st

  unfoldable pub get_capital_distribution :
      {S : Type 0}
      → Wire QotGetCapitalDistributionC2s S
      → ℤ
      → Text
      → σ
      → Result QuoteError (Response S) × σ
  get_capital_distribution w market code st =
      exchange t quote_errors w proto_qot_get_capital_distribution
        (record { security = record { market = market; code = code } }) st

  unfoldable pub get_user_security :
      {S : Type 0} → Wire QotGetUserSecurityC2s S → Text → σ → Result QuoteError (Response S) × σ
  get_user_security w group_name st =
      exchange t quote_errors w proto_qot_get_user_security (record { group_name = group_name }) st

  unfoldable pub modify_user_security :
      {S : Type 0}
      → Wire QotModifyUserSecurityC2s S
      → Text
      → ℤ
      → List (ℤ × Text)
      → σ
      → Result QuoteError (Response S) × σ
  modify_user_security w group_name op securities st =
      exchange t quote_errors w proto_qot_modify_user_security
        (record { group_name = group_name; op = op; security_list = map to_security securities }) st

  unfoldable pub get_code_change :
      {S : Type 0}
      → Wire QotGetCodeChangeC2s S
      → List (ℤ × Text)
      → List ℤ
      → σ
      → Result QuoteError (Response S) × σ
  get_code_change w securities type_list st =
      exchange t quote_errors w proto_qot_get_code_change
        (record {
          place_holder = none;
          security_list = map to_security securities;
          time_filter_list = [];
          type_list = type_list;
        })
        st

  unfoldable pub get_ipo_list :
      {S : Type 0} → Wire QotGetIpoListC2s S → ℤ → σ → Result QuoteError (Response S) × σ
  get_ipo_list w market st =
      exchange t quote_errors w proto_qot_get_ipo_list (record { market = market }) st

  unfoldable pub get_future_info :
      {S : Type 0}
      → Wire QotGetFutureInfoC2s S
      → List (ℤ × Text)
      → σ
      → Result QuoteError (Response S) × σ
  get_future_info w securities st =
      exchange t quote_errors w proto_qot_get_future_info
        (record { security_list = map to_security securities }) st

  unfoldable pub request_trade_date :
      {S : Type 0}
      → Wire QotRequestTradeDateC2s S
      → ℤ
      → Text
      → Text
      → Option (ℤ × Text)
      → σ
      → Result QuoteError (Response S) × σ
  request_trade_date w market begin_time end_time security st =
      exchange t quote_errors w proto_qot_request_trade_date
        (record {
          market = market;
          begin_time = begin_time;
          end_time = end_time;
          security = Option.map to_security security;
        })
        st

  unfoldable pub get_option_expiration_date :
      {S : Type 0}
      → Wire QotGetOptionExpirationDateC2s S
      → ℤ
      → Text
      → Option ℤ
      → σ
      → Result QuoteError (Response S) × σ
  get_option_expiration_date w owner_market owner_code index_option_type st =
      exchange t quote_errors w proto_qot_get_option_expiration_date
        (record {
          owner = record { market = owner_market; code = owner_code };
          index_option_type = index_option_type;
        })
        st
