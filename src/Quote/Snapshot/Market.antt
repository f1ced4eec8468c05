-- ===== src/Quote/Snapshot/Market.antt =====
-- crates/futu/src/quote/snapshot.rs, from `get_basic_qot` to `get_rt`. `F` is the type of `f64`.
use mathlib.Core.Option
use nautilus_futu.Prelude.{ℕ, List, Bool, Option, Result, none, map}
use nautilus_futu.Prelude.Words.{ℤ}
use nautilus_futu.Prelude.Text.{Text}
use nautilus_futu.Generated.Quote.{
  QotGetBasicQotC2s, QotGetStaticInfoC2s, QotGetSecuritySnapshotC2s, QotGetOrderBookC2s,
  QotGetTickerC2s, QotGetPlateSecurityC2s, QotGetSubInfoC2s, QotGetRtC2s,
}
use nautilus_futu.Generated.Screening.{
  BaseFilter, AccumulateFilter, FinancialFilter, QotStockFilterC2s,
}
use nautilus_futu.Generated.Common.{Response, to_security}
use nautilus_futu.Request.{Requester, Wire, exchange}
use nautilus_futu.Quote.Subscribe.{QuoteError, quote_errors}

abbrev pub proto_qot_get_basic_qot : ℕ
proto_qot_get_basic_qot = 3004

abbrev pub proto_qot_get_static_info : ℕ
proto_qot_get_static_info = 3202

abbrev pub proto_qot_get_security_snapshot : ℕ
proto_qot_get_security_snapshot = 3203

abbrev pub proto_qot_get_order_book : ℕ
proto_qot_get_order_book = 3012

abbrev pub proto_qot_get_ticker : ℕ
proto_qot_get_ticker = 3010

abbrev pub proto_qot_stock_filter : ℕ
proto_qot_stock_filter = 3215

abbrev pub proto_qot_get_plate_security : ℕ
proto_qot_get_plate_security = 3205

abbrev pub proto_qot_get_sub_info : ℕ
proto_qot_get_sub_info = 3003

abbrev pub proto_qot_get_rt : ℕ
proto_qot_get_rt = 3008

module _ {σ : Type 0} (t : Requester σ) where
  unfoldable pub get_basic_qot :
      {S : Type 0}
      → Wire QotGetBasicQotC2s S
      → List (ℤ × Text)
      → σ
      → Result QuoteError (Response S) × σ
  get_basic_qot w securities st =
      exchange t quote_errors w proto_qot_get_basic_qot
        (record { security_list = map to_security securities }) st

  unfoldable pub get_static_info :
      {S : Type 0}
      → Wire QotGetStaticInfoC2s S
      → List (ℤ × Text)
      → σ
      → Result QuoteError (Response S) × σ
  get_static_info w securities st =
      exchange t quote_errors w proto_qot_get_static_info
        (record { market = none; sec_type = none; security_list = map to_security securities }) st

  unfoldable pub get_security_snapshot :
      {S : Type 0}
      → Wire QotGetSecuritySnapshotC2s S
      → List (ℤ × Text)
      → σ
      → Result QuoteError (Response S) × σ
  get_security_snapshot w securities st =
      exchange t quote_errors w proto_qot_get_security_snapshot
        (record { security_list = map to_security securities }) st

  unfoldable pub get_order_book :
      {S : Type 0}
      → Wire QotGetOrderBookC2s S
      → ℤ
      → Text
      → ℤ
      → σ
      → Result QuoteError (Response S) × σ
  get_order_book w market code num st =
      exchange t quote_errors w proto_qot_get_order_book
        (record { security = record { market = market; code = code }; num = num }) st

  unfoldable pub get_ticker :
      {S : Type 0} → Wire QotGetTickerC2s S → ℤ → Text → ℤ → σ → Result QuoteError (Response S) × σ
  get_ticker w market code max_ret_num st =
      exchange t quote_errors w proto_qot_get_ticker
        (record { security = record { market = market; code = code }; max_ret_num = max_ret_num })
        st

  unfoldable pub stock_filter :
      {F S : Type 0}
      → Wire (QotStockFilterC2s F) S
      → ℤ
      → ℤ
      → ℤ
      → Option (ℤ × Text)
      → List (BaseFilter F)
      → List (AccumulateFilter F)
      → List (FinancialFilter F)
      → σ
      → Result QuoteError (Response S) × σ
  stock_filter w begin num market plate base_filters accumulate_filters financial_filters st =
      exchange t quote_errors w proto_qot_stock_filter
        (record {
          begin = begin;
          num = num;
          market = market;
          plate = Option.map to_security plate;
          base_filter_list = base_filters;
          accumulate_filter_list = accumulate_filters;
          financial_filter_list = financial_filters;
        })
        st

  unfoldable pub get_plate_security :
      {S : Type 0}
      → Wire QotGetPlateSecurityC2s S
      → ℤ
      → Text
      → Option ℤ
      → Option Bool
      → σ
      → Result QuoteError (Response S) × σ
  get_plate_security w plate_market plate_code sort_field ascend st =
      exchange t quote_errors w proto_qot_get_plate_security
        (record {
          plate = record { market = plate_market; code = plate_code };
          sort_field = sort_field;
          ascend = ascend;
        })
        st

  unfoldable pub get_sub_info :
      {S : Type 0} → Wire QotGetSubInfoC2s S → Option Bool → σ → Result QuoteError (Response S) × σ
  get_sub_info w is_req_all_conn st =
      exchange t quote_errors w proto_qot_get_sub_info
        (record { is_req_all_conn = is_req_all_conn }) st

  unfoldable pub get_rt :
      {S : Type 0} → Wire QotGetRtC2s S → ℤ → Text → σ → Result QuoteError (Response S) × σ
  get_rt w market code st =
      exchange t quote_errors w proto_qot_get_rt
        (record { security = record { market = market; code = code } }) st
