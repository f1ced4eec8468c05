-- ===== src/Python/Push.antt =====
-- crates/futu/src/python/push_decode.rs: pushes as Python objects. `F` is the type of `f64`, and
-- `zero_f` its 0.0. The decoders that `prost` derives are parameters.
pub mod Types
use nautilus_futu.Prelude.{
  ℕ, List, [], ◌∷◌, Option, none, some, Result, ok, err, ◌==◌, if◌then◌else◌,
}
use nautilus_futu.Prelude.Words.{pos}
use nautilus_futu.Prelude.Text.{Text, ascii}
use nautilus_futu.Generated.Answer.Market.{BasicQot, Ticker, OrderBook, KLine}
use nautilus_futu.Generated.Answer.Push.{
  QotUpdateBasicQotS2c, QotUpdateTickerS2c, QotUpdateOrderBookS2c, QotUpdateKlS2c,
  TrdUpdateOrderS2c, TrdUpdateOrderFillS2c,
}
use nautilus_futu.Generated.Common.{Response}
use nautilus_futu.Python.{
  PyFutuClient, PyError, PushError, unknown_proto_id, decode_error, missing_s2c, poll_push,
}
use nautilus_futu.Python.Object.{Py, dict_of, list_of, opt, uint, unwrap_or, int, float, bool, str}

-- `Response::decode`, with the text of its error.
abbrev pub Decoder : Type 0 → Type 0
Decoder S = List ℕ → Result Text (Response S)

module _ {F S : Type 0} where
  abbrev pub with_s2c : Text → (S → Py F) → Option S → Result PushError (Py F)
  with_s2c missing convert none = err (missing_s2c missing)
  with_s2c missing convert (some s2c) = ok (convert s2c)

  abbrev pub with_response : Text → (S → Py F) → Result Text (Response S) → Result PushError (Py F)
  with_response missing convert (err e) = err (decode_error e)
  with_response missing convert (ok resp) = with_s2c missing convert resp.s2c

  -- What the decoders share: the `ret_type` is not looked at.
  unfoldable pub decode_with : Text → Decoder S → (S → Py F) → List ℕ → Result PushError (Py F)
  decode_with missing decoder convert body = with_response missing convert (decoder body)

module _ {F : Type 0} where
  abbrev pub decode_basic_qot_item : BasicQot F → Py F
  decode_basic_qot_item qot = dict_of (
      ("market", int qot.security.market)
      ∷ ("code", str qot.security.code)
      ∷ ("name", opt str qot.name)
      ∷ ("is_suspended", bool qot.is_suspended)
      ∷ ("cur_price", float qot.cur_price)
      ∷ ("price_spread", float qot.price_spread)
      ∷ ("volume", int qot.volume)
      ∷ ("high_price", float qot.high_price)
      ∷ ("open_price", float qot.open_price)
      ∷ ("low_price", float qot.low_price)
      ∷ ("last_close_price", float qot.last_close_price)
      ∷ ("turnover", float qot.turnover)
      ∷ ("turnover_rate", float qot.turnover_rate)
      ∷ ("amplitude", float qot.amplitude)
      ∷ ("update_timestamp", opt float qot.update_timestamp)
      ∷ [])

  abbrev pub basic_qot_object : QotUpdateBasicQotS2c F → Py F
  basic_qot_object s2c = list_of decode_basic_qot_item s2c.basic_qot_list

  unfoldable pub decode_basic_qot :
      Decoder (QotUpdateBasicQotS2c F) → List ℕ → Result PushError (Py F)
  unfolding decode_with
  decode_basic_qot decoder body =
      decode_with (ascii "Missing s2c in basic qot push") decoder basic_qot_object body

  abbrev pub decode_ticker_tickers : Ticker F → Py F
  decode_ticker_tickers t = dict_of (
      ("price", float t.price)
      ∷ ("volume", int t.volume)
      ∷ ("dir", int t.dir)
      ∷ ("sequence", int t.sequence)
      ∷ ("timestamp", opt float t.timestamp)
      ∷ ("turnover", float t.turnover)
      ∷ [])

  abbrev pub ticker_object : QotUpdateTickerS2c F → Py F
  ticker_object s2c = dict_of (
      ("market", int s2c.security.market)
      ∷ ("code", str s2c.security.code)
      ∷ ("tickers", list_of decode_ticker_tickers s2c.ticker_list)
      ∷ [])

  unfoldable pub decode_ticker : Decoder (QotUpdateTickerS2c F) → List ℕ → Result PushError (Py F)
  unfolding decode_with
  decode_ticker decoder body =
      decode_with (ascii "Missing s2c in ticker push") decoder ticker_object body

  abbrev pub decode_order_book_asks : OrderBook F → Py F
  decode_order_book_asks ob = dict_of (
      ("price", float ob.price)
      ∷ ("volume", int ob.volume)
      ∷ ("order_count", int ob.order_count)
      ∷ [])

  abbrev pub decode_order_book_bids : OrderBook F → Py F
  decode_order_book_bids ob = dict_of (
      ("price", float ob.price)
      ∷ ("volume", int ob.volume)
      ∷ ("order_count", int ob.order_count)
      ∷ [])

  abbrev pub order_book_object : QotUpdateOrderBookS2c F → Py F
  order_book_object s2c = dict_of (
      ("market", int s2c.security.market)
      ∷ ("code", str s2c.security.code)
      ∷ ("asks", list_of decode_order_book_asks s2c.order_book_ask_list)
      ∷ ("bids", list_of decode_order_book_bids s2c.order_book_bid_list)
      ∷ [])

  unfoldable pub decode_order_book :
      Decoder (QotUpdateOrderBookS2c F) → List ℕ → Result PushError (Py F)
  unfolding decode_with
  decode_order_book decoder body =
      decode_with (ascii "Missing s2c in order book push") decoder order_book_object body

  abbrev pub decode_kl_kl_list : KLine F → Py F
  decode_kl_kl_list kl = dict_of (
      ("open_price", opt float kl.open_price)
      ∷ ("high_price", opt float kl.high_price)
      ∷ ("low_price", opt float kl.low_price)
      ∷ ("close_price", opt float kl.close_price)
      ∷ ("last_close_price", opt float kl.last_close_price)
      ∷ ("volume", opt int kl.volume)
      ∷ ("turnover", opt float kl.turnover)
      ∷ ("change_rate", opt float kl.change_rate)
      ∷ ("timestamp", opt float kl.timestamp)
      ∷ ("is_blank", bool kl.is_blank)
      ∷ [])

  abbrev pub kl_object : QotUpdateKlS2c F → Py F
  kl_object s2c = dict_of (
      ("market", int s2c.security.market)
      ∷ ("code", str s2c.security.code)
      ∷ ("kl_type", int s2c.kl_type)
      ∷ ("rehab_type", int s2c.rehab_type)
      ∷ ("kl_list", list_of decode_kl_kl_list s2c.kl_list)
      ∷ [])

  unfoldable pub decode_kl : Decoder (QotUpdateKlS2c F) → List ℕ → Result PushError (Py F)
  unfolding decode_with
  decode_kl decoder body = decode_with (ascii "Missing s2c in KL push") decoder kl_object body

  abbrev pub trd_order_object : TrdUpdateOrderS2c F → Py F
  trd_order_object s2c = dict_of (
      ("trd_env", int s2c.header.trd_env)
      ∷ ("acc_id", uint s2c.header.acc_id)
      ∷ (
        "order",
        dict_of (
            ("trd_side", int s2c.order.trd_side)
            ∷ ("order_type", int s2c.order.order_type)
            ∷ ("order_status", int s2c.order.order_status)
            ∷ ("order_id", uint s2c.order.order_id)
            ∷ ("order_id_ex", str s2c.order.order_id_ex)
            ∷ ("code", str s2c.order.code)
            ∷ ("name", str s2c.order.name)
            ∷ ("qty", float s2c.order.qty)
            ∷ ("price", opt float s2c.order.price)
            ∷ ("fill_qty", opt float s2c.order.fill_qty)
            ∷ ("fill_avg_price", opt float s2c.order.fill_avg_price)
            ∷ ("sec_market", opt int s2c.order.sec_market)
            ∷ ("create_timestamp", opt float s2c.order.create_timestamp)
            ∷ ("update_timestamp", opt float s2c.order.update_timestamp)
            ∷ ("time_in_force", opt int s2c.order.time_in_force)
            ∷ ("remark", opt str s2c.order.remark)
            ∷ ("last_err_msg", opt str s2c.order.last_err_msg)
            ∷ []),
      )
      ∷ [])

  unfoldable pub decode_trd_order : Decoder (TrdUpdateOrderS2c F) → List ℕ → Result PushError (Py F)
  unfolding decode_with
  decode_trd_order decoder body =
      decode_with (ascii "Missing s2c in order push") decoder trd_order_object body

  abbrev pub trd_fill_object : F → TrdUpdateOrderFillS2c F → Py F
  trd_fill_object zero_f s2c = dict_of (
      ("trd_env", int s2c.header.trd_env)
      ∷ ("acc_id", uint s2c.header.acc_id)
      ∷ (
        "fill",
        dict_of (
            ("trd_side", int s2c.order_fill.trd_side)
            ∷ ("fill_id", uint s2c.order_fill.fill_id)
            ∷ ("fill_id_ex", str s2c.order_fill.fill_id_ex)
            ∷ ("order_id", opt uint s2c.order_fill.order_id)
            ∷ ("order_id_ex", opt str s2c.order_fill.order_id_ex)
            ∷ ("code", str s2c.order_fill.code)
            ∷ ("name", str s2c.order_fill.name)
            ∷ ("qty", float s2c.order_fill.qty)
            ∷ ("price", float s2c.order_fill.price)
            ∷ ("sec_market", opt int s2c.order_fill.sec_market)
            ∷ ("create_timestamp", opt float s2c.order_fill.create_timestamp)
            ∷ ("counter_broker_id", int (unwrap_or (pos 0) s2c.order_fill.counter_broker_id))
            ∷ ("counter_broker_name", str (unwrap_or [] s2c.order_fill.counter_broker_name))
            ∷ ("update_timestamp", float (unwrap_or zero_f s2c.order_fill.update_timestamp))
            ∷ ("status", opt int s2c.order_fill.status)
            ∷ []),
      )
      ∷ [])

  unfoldable pub decode_trd_fill :
      F → Decoder (TrdUpdateOrderFillS2c F) → List ℕ → Result PushError (Py F)
  unfolding decode_with
  decode_trd_fill zero_f decoder body =
      decode_with (ascii "Missing s2c in fill push") decoder (trd_fill_object zero_f) body

module _ {F : Type 0} where
  -- The dict that `poll_push` makes of a message.
  abbrev pub push_dict : ℕ × Py F → Py F
  push_dict (proto_id, data_object) =
      dict_of (("proto_id", uint proto_id) ∷ ("data", data_object) ∷ [])

  abbrev pub push_object : Result PyError (Option (ℕ × Py F)) → Result PyError (Option (Py F))
  push_object (err e) = err e
  push_object (ok none) = ok none
  push_object (ok (some m)) = ok (some (push_dict m))

-- The decoders that `prost` derives.
pub record PushDecoders (F : Type 0) : Type 0 where
  pub basic_qot : Decoder (QotUpdateBasicQotS2c F)
  pub ticker : Decoder (QotUpdateTickerS2c F)
  pub order_book : Decoder (QotUpdateOrderBookS2c F)
  pub kl : Decoder (QotUpdateKlS2c F)
  pub trd_order : Decoder (TrdUpdateOrderS2c F)
  pub trd_fill : Decoder (TrdUpdateOrderFillS2c F)

abbrev proto_qot_update_basic_qot : ℕ
proto_qot_update_basic_qot = 3005

abbrev proto_qot_update_ticker : ℕ
proto_qot_update_ticker = 3011

abbrev proto_qot_update_order_book : ℕ
proto_qot_update_order_book = 3013

abbrev proto_qot_update_kl : ℕ
proto_qot_update_kl = 3007

abbrev proto_trd_update_order : ℕ
proto_trd_update_order = 2208

abbrev proto_trd_update_order_fill : ℕ
proto_trd_update_order_fill = 2218

module _ {F : Type 0} (zero_f : F) (d : PushDecoders F) where
  unfoldable pub decode_push_message : ℕ → List ℕ → Result PushError (Py F)
  decode_push_message proto_id body =
      if proto_id == proto_qot_update_basic_qot
      then decode_basic_qot d.basic_qot body
      else if proto_id == proto_qot_update_ticker
      then decode_ticker d.ticker body
      else if proto_id == proto_qot_update_order_book
      then decode_order_book d.order_book body
      else if proto_id == proto_qot_update_kl
      then decode_kl d.kl body
      else if proto_id == proto_trd_update_order
      then decode_trd_order d.trd_order body
      else if proto_id == proto_trd_update_order_fill
      then decode_trd_fill zero_f d.trd_fill body
      else err (unknown_proto_id proto_id)

  -- `poll_push` with the decoders of this file.
  unfoldable pub poll_object : ℕ → PyFutuClient → Result PyError (Option (Py F)) × PyFutuClient
  poll_object channel_id p =
      let (m, p') = poll_push decode_push_message channel_id p in (push_object m, p')
