-- ===== src/Python/Methods/Quotes.antt =====
-- crates/futu/src/python/client.rs: the methods of `PyFutuClient` on subscriptions and quotes, and
-- the dicts that they make. `F` is the type of `f64`.
use nautilus_futu.Prelude.{Bool, Option, List, Result, map, [], ◌∷◌, ◌++◌}
use nautilus_futu.Prelude.Words.{ℤ}
use nautilus_futu.Prelude.Text.{Text, ascii}
use nautilus_futu.Generated.Quote.{
  QotSubC2s, QotGetHistoryKlC2s, QotGetBasicQotC2s, QotGetOrderBookC2s, QotGetTickerC2s,
  QotGetSubInfoC2s,
}
use nautilus_futu.Generated.Answer.Market.{BasicQot, Ticker, OrderBook, KLine, SubInfo, ConnSubInfo}
use nautilus_futu.Generated.Answer.Quotes.{
  QotGetOrderBookS2c, QotGetTickerS2c, QotGetBasicQotS2c, QotGetHistoryKlS2c, QotGetSubInfoS2c,
}
use nautilus_futu.Generated.Common.{Response, Security}
use nautilus_futu.Request.{Requester, Wire}
use nautilus_futu.Quote.History
use nautilus_futu.Quote.Snapshot.Market
use nautilus_futu.Quote.Subscribe
use nautilus_futu.Python.{PyError, quote_failed}
use nautilus_futu.Python.Methods.{call}
use nautilus_futu.Python.Object.{Py, dict_of, list_of, opt, when, int, float, bool, str}

module _ {F : Type 0} where
  abbrev get_order_book_asks : OrderBook F → Py F
  get_order_book_asks ob = dict_of (
      ("price", float ob.price)
      ∷ ("volume", int ob.volume)
      ∷ ("order_count", int ob.order_count)
      ∷ [])

  abbrev get_order_book_bids : OrderBook F → Py F
  get_order_book_bids ob = dict_of (
      ("price", float ob.price)
      ∷ ("volume", int ob.volume)
      ∷ ("order_count", int ob.order_count)
      ∷ [])

  abbrev get_order_book_dict : Response (QotGetOrderBookS2c F) → Py F
  get_order_book_dict response = dict_of (
      when response.s2c (λ s2c.
        ("asks", list_of get_order_book_asks s2c.order_book_ask_list)
        ∷ ("bids", list_of get_order_book_bids s2c.order_book_bid_list)
        ∷ []))

  abbrev pub get_ticker_item : Ticker F → Py F
  get_ticker_item t = dict_of (
      (("price", float t.price)
        ∷ ("volume", int t.volume)
        ∷ ("dir", int t.dir)
        ∷ ("sequence", int t.sequence)
        ∷ ("turnover", float t.turnover)
        ∷ [])
      ++ when t.timestamp (λ ts. ("timestamp", float ts) ∷ []))

  abbrev pub get_basic_qot_item : BasicQot F → Py F
  get_basic_qot_item qot = dict_of (
      ("market", int qot.security.market)
      ∷ ("code", str qot.security.code)
      ∷ ("name", opt str qot.name)
      ∷ ("cur_price", float qot.cur_price)
      ∷ ("price_spread", float qot.price_spread)
      ∷ ("open_price", float qot.open_price)
      ∷ ("high_price", float qot.high_price)
      ∷ ("low_price", float qot.low_price)
      ∷ ("last_close_price", float qot.last_close_price)
      ∷ ("volume", int qot.volume)
      ∷ ("turnover", float qot.turnover)
      ∷ ("turnover_rate", float qot.turnover_rate)
      ∷ ("update_timestamp", opt float qot.update_timestamp)
      ∷ [])

  abbrev pub get_history_kl_item : KLine F → Py F
  get_history_kl_item kl = dict_of (
      ("time", str kl.time)
      ∷ ("is_blank", bool kl.is_blank)
      ∷ ("open_price", opt float kl.open_price)
      ∷ ("high_price", opt float kl.high_price)
      ∷ ("low_price", opt float kl.low_price)
      ∷ ("close_price", opt float kl.close_price)
      ∷ ("last_close_price", opt float kl.last_close_price)
      ∷ ("volume", opt int kl.volume)
      ∷ ("turnover", opt float kl.turnover)
      ∷ ("timestamp", opt float kl.timestamp)
      ∷ [])

  abbrev get_sub_info_sec_list : Security → Py F
  get_sub_info_sec_list sec = dict_of (("market", int sec.market) ∷ ("code", str sec.code) ∷ [])

  abbrev get_sub_info_sub_list : SubInfo → Py F
  get_sub_info_sub_list sub_info = dict_of (
      ("sub_type", int sub_info.sub_type)
      ∷ ("security_list", list_of get_sub_info_sec_list sub_info.security_list)
      ∷ [])

  abbrev get_sub_info_conn_list : ConnSubInfo → Py F
  get_sub_info_conn_list conn = dict_of (
      ("used_quota", int conn.used_quota)
      ∷ ("is_own_conn_data", bool conn.is_own_conn_data)
      ∷ ("sub_info_list", list_of get_sub_info_sub_list conn.sub_info_list)
      ∷ [])

  abbrev get_sub_info_dict : Response QotGetSubInfoS2c → Py F
  get_sub_info_dict response = dict_of (
      when response.s2c (λ s2c.
        ("total_used_quota", int s2c.total_used_quota)
        ∷ ("remain_quota", int s2c.remain_quota)
        ∷ ("conn_sub_info_list", list_of get_sub_info_conn_list s2c.conn_sub_info_list)
        ∷ []))

module _ {σ : Type 0} (t : Requester σ) where
  unfoldable pub subscribe :
      {S : Type 0}
      → Wire QotSubC2s S
      → List (ℤ × Text)
      → List ℤ
      → Bool
      → Option σ
      → Result PyError (Unit {0}) × Option σ
  unfolding call
  subscribe w securities sub_types is_sub client =
      call (quote_failed (ascii "Subscribe failed"))
        (Subscribe.subscribe t w securities sub_types is_sub) (λ u. tt) client

  unfoldable pub get_order_book :
      {F : Type 0}
      → Wire QotGetOrderBookC2s (QotGetOrderBookS2c F)
      → ℤ
      → Text
      → ℤ
      → Option σ
      → Result PyError (Py F) × Option σ
  unfolding call
  get_order_book w market code num client =
      call (quote_failed (ascii "Get order book failed"))
        (Market.get_order_book t w market code num) get_order_book_dict client

  unfoldable pub get_ticker :
      {F : Type 0}
      → Wire QotGetTickerC2s (QotGetTickerS2c F)
      → ℤ
      → Text
      → ℤ
      → Option σ
      → Result PyError (List (Py F)) × Option σ
  unfolding call
  get_ticker w market code max_ret_num client =
      call (quote_failed (ascii "Get ticker failed"))
        (Market.get_ticker t w market code max_ret_num)
        (λ response. when response.s2c (λ s2c. map get_ticker_item s2c.ticker_list)) client

  unfoldable pub get_basic_qot :
      {F : Type 0}
      → Wire QotGetBasicQotC2s (QotGetBasicQotS2c F)
      → List (ℤ × Text)
      → Option σ
      → Result PyError (List (Py F)) × Option σ
  unfolding call
  get_basic_qot w securities client =
      call (quote_failed (ascii "Get basic qot failed")) (Market.get_basic_qot t w securities)
        (λ response. when response.s2c (λ s2c. map get_basic_qot_item s2c.basic_qot_list)) client

  unfoldable pub get_history_kl :
      {F : Type 0}
      → Wire QotGetHistoryKlC2s (QotGetHistoryKlS2c F)
      → ℤ
      → Text
      → ℤ
      → ℤ
      → Text
      → Text
      → Option ℤ
      → Option σ
      → Result PyError (List (Py F)) × Option σ
  unfolding call
  get_history_kl w market code rehab_type kl_type begin_time end_time max_count client =
      call (quote_failed (ascii "Get history KL failed"))
        (History.get_history_kl t w market code rehab_type kl_type begin_time end_time max_count)
        (λ response. when response.s2c (λ s2c. map get_history_kl_item s2c.kl_list)) client

  unfoldable pub get_sub_info :
      {F : Type 0}
      → Wire QotGetSubInfoC2s QotGetSubInfoS2c
      → Option Bool
      → Option σ
      → Result PyError (Py F) × Option σ
  unfolding call
  get_sub_info w is_req_all_conn client =
      call (quote_failed (ascii "Get sub info failed")) (Market.get_sub_info t w is_req_all_conn)
        get_sub_info_dict client
