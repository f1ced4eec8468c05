-- ===== src/Python/Methods/Live.antt =====
-- crates/futu/src/python/client.rs: the methods of `PyFutuClient` on time sharing, brokers and
-- snapshots, and the dicts that they make. `F` is the type of `f64`.
use nautilus_futu.Prelude.{Option, List, Result, map, [], ◌∷◌}
use nautilus_futu.Prelude.Words.{ℤ}
use nautilus_futu.Prelude.Text.{Text, ascii}
use nautilus_futu.Generated.Quote.{QotGetSecuritySnapshotC2s, QotGetRtC2s, QotGetBrokerC2s}
use nautilus_futu.Generated.Answer.Market.{TimeShare, Broker}
use nautilus_futu.Generated.Answer.Snapshot.{Snapshot, QotGetSecuritySnapshotS2c}
use nautilus_futu.Generated.Answer.Quotes.{QotGetRtS2c, QotGetBrokerS2c}
use nautilus_futu.Generated.Common.{Response}
use nautilus_futu.Request.{Requester, Wire}
use nautilus_futu.Quote.Snapshot.Market
use nautilus_futu.Quote.Snapshot.Reference
use nautilus_futu.Python.{PyError, quote_failed}
use nautilus_futu.Python.Methods.{call}
use nautilus_futu.Python.Object.{Py, dict_of, list_of, opt, when, int, float, bool, str}

module _ {F : Type 0} where
  abbrev get_security_snapshot_item : Snapshot F → Py F
  get_security_snapshot_item snapshot = dict_of (
      ("market", int snapshot.basic.security.market)
      ∷ ("code", str snapshot.basic.security.code)
      ∷ ("type", int snapshot.basic.type)
      ∷ ("is_suspend", bool snapshot.basic.is_suspend)
      ∷ ("lot_size", int snapshot.basic.lot_size)
      ∷ ("cur_price", float snapshot.basic.cur_price)
      ∷ ("open_price", float snapshot.basic.open_price)
      ∷ ("high_price", float snapshot.basic.high_price)
      ∷ ("low_price", float snapshot.basic.low_price)
      ∷ ("last_close_price", float snapshot.basic.last_close_price)
      ∷ ("volume", int snapshot.basic.volume)
      ∷ ("turnover", float snapshot.basic.turnover)
      ∷ ("update_time", str snapshot.basic.update_time)
      ∷ ("update_timestamp", opt float snapshot.basic.update_timestamp)
      ∷ ("ask_price", opt float snapshot.basic.ask_price)
      ∷ ("bid_price", opt float snapshot.basic.bid_price)
      ∷ ("ask_vol", opt int snapshot.basic.ask_vol)
      ∷ ("bid_vol", opt int snapshot.basic.bid_vol)
      ∷ ("price_spread", float snapshot.basic.price_spread)
      ∷ [])

  abbrev get_rt_rt_list : TimeShare F → Py F
  get_rt_rt_list rt = dict_of (
      ("time", str rt.time)
      ∷ ("minute", int rt.minute)
      ∷ ("is_blank", bool rt.is_blank)
      ∷ ("price", opt float rt.price)
      ∷ ("last_close_price", opt float rt.last_close_price)
      ∷ ("avg_price", opt float rt.avg_price)
      ∷ ("volume", opt int rt.volume)
      ∷ ("turnover", opt float rt.turnover)
      ∷ ("timestamp", opt float rt.timestamp)
      ∷ [])

  abbrev get_rt_dict : Response (QotGetRtS2c F) → Py F
  get_rt_dict response = dict_of (
      when response.s2c (λ s2c.
        ("market", int s2c.security.market)
        ∷ ("code", str s2c.security.code)
        ∷ ("name", opt str s2c.name)
        ∷ ("rt_list", list_of get_rt_rt_list s2c.rt_list)
        ∷ []))

  abbrev get_broker_ask_list : Broker → Py F
  get_broker_ask_list b =
      dict_of (("id", int b.id) ∷ ("name", str b.name) ∷ ("pos", int b.pos) ∷ [])

  abbrev get_broker_bid_list : Broker → Py F
  get_broker_bid_list b =
      dict_of (("id", int b.id) ∷ ("name", str b.name) ∷ ("pos", int b.pos) ∷ [])

  abbrev get_broker_dict : Response QotGetBrokerS2c → Py F
  get_broker_dict response = dict_of (
      when response.s2c (λ s2c.
        ("broker_ask_list", list_of get_broker_ask_list s2c.broker_ask_list)
        ∷ ("broker_bid_list", list_of get_broker_bid_list s2c.broker_bid_list)
        ∷ []))

module _ {σ : Type 0} (t : Requester σ) where
  unfoldable pub get_security_snapshot :
      {F : Type 0}
      → Wire QotGetSecuritySnapshotC2s (QotGetSecuritySnapshotS2c F)
      → List (ℤ × Text)
      → Option σ
      → Result PyError (List (Py F)) × Option σ
  unfolding call
  get_security_snapshot w securities client =
      call (quote_failed (ascii "Get snapshot failed"))
        (Market.get_security_snapshot t w securities)
        (λ response. when response.s2c (λ s2c. map get_security_snapshot_item s2c.snapshot_list))
        client

  unfoldable pub get_rt :
      {F : Type 0}
      → Wire QotGetRtC2s (QotGetRtS2c F)
      → ℤ
      → Text
      → Option σ
      → Result PyError (Py F) × Option σ
  unfolding call
  get_rt w market code client =
      call (quote_failed (ascii "Get RT failed")) (Market.get_rt t w market code) get_rt_dict client

  unfoldable pub get_broker :
      {F : Type 0}
      → Wire QotGetBrokerC2s QotGetBrokerS2c
      → ℤ
      → Text
      → Option σ
      → Result PyError (Py F) × Option σ
  unfolding call
  get_broker w market code client =
      call (quote_failed (ascii "Get broker failed")) (Reference.get_broker t w market code)
        get_broker_dict client
