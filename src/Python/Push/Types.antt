-- ===== src/Python/Push/Types.antt =====
-- What Python relies on in the dicts of crates/futu/src/python/push_decode.rs.
use nautilus_futu.Prelude.{ℕ, ◌≡◌, refl, subst, List, Option, none, some, Result, ok, err, arith}
use nautilus_futu.Prelude.Text.{Text, ascii}
use nautilus_futu.Generated.Common.{Response}
use nautilus_futu.Generated.Answer.Push.{
  QotUpdateBasicQotS2c, QotUpdateTickerS2c, QotUpdateOrderBookS2c, QotUpdateKlS2c,
  TrdUpdateOrderS2c, TrdUpdateOrderFillS2c,
}
use nautilus_futu.Python.{
  PyFutuClient, PyError, PushError, PushMessage, undecoded, decoded, pop_at, poll_push,
}
use nautilus_futu.Python.Contract.{
  QuoteData, TradeData, Level, BarData, TickerPush, BookPush, KlPush, OrderPush, FillPush, PushData,
  quotes, klines, tickers, book, order, fill,
}
use nautilus_futu.Generated.Answer.Market.{BasicQot, Ticker, OrderBook, KLine}
use nautilus_futu.Python.Object.{Py, at_key, uint, get_item, set_item, set_items}
use nautilus_futu.Python.Push.{
  decode_basic_qot_item, decode_ticker_tickers, decode_order_book_asks, decode_order_book_bids,
  decode_kl_kl_list, basic_qot_object, ticker_object, order_book_object, kl_object,
  trd_order_object, trd_fill_object, Decoder, decode_with, with_response, with_s2c, push_object,
  poll_object, decode_push_message, PushDecoders, decode_basic_qot, decode_ticker,
  decode_order_book, decode_kl, decode_trd_order, decode_trd_fill,
}
use nautilus_futu.Python.Shape.{opt-int, opt-str, opt-uint, opt-float, items_of-Each}

module _ {F : Type 0} where
  quote-QuoteData : (qot : BasicQot F) → QuoteData (decode_basic_qot_item qot)
  unfolding get_item set_item set_items
  quote-QuoteData qot = (
    (_, refl, (_, refl)),
    (_, refl, (_, refl)),
    (_, refl, (_, refl)),
    (_, refl, (_, refl)),
    (_, refl, (_, refl)),
  )

  ticker-TradeData : (t : Ticker F) → TradeData (decode_ticker_tickers t)
  unfolding get_item set_item set_items
  ticker-TradeData t =
      ((_, refl, (_, refl)), (_, refl, (_, refl)), (_, refl, (_, refl)), (_, refl, (_, refl)))

  ask-Level : (ob : OrderBook F) → Level (decode_order_book_asks ob)
  unfolding get_item set_item set_items
  ask-Level ob = ((_, refl, (_, refl)), (_, refl, (_, refl)))

  kl-BarData : (kl : KLine F) → BarData (decode_kl_kl_list kl)
  unfolding get_item set_item set_items
  kl-BarData kl = (
    (_, refl, (_, refl)),
    (_, refl, opt-float _),
    (_, refl, opt-float _),
    (_, refl, opt-float _),
    (_, refl, opt-float _),
    (_, refl, opt-int _),
    (_, refl, opt-float _),
  )

  bid-Level : (ob : OrderBook F) → Level (decode_order_book_bids ob)
  unfolding get_item set_item set_items
  bid-Level ob = ((_, refl, (_, refl)), (_, refl, (_, refl)))

  basic_qot-PushData : (s2c : QotUpdateBasicQotS2c F) → PushData 3005 (basic_qot_object s2c)
  basic_qot-PushData s2c =
      quotes
        (_, refl, items_of-Each QuoteData decode_basic_qot_item quote-QuoteData s2c.basic_qot_list)

  ticker-TickerPush : (s2c : QotUpdateTickerS2c F) → TickerPush (ticker_object s2c)
  unfolding get_item set_item set_items
  ticker-TickerPush s2c = (
    (_, refl, (_, refl)),
    (_, refl, (_, refl)),
    (_, refl, (_, refl, items_of-Each TradeData decode_ticker_tickers ticker-TradeData _)),
  )

  order_book-BookPush : (s2c : QotUpdateOrderBookS2c F) → BookPush (order_book_object s2c)
  unfolding get_item set_item set_items
  order_book-BookPush s2c = (
    (_, refl, (_, refl)),
    (_, refl, (_, refl)),
    (_, refl, (_, refl, items_of-Each Level decode_order_book_asks ask-Level _)),
    (_, refl, (_, refl, items_of-Each Level decode_order_book_bids bid-Level _)),
  )

  kl-KlPush : (s2c : QotUpdateKlS2c F) → KlPush (kl_object s2c)
  unfolding get_item set_item set_items
  kl-KlPush s2c = (
    (_, refl, (_, refl)),
    (_, refl, (_, refl)),
    (_, refl, (_, refl)),
    (_, refl, (_, refl, items_of-Each BarData decode_kl_kl_list kl-BarData _)),
  )

  trd_order-OrderPush : (s2c : TrdUpdateOrderS2c F) → OrderPush (trd_order_object s2c)
  unfolding get_item set_item set_items
  trd_order-OrderPush s2c = (
    (_, refl, (_, refl)),
    (_, refl, (_, refl)),
    (
      _,
      refl,
      (
        (_, refl, (_, refl)),
        (_, refl, (_, refl)),
        (_, refl, (_, refl)),
        (_, refl, (_, refl)),
        (_, refl, (_, refl)),
        (_, refl, (_, refl)),
        (_, refl, opt-float _),
        (_, refl, opt-float _),
        (_, refl, opt-float _),
        (_, refl, opt-int _),
        (_, refl, opt-float _),
        (_, refl, opt-float _),
        (_, refl, opt-int _),
        (_, refl, opt-str _),
      ),
    ),
  )

  trd_fill-FillPush :
      (zero_f : F) (s2c : TrdUpdateOrderFillS2c F) → FillPush (trd_fill_object zero_f s2c)
  unfolding get_item set_item set_items
  trd_fill-FillPush zero_f s2c = (
    (_, refl, (_, refl)),
    (_, refl, (_, refl)),
    (
      _,
      refl,
      (
        (_, refl, (_, refl)),
        (_, refl, (_, refl)),
        (_, refl, (_, refl)),
        (_, refl, opt-uint _),
        (_, refl, (_, refl)),
        (_, refl, (_, refl)),
        (_, refl, opt-int _),
        (_, refl, opt-float _),
      ),
    ),
  )

  -- A decoder that returns an object makes it of a response's content.
  decode_with-Holds :
      {S : Type 0} (P : Py F → Type 0) (missing : Text) (decoder : Decoder S) (convert : S → Py F)
      → ((s2c : S) → P (convert s2c))
      → (body : List ℕ) (o : Py F) → decode_with missing decoder convert body ≡ ok o
      → P o
  unfolding decode_with
  decode_with-Holds {S} P missing decoder convert h body o e = by_result (decoder body) e
    where
      by_result : (r : Result Text (Response S)) → with_response missing convert r ≡ ok o → P o
      by_result (err t) e = cc
      by_result (ok resp) e = by_content resp.s2c e
        where
          by_content : (s : Option S) → with_s2c missing convert s ≡ ok o → P o
          by_content none e = cc
          by_content (some s2c) e = let same : convert s2c ≡ o = cc in subst P same (h s2c)

module _ {F : Type 0} where
  -- What poll_push may return.
  abbrev pub Polled : Result PyError (Option (Py F)) → Type 0
  Polled (err e) = (p : PushError) × (e ≡ undecoded p)
  Polled (ok none) = Unit {0}
  Polled (ok (some msg)) =
      (proto_id : ℕ) × (o : Py F) × (at_key "proto_id" msg ≡ some (uint proto_id))
      × (at_key "data" msg ≡ some o)
      × PushData proto_id o

module _ {F : Type 0} (zero_f : F) (d : PushDecoders F) where
  decode_push_message-PushData :
      (proto_id : ℕ) (body : List ℕ) (o : Py F)
      → decode_push_message zero_f d proto_id body ≡ ok o
      → PushData proto_id o
  unfolding decode_push_message decode_basic_qot decode_ticker decode_order_book decode_kl
      decode_trd_order decode_trd_fill
  decode_push_message-PushData proto_id body o e = ground (
    arith,
    decode_with-Holds (PushData 3005) (ascii "Missing s2c in basic qot push") d.basic_qot
        basic_qot_object basic_qot-PushData body o,
    decode_with-Holds (PushData 3011) (ascii "Missing s2c in ticker push") d.ticker ticker_object
        (λ s2c. tickers (ticker-TickerPush s2c)) body o,
    decode_with-Holds (PushData 3013) (ascii "Missing s2c in order book push") d.order_book
        order_book_object (λ s2c. book (order_book-BookPush s2c)) body o,
    decode_with-Holds (PushData 3007) (ascii "Missing s2c in KL push") d.kl kl_object
        (λ s2c. klines (kl-KlPush s2c)) body o,
    decode_with-Holds (PushData 2208) (ascii "Missing s2c in order push") d.trd_order
        trd_order_object (λ s2c. order (trd_order-OrderPush s2c)) body o,
    decode_with-Holds (PushData 2218) (ascii "Missing s2c in fill push") d.trd_fill
        (trd_fill_object zero_f) (λ s2c. fill (trd_fill-FillPush zero_f s2c)) body o,
  )

  -- Whatever the channel holds, poll_push returns nothing, the error of a decoder, or a dict with
  -- the protocol id of a push and, as its data, an object with the keys that the Python package
  -- reads from pushes with this id, each with the type that it expects there.
  pub poll_object-Polled :
      (channel_id : ℕ) (p : PyFutuClient) → Polled (poll_object zero_f d channel_id p).0
  unfolding poll_object poll_push
  poll_object-Polled channel_id p = of_message (pop_at channel_id p.push_channels).0
    where
      of_message :
          (m : Option PushMessage) → Polled (push_object (decoded (decode_push_message zero_f d) m))
      of_message none = tt
      of_message (some (proto_id, body)) =
          by_result (decode_push_message zero_f d proto_id body) refl
        where
          by_result :
              (r : Result PushError (Py F))
              → decode_push_message zero_f d proto_id body ≡ r
              → Polled (
                  push_object
                    (elim r [ ok o ↦ ok (some (proto_id, o)) | err e ↦ err (undecoded e) ]))
          by_result (err e) h = (e, refl)
          by_result (ok o) h =
              unfold get_item set_item set_items in
              (proto_id, o, refl, refl, decode_push_message-PushData proto_id body o h)
