-- ===== src/Python/Contract.antt =====
-- The keys that the Python package under nautilus_futu reads from the objects of
-- crates/futu/src/python, and the types that it expects there; each is named with the functions of
-- data.py, execution.py and parsing that read it. `F` is the type of `f64`.
use nautilus_futu.Prelude.{ℕ}
use nautilus_futu.Python.Object.{Py}
use nautilus_futu.Python.Shape.{IsBool, IsInt, IsFloat, IsStr, Maybe, ListOf, Key}

module _ {F : Type 0} where
  -- _handle_push_basic_qot and parse_futu_quote_tick
  abbrev pub QuoteData : Py F → Type 0
  QuoteData o =
      Key "market" IsInt o
      × Key "code" IsStr o
      × Key "cur_price" IsFloat o
      × Key "price_spread" IsFloat o
      × Key "volume" IsInt o

  -- parse_futu_trade_tick
  abbrev pub TradeData : Py F → Type 0
  TradeData o =
      Key "price" IsFloat o × Key "volume" IsInt o × Key "dir" IsInt o × Key "sequence" IsInt o

  -- A bid or an ask: parse_push_order_book
  abbrev pub Level : Py F → Type 0
  Level o = Key "price" IsFloat o × Key "volume" IsInt o

  -- parse_futu_bars
  abbrev pub BarData : Py F → Type 0
  BarData o =
      Key "is_blank" IsBool o
      × Key "open_price" (Maybe IsFloat) o
      × Key "high_price" (Maybe IsFloat) o
      × Key "low_price" (Maybe IsFloat) o
      × Key "close_price" (Maybe IsFloat) o
      × Key "volume" (Maybe IsInt) o
      × Key "timestamp" (Maybe IsFloat) o

  -- _handle_push_order and parse_futu_order_to_report
  abbrev pub OrderData : Py F → Type 0
  OrderData o =
      Key "code" IsStr o
      × Key "trd_side" IsInt o
      × Key "order_type" IsInt o
      × Key "order_status" IsInt o
      × Key "order_id" IsInt o
      × Key "qty" IsFloat o
      × Key "price" (Maybe IsFloat) o
      × Key "fill_qty" (Maybe IsFloat) o
      × Key "fill_avg_price" (Maybe IsFloat) o
      × Key "sec_market" (Maybe IsInt) o
      × Key "create_timestamp" (Maybe IsFloat) o
      × Key "update_timestamp" (Maybe IsFloat) o
      × Key "time_in_force" (Maybe IsInt) o
      × Key "remark" (Maybe IsStr) o

  -- _handle_push_fill and parse_futu_fill_to_report
  abbrev pub FillData : Py F → Type 0
  FillData o =
      Key "code" IsStr o
      × Key "trd_side" IsInt o
      × Key "fill_id" IsInt o
      × Key "order_id" (Maybe IsInt) o
      × Key "qty" IsFloat o
      × Key "price" IsFloat o
      × Key "sec_market" (Maybe IsInt) o
      × Key "create_timestamp" (Maybe IsFloat) o

  -- parse_futu_position_to_report
  abbrev pub PositionData : Py F → Type 0
  PositionData o =
      Key "code" IsStr o
      × Key "sec_market" (Maybe IsInt) o
      × Key "qty" IsFloat o
      × Key "position_side" IsInt o

  -- `_connect` of execution.py
  abbrev pub AccountData : Py F → Type 0
  AccountData o =
      Key "acc_id" IsInt o
      × Key "trd_env" IsInt o
      × Key "acc_status" (Maybe IsInt) o
      × Key "trd_market_auth_list" (ListOf IsInt) o

  -- _handle_push_ticker
  abbrev pub TickerPush : Py F → Type 0
  TickerPush o = Key "market" IsInt o × Key "code" IsStr o × Key "tickers" (ListOf TradeData) o

  -- _handle_push_order_book
  abbrev pub BookPush : Py F → Type 0
  BookPush o =
      Key "market" IsInt o
      × Key "code" IsStr o
      × Key "asks" (ListOf Level) o
      × Key "bids" (ListOf Level) o

  -- _handle_push_kl
  abbrev pub KlPush : Py F → Type 0
  KlPush o =
      Key "market" IsInt o
      × Key "code" IsStr o
      × Key "kl_type" IsInt o
      × Key "kl_list" (ListOf BarData) o

  -- _handle_push_order
  abbrev pub OrderPush : Py F → Type 0
  OrderPush o = Key "trd_env" IsInt o × Key "acc_id" IsInt o × Key "order" OrderData o

  -- _handle_push_fill
  abbrev pub FillPush : Py F → Type 0
  FillPush o = Key "trd_env" IsInt o × Key "acc_id" IsInt o × Key "fill" FillData o

pub data PushData {F : Type 0} : ℕ → Py F → Type 0 where
  quotes : {o : Py F} → ListOf QuoteData o → PushData 3005 o
  klines : {o : Py F} → KlPush o → PushData 3007 o
  tickers : {o : Py F} → TickerPush o → PushData 3011 o
  book : {o : Py F} → BookPush o → PushData 3013 o
  order : {o : Py F} → OrderPush o → PushData 2208 o
  fill : {o : Py F} → FillPush o → PushData 2218 o
