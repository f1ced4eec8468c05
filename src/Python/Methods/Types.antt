-- ===== src/Python/Methods/Types.antt =====
-- What Python relies on in the dicts of the answers of crates/futu/src/python/client.rs.
use nautilus_futu.Prelude.{refl, Option, none, some}
use nautilus_futu.Generated.Answer.Account.{Order, OrderFill, TrdAcc, Position}
use nautilus_futu.Generated.Answer.Market.{BasicQot, Ticker, KLine}
use nautilus_futu.Python.Object.{int, get_item, set_item, set_items}
use nautilus_futu.Python.Methods.Account.{get_acc_list_item, get_position_list_item}
use nautilus_futu.Python.Methods.Orders.{get_order_list_item, get_order_fill_list_item}
use nautilus_futu.Python.Methods.Quotes.{get_ticker_item, get_basic_qot_item, get_history_kl_item}
use nautilus_futu.Python.Contract.{
  QuoteData, TradeData, BarData, OrderData, FillData, PositionData, AccountData,
}
use nautilus_futu.Python.Shape.{IsInt, opt-int, opt-str, opt-uint, opt-float, items_of-Each}

module _ {F : Type 0} where
  order-OrderData : (order : Order F) → OrderData (get_order_list_item order)
  unfolding get_item set_item set_items
  order-OrderData order = (
    (_, refl, (_, refl)),
    (_, refl, (_, refl)),
    (_, refl, (_, refl)),
    (_, refl, (_, refl)),
    (_, refl, (_, refl)),
    (_, refl, (_, refl)),
    (_, refl, opt-float _),
    (_, refl, opt-float _),
    (_, refl, opt-float _),
    (_, refl, opt-int _),
    (_, refl, opt-float _),
    (_, refl, opt-float _),
    (_, refl, opt-int _),
    (_, refl, opt-str _),
  )

  fill-FillData : (fill : OrderFill F) → FillData (get_order_fill_list_item fill)
  unfolding get_item set_item set_items
  fill-FillData fill = (
    (_, refl, (_, refl)),
    (_, refl, (_, refl)),
    (_, refl, (_, refl)),
    (_, refl, opt-uint _),
    (_, refl, (_, refl)),
    (_, refl, (_, refl)),
    (_, refl, opt-int _),
    (_, refl, opt-float _),
  )

  position-PositionData : (position : Position F) → PositionData (get_position_list_item position)
  unfolding get_item set_item set_items
  position-PositionData position =
      ((_, refl, (_, refl)), (_, refl, opt-int _), (_, refl, (_, refl)), (_, refl, (_, refl)))

  acc-AccountData : (acc : TrdAcc) → AccountData {F = F} (get_acc_list_item acc)
  unfolding get_item set_item set_items
  acc-AccountData acc = (
    (_, refl, (_, refl)),
    (_, refl, (_, refl)),
    (_, refl, opt-int _),
    (_, refl, (_, refl, items_of-Each IsInt int (λ n. (n, refl)) _)),
  )

  qot-QuoteData : (qot : BasicQot F) → QuoteData (get_basic_qot_item qot)
  unfolding get_item set_item set_items
  qot-QuoteData qot = (
    (_, refl, (_, refl)),
    (_, refl, (_, refl)),
    (_, refl, (_, refl)),
    (_, refl, (_, refl)),
    (_, refl, (_, refl)),
  )

  ticker-TradeData : (ticker : Ticker F) → TradeData (get_ticker_item ticker)
  unfolding get_item set_item set_items
  ticker-TradeData ticker = by_time ticker.timestamp
    where
      by_time : (o : Option F) → TradeData (get_ticker_item (record ticker { timestamp = o }))
      by_time none =
          ((_, refl, (_, refl)), (_, refl, (_, refl)), (_, refl, (_, refl)), (_, refl, (_, refl)))
      by_time (some x) =
          ((_, refl, (_, refl)), (_, refl, (_, refl)), (_, refl, (_, refl)), (_, refl, (_, refl)))

  kl-BarData : (kl : KLine F) → BarData (get_history_kl_item kl)
  unfolding get_item set_item set_items
  kl-BarData kl = (
    (_, refl, (_, refl)),
    (_, refl, opt-float _),
    (_, refl, opt-float _),
    (_, refl, opt-float _),
    (_, refl, opt-float _),
    (_, refl, opt-int _),
    (_, refl, opt-float _),
  )

  -- The dicts that get_order_list, get_order_fill_list, get_position_list, get_acc_list,
  -- get_basic_qot, get_ticker and get_history_kl put into their lists have the keys that the Python
  -- package reads there, each with the type that it expects.
  pub answers_typed :
      (order : Order F) (fill : OrderFill F) (position : Position F) (acc : TrdAcc)
      (qot : BasicQot F) (ticker : Ticker F) (kl : KLine F)
      → OrderData (get_order_list_item order)
        × FillData (get_order_fill_list_item fill)
        × PositionData (get_position_list_item position)
        × AccountData {F = F} (get_acc_list_item acc)
        × QuoteData (get_basic_qot_item qot)
        × TradeData (get_ticker_item ticker)
        × BarData (get_history_kl_item kl)
  answers_typed order fill position acc qot ticker kl = (
    order-OrderData order,
    fill-FillData fill,
    position-PositionData position,
    acc-AccountData acc,
    qot-QuoteData qot,
    ticker-TradeData ticker,
    kl-BarData kl,
  )
