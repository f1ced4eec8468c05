-- ===== src/Python/Methods/Orders.antt =====
-- crates/futu/src/python/client.rs: the methods of `PyFutuClient` on orders and their fills, and
-- the dicts that they make. `F` is the type of `f64`.
use nautilus_futu.Prelude.{ℕ, Option, List, Result, map, none, [], ◌∷◌}
use nautilus_futu.Prelude.Words.{ℤ}
use nautilus_futu.Prelude.Text.{Text, ascii}
use nautilus_futu.Generated.Trade.{
  TrdPlaceOrderC2s, TrdModifyOrderC2s, TrdGetOrderListC2s, TrdGetOrderFillListC2s,
  TrdGetHistoryOrderListC2s, TrdGetHistoryOrderFillListC2s, TrdGetOrderFeeC2s,
}
use nautilus_futu.Generated.Answer.Account.{Order, OrderFill, OrderFeeItem, OrderFee}
use nautilus_futu.Generated.Answer.Trade.{
  TrdPlaceOrderS2c, TrdGetOrderListS2c, TrdGetOrderFillListS2c, TrdGetHistoryOrderListS2c,
  TrdGetHistoryOrderFillListS2c, TrdGetOrderFeeS2c,
}
use nautilus_futu.Generated.Common.{Response}
use nautilus_futu.Request.{Requester, Wire}
use nautilus_futu.Trade.Order
use nautilus_futu.Trade.Query
use nautilus_futu.Python.{PyError, trade_failed}
use nautilus_futu.Python.Methods.{call}
use nautilus_futu.Python.Object.{Py, dict_of, list_of, opt, uint, when, unwrap_or, int, float, str}

module _ {F : Type 0} where
  abbrev pub place_order_dict : Response TrdPlaceOrderS2c → Py F
  place_order_dict response = dict_of (
      when response.s2c (λ s2c.
        ("order_id", opt uint s2c.order_id) ∷ ("order_id_ex", opt str s2c.order_id_ex) ∷ []))

  abbrev pub get_order_list_item : Order F → Py F
  get_order_list_item order = dict_of (
      ("trd_side", int order.trd_side)
      ∷ ("order_type", int order.order_type)
      ∷ ("order_status", int order.order_status)
      ∷ ("order_id", uint order.order_id)
      ∷ ("order_id_ex", str order.order_id_ex)
      ∷ ("code", str order.code)
      ∷ ("name", str order.name)
      ∷ ("qty", float order.qty)
      ∷ ("price", opt float order.price)
      ∷ ("create_time", str order.create_time)
      ∷ ("update_time", str order.update_time)
      ∷ ("fill_qty", opt float order.fill_qty)
      ∷ ("fill_avg_price", opt float order.fill_avg_price)
      ∷ ("sec_market", opt int order.sec_market)
      ∷ ("create_timestamp", opt float order.create_timestamp)
      ∷ ("update_timestamp", opt float order.update_timestamp)
      ∷ ("time_in_force", opt int order.time_in_force)
      ∷ ("remark", opt str order.remark)
      ∷ ("last_err_msg", opt str order.last_err_msg)
      ∷ [])

  abbrev pub get_order_fill_list_item : OrderFill F → Py F
  get_order_fill_list_item fill = dict_of (
      ("trd_side", int fill.trd_side)
      ∷ ("fill_id", uint fill.fill_id)
      ∷ ("fill_id_ex", str fill.fill_id_ex)
      ∷ ("order_id", opt uint fill.order_id)
      ∷ ("order_id_ex", opt str fill.order_id_ex)
      ∷ ("code", str fill.code)
      ∷ ("name", str fill.name)
      ∷ ("qty", float fill.qty)
      ∷ ("price", float fill.price)
      ∷ ("create_time", str fill.create_time)
      ∷ ("create_timestamp", opt float fill.create_timestamp)
      ∷ ("update_timestamp", opt float fill.update_timestamp)
      ∷ ("sec_market", opt int fill.sec_market)
      ∷ ("status", opt int fill.status)
      ∷ [])

  abbrev get_history_order_list_item : Order F → Py F
  get_history_order_list_item order = dict_of (
      ("trd_side", int order.trd_side)
      ∷ ("order_type", int order.order_type)
      ∷ ("order_status", int order.order_status)
      ∷ ("order_id", uint order.order_id)
      ∷ ("order_id_ex", str order.order_id_ex)
      ∷ ("code", str order.code)
      ∷ ("name", str order.name)
      ∷ ("qty", float order.qty)
      ∷ ("price", opt float order.price)
      ∷ ("create_time", str order.create_time)
      ∷ ("update_time", str order.update_time)
      ∷ ("fill_qty", opt float order.fill_qty)
      ∷ ("fill_avg_price", opt float order.fill_avg_price)
      ∷ ("sec_market", opt int order.sec_market)
      ∷ ("create_timestamp", opt float order.create_timestamp)
      ∷ ("update_timestamp", opt float order.update_timestamp)
      ∷ ("time_in_force", opt int order.time_in_force)
      ∷ ("remark", opt str order.remark)
      ∷ [])

  abbrev get_history_order_fill_list_item : OrderFill F → Py F
  get_history_order_fill_list_item fill = dict_of (
      ("trd_side", int fill.trd_side)
      ∷ ("fill_id", uint fill.fill_id)
      ∷ ("fill_id_ex", str fill.fill_id_ex)
      ∷ ("order_id", opt uint fill.order_id)
      ∷ ("order_id_ex", opt str fill.order_id_ex)
      ∷ ("code", str fill.code)
      ∷ ("name", str fill.name)
      ∷ ("qty", float fill.qty)
      ∷ ("price", float fill.price)
      ∷ ("create_time", str fill.create_time)
      ∷ ("create_timestamp", opt float fill.create_timestamp)
      ∷ ("update_timestamp", opt float fill.update_timestamp)
      ∷ ("sec_market", opt int fill.sec_market)
      ∷ ("status", opt int fill.status)
      ∷ [])

  abbrev get_order_fee_fee_list : OrderFeeItem F → Py F
  get_order_fee_fee_list item =
      dict_of (("title", opt str item.title) ∷ ("value", opt float item.value) ∷ [])

  abbrev get_order_fee_item : OrderFee F → Py F
  get_order_fee_item fee = dict_of (
      ("order_id_ex", str fee.order_id_ex)
      ∷ ("fee_amount", opt float fee.fee_amount)
      ∷ ("fee_list", list_of get_order_fee_fee_list fee.fee_list)
      ∷ [])

module _ {σ : Type 0} (t : Requester σ) where
  unfoldable pub place_order :
      {F : Type 0}
      → Wire (TrdPlaceOrderC2s F) TrdPlaceOrderS2c
      → ℤ
      → ℕ
      → ℤ
      → ℤ
      → ℤ
      → Text
      → F
      → Option F
      → Option ℤ
      → Option σ
      → Result PyError (Py F) × Option σ
  unfolding call
  place_order w trd_env acc_id trd_market trd_side order_type code qty price sec_market client =
      call (trade_failed (ascii "Place order failed"))
        (Order.place_order t w trd_env acc_id trd_market trd_side order_type code qty price none
          sec_market none none none none none none none)
        place_order_dict client

  unfoldable pub modify_order :
      {F S : Type 0}
      → Wire (TrdModifyOrderC2s F) S
      → ℤ
      → ℕ
      → ℤ
      → ℕ
      → ℤ
      → Option F
      → Option F
      → Option σ
      → Result PyError (Unit {0}) × Option σ
  unfolding call
  modify_order w trd_env acc_id trd_market order_id modify_op qty price client =
      call (trade_failed (ascii "Modify order failed"))
        (Order.modify_order t w trd_env acc_id trd_market order_id modify_op qty price none)
        (λ u. tt) client

  unfoldable pub get_order_list :
      {F : Type 0}
      → Wire TrdGetOrderListC2s (TrdGetOrderListS2c F)
      → ℤ
      → ℕ
      → ℤ
      → Option σ
      → Result PyError (List (Py F)) × Option σ
  unfolding call
  get_order_list w trd_env acc_id trd_market client =
      call (trade_failed (ascii "Get order list failed"))
        (Query.get_order_list t w trd_env acc_id trd_market none)
        (λ response. when response.s2c (λ s2c. map get_order_list_item s2c.order_list)) client

  unfoldable pub get_order_fill_list :
      {F : Type 0}
      → Wire TrdGetOrderFillListC2s (TrdGetOrderFillListS2c F)
      → ℤ
      → ℕ
      → ℤ
      → Option σ
      → Result PyError (List (Py F)) × Option σ
  unfolding call
  get_order_fill_list w trd_env acc_id trd_market client =
      call (trade_failed (ascii "Get order fill list failed"))
        (Query.get_order_fill_list t w trd_env acc_id trd_market none)
        (λ response. when response.s2c (λ s2c. map get_order_fill_list_item s2c.order_fill_list))
        client

  unfoldable pub get_history_order_list :
      {F : Type 0}
      → Wire TrdGetHistoryOrderListC2s (TrdGetHistoryOrderListS2c F)
      → ℤ
      → ℕ
      → ℤ
      → Option (List ℤ)
      → Option σ
      → Result PyError (List (Py F)) × Option σ
  unfolding call
  get_history_order_list w trd_env acc_id trd_market filter_status_list client =
      call (trade_failed (ascii "Get history order list failed"))
        (Query.get_history_order_list t w trd_env acc_id trd_market none
          (unwrap_or [] filter_status_list))
        (λ response. when response.s2c (λ s2c. map get_history_order_list_item s2c.order_list))
        client

  unfoldable pub get_history_order_fill_list :
      {F : Type 0}
      → Wire TrdGetHistoryOrderFillListC2s (TrdGetHistoryOrderFillListS2c F)
      → ℤ
      → ℕ
      → ℤ
      → Option σ
      → Result PyError (List (Py F)) × Option σ
  unfolding call
  get_history_order_fill_list w trd_env acc_id trd_market client =
      call (trade_failed (ascii "Get history order fill list failed"))
        (Query.get_history_order_fill_list t w trd_env acc_id trd_market none)
        (λ response.
          when response.s2c (λ s2c. map get_history_order_fill_list_item s2c.order_fill_list))
        client

  unfoldable pub get_order_fee :
      {F : Type 0}
      → Wire TrdGetOrderFeeC2s (TrdGetOrderFeeS2c F)
      → ℤ
      → ℕ
      → ℤ
      → List Text
      → Option σ
      → Result PyError (List (Py F)) × Option σ
  unfolding call
  get_order_fee w trd_env acc_id trd_market order_id_ex_list client =
      call (trade_failed (ascii "Get order fee failed"))
        (Query.get_order_fee t w trd_env acc_id trd_market order_id_ex_list)
        (λ response. when response.s2c (λ s2c. map get_order_fee_item s2c.order_fee_list)) client
