-- ===== src/Trade/Order.antt =====
-- crates/futu/src/trade/order.rs: an order takes two serial numbers, the first for its packet id
-- and the second for its frame. `F` is the type of `f64`.
pub mod Packet
pub mod Runs
use nautilus_futu.Prelude.{ℕ, Bool, Option, Result, none}
use nautilus_futu.Prelude.Words.{ℤ}
use nautilus_futu.Prelude.Text.{Text}
use nautilus_futu.Generated.Trade.{TrdPlaceOrderC2s, TrdModifyOrderC2s}
use nautilus_futu.Generated.Common.{Response}
use nautilus_futu.Request.{Requester, Wire, exchange}
use nautilus_futu.Trade.Account.{TradeError, trade_errors}

abbrev pub proto_trd_place_order : ℕ
proto_trd_place_order = 2202

abbrev pub proto_trd_modify_order : ℕ
proto_trd_modify_order = 2205

module _ {σ : Type 0} (t : Requester σ) where
  unfoldable pub place_order_c2s :
      {F : Type 0}
      → ℤ
      → ℕ
      → ℤ
      → ℤ
      → ℤ
      → Text
      → F
      → Option F
      → Option F
      → Option ℤ
      → Option Text
      → Option ℤ
      → Option Bool
      → Option F
      → Option ℤ
      → Option F
      → Option F
      → ℕ
      → σ
      → TrdPlaceOrderC2s F
  place_order_c2s trd_env acc_id trd_market trd_side order_type code qty price adjust_limit
        sec_market remark time_in_force fill_outside_rth aux_price trail_type trail_value
        trail_spread serial_no st =
      record {
        packet_id = record { conn_id = t.conn_id st; serial_no = serial_no };
        header = record { trd_env = trd_env; acc_id = acc_id; trd_market = trd_market };
        trd_side = trd_side;
        order_type = order_type;
        code = code;
        qty = qty;
        price = price;
        adjust_price = none;
        adjust_side_and_limit = adjust_limit;
        sec_market = sec_market;
        remark = remark;
        time_in_force = time_in_force;
        fill_outside_rth = fill_outside_rth;
        aux_price = aux_price;
        trail_type = trail_type;
        trail_value = trail_value;
        trail_spread = trail_spread;
        session = none;
      }

  unfoldable pub place_order :
      {F S : Type 0}
      → Wire (TrdPlaceOrderC2s F) S
      → ℤ
      → ℕ
      → ℤ
      → ℤ
      → ℤ
      → Text
      → F
      → Option F
      → Option F
      → Option ℤ
      → Option Text
      → Option ℤ
      → Option Bool
      → Option F
      → Option ℤ
      → Option F
      → Option F
      → σ
      → Result TradeError (Response S) × σ
  unfolding place_order_c2s
  place_order w trd_env acc_id trd_market trd_side order_type code qty price adjust_limit sec_market
        remark time_in_force fill_outside_rth aux_price trail_type trail_value trail_spread st =
      let (serial_no, st') = t.next_serial st in
      exchange t trade_errors w proto_trd_place_order
        (place_order_c2s trd_env acc_id trd_market trd_side order_type code qty price adjust_limit
          sec_market remark time_in_force fill_outside_rth aux_price trail_type trail_value
          trail_spread serial_no st)
        st'

  unfoldable pub modify_order_c2s :
      {F : Type 0}
      → ℤ
      → ℕ
      → ℤ
      → ℕ
      → ℤ
      → Option F
      → Option F
      → Option F
      → ℕ
      → σ
      → TrdModifyOrderC2s F
  modify_order_c2s trd_env acc_id trd_market order_id modify_order_op qty price adjust_limit
        serial_no st =
      record {
        packet_id = record { conn_id = t.conn_id st; serial_no = serial_no };
        header = record { trd_env = trd_env; acc_id = acc_id; trd_market = trd_market };
        order_id = order_id;
        modify_order_op = modify_order_op;
        for_all = none;
        trd_market = none;
        qty = qty;
        price = price;
        adjust_price = none;
        adjust_side_and_limit = adjust_limit;
        aux_price = none;
        trail_type = none;
        trail_value = none;
        trail_spread = none;
        order_id_ex = none;
      }

  unfoldable pub modify_order :
      {F S : Type 0}
      → Wire (TrdModifyOrderC2s F) S
      → ℤ
      → ℕ
      → ℤ
      → ℕ
      → ℤ
      → Option F
      → Option F
      → Option F
      → σ
      → Result TradeError (Response S) × σ
  unfolding modify_order_c2s
  modify_order w trd_env acc_id trd_market order_id modify_order_op qty price adjust_limit st =
      let (serial_no, st') = t.next_serial st in
      exchange t trade_errors w proto_trd_modify_order
        (modify_order_c2s trd_env acc_id trd_market order_id modify_order_op qty price adjust_limit
          serial_no st)
        st'
