-- ===== src/Trade/Order/Packet.antt =====
-- The packet ids of trade/order.rs and the serial numbers of the frames that carry them.
use nautilus_futu.Prelude.{ℕ, ◌+◌, ◌%◌, ◌<◌, ◌≡◌, ◌≢◌, refl, List, ◌∷◌, Bool, Option, Result, arith}
use nautilus_futu.Prelude.Words.{ℤ, u32_mod}
use nautilus_futu.Prelude.Text.{Text}
use nautilus_futu.Protocol.Codec.{FutuMessage}
use nautilus_futu.Protocol.Encryption.{Aes128}
use nautilus_futu.Client.Connection.{
  ConnectionError, Written, next_serial, send_with_serial, outgoing, body_to_send,
}
use nautilus_futu.Client.Session
use nautilus_futu.Client.Session.{FutuClient}
use nautilus_futu.Generated.Common.{PacketId}
use nautilus_futu.Generated.Trade.{TrdPlaceOrderC2s, TrdModifyOrderC2s}
use nautilus_futu.Request.{Requester, Wire, Errors, exchange}
use nautilus_futu.Request.Session.{Line, request, take_serial, requester}
use nautilus_futu.Trade.Account.{trade_errors}
use nautilus_futu.Trade.Order.{
  place_order, place_order_c2s, modify_order, modify_order_c2s, proto_trd_place_order,
  proto_trd_modify_order,
}

-- The message with this id, serial number and body, as it goes out over the line.
abbrev pub on_wire : Aes128 → Line → ℕ → ℕ → List ℕ → FutuMessage
on_wire aes l proto_id serial_no body = record {
  proto_id = proto_id;
  serial_no = serial_no;
  body = body_to_send aes l.client.conn.cipher body;
}

abbrev pub serial : Line → ℕ
serial l = l.client.conn.serial_counter

abbrev pub next : ℕ → ℕ
next s = (s + 1) % u32_mod

-- The first serial number goes into the packet id, with the connection's id, and the next one,
-- which is another, onto the frame; nothing else is sent.
abbrev pub Ordered : Aes128 → ℕ → Line → PacketId → List ℕ → List FutuMessage → Type 0
Ordered aes proto_id l packet_id body sent =
    (packet_id ≡ record { conn_id = l.client.conn.conn_id; serial_no = serial l })
    × (sent ≡ on_wire aes l proto_id (next (serial l)) body ∷ l.sent)
    × (serial l ≢ next (serial l))

next-ne : (s : ℕ) → s < u32_mod → s ≢ next s
next-ne s h e = omega arith

module _ (aes : Aes128) (tx : ℕ) (written : Written)
    (answer : FutuClient → Result ConnectionError FutuMessage × FutuClient) where
  abbrev line : Requester Line
  line = requester aes tx written answer

  exchange_sent :
      {E C S : Type 0} (errors : Errors E) (w : Wire C S) (proto_id : ℕ) (c2s : C) (l : Line)
      → (exchange line errors w proto_id c2s (line.next_serial l).1).1.sent
        ≡ on_wire aes l proto_id (next (serial l)) (w.encode_to_vec c2s) ∷ l.sent
  unfolding exchange request take_serial Session.request next_serial send_with_serial outgoing
  exchange_sent errors w proto_id c2s l = refl

  -- Over a client whose counter is 32-bit, `place_order` sends one message: its packet id is the
  -- connection's id with the counter, and its frame has the next serial number, which is another.
  pub place_order-Ordered :
      {F S : Type 0} (w : Wire (TrdPlaceOrderC2s F) S) (trd_env : ℤ) (acc_id : ℕ)
      (trd_market trd_side order_type : ℤ) (code : Text) (qty : F) (price adjust_limit : Option F)
      (sec_market : Option ℤ) (remark : Option Text) (time_in_force : Option ℤ)
      (fill_outside_rth : Option Bool) (aux_price : Option F) (trail_type : Option ℤ)
      (trail_value trail_spread : Option F) (l : Line)
      → serial l < u32_mod
      → Ordered aes proto_trd_place_order l
          (place_order_c2s line trd_env acc_id trd_market trd_side order_type code qty price
            adjust_limit sec_market remark time_in_force fill_outside_rth aux_price trail_type
            trail_value trail_spread
            (serial l)
            l).packet_id
          (w.encode_to_vec (
            place_order_c2s line trd_env acc_id trd_market trd_side order_type code qty price
              adjust_limit sec_market remark time_in_force fill_outside_rth aux_price trail_type
              trail_value trail_spread
              (serial l)
              l))
          (place_order line w trd_env acc_id trd_market trd_side order_type code qty price
            adjust_limit sec_market remark time_in_force fill_outside_rth aux_price trail_type
            trail_value trail_spread l).1.sent
  unfolding place_order
  place_order-Ordered w trd_env acc_id trd_market trd_side order_type code qty price adjust_limit
        sec_market remark time_in_force fill_outside_rth aux_price trail_type trail_value
        trail_spread l h =
      (
        unfold place_order_c2s in refl,
        unfold take_serial next_serial in
            exchange_sent trade_errors w proto_trd_place_order
              (place_order_c2s line trd_env acc_id trd_market trd_side order_type code qty price
                adjust_limit sec_market remark time_in_force fill_outside_rth aux_price trail_type
                trail_value trail_spread (serial l) l)
              l,
        next-ne (serial l) h,
      )

  -- Over a client whose counter is 32-bit, `modify_order` sends one message: its packet id is the
  -- connection's id with the counter, and its frame has the next serial number, which is another.
  modify_order-Ordered :
      {F S : Type 0} (w : Wire (TrdModifyOrderC2s F) S) (trd_env : ℤ) (acc_id : ℕ) (trd_market : ℤ)
      (order_id : ℕ) (modify_order_op : ℤ) (qty price adjust_limit : Option F) (l : Line)
      → serial l < u32_mod
      → Ordered aes proto_trd_modify_order l
          (modify_order_c2s line trd_env acc_id trd_market order_id modify_order_op qty price
            adjust_limit
            (serial l)
            l).packet_id
          (w.encode_to_vec (
            modify_order_c2s line trd_env acc_id trd_market order_id modify_order_op qty price
              adjust_limit
              (serial l)
              l))
          (modify_order line w trd_env acc_id trd_market order_id modify_order_op qty price
            adjust_limit l).1.sent
  unfolding modify_order
  modify_order-Ordered w trd_env acc_id trd_market order_id modify_order_op qty price adjust_limit l
        h =
      (
        unfold modify_order_c2s in refl,
        unfold take_serial next_serial in
            exchange_sent trade_errors w proto_trd_modify_order
              (modify_order_c2s line trd_env acc_id trd_market order_id modify_order_op qty price
                adjust_limit (serial l) l)
              l,
        next-ne (serial l) h,
      )
