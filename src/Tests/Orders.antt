-- ===== src/Tests/Orders.antt =====
-- Orders over a connected client, at concrete inputs.
use nautilus_futu.Prelude.{refl, ℕ, List, [], ◌∷◌, none, some, Result, ok, arith}
use nautilus_futu.Prelude.Words.{pos}
use nautilus_futu.Prelude.Text.{ascii}
use nautilus_futu.Protocol.Codec.{FutuMessage}
use nautilus_futu.Client.Connection.{ConnectionError}
use nautilus_futu.Client.Session.{FutuClient, asks, yields}
use nautilus_futu.Generated.Common.{PacketId}
use nautilus_futu.Generated.Trade.{TrdPlaceOrderC2s, TrdModifyOrderC2s}
use nautilus_futu.Request.{Requester, Wire}
use nautilus_futu.Request.Session.{Line, requester}
use nautilus_futu.Trade.Order.{
  place_order, place_order_c2s, modify_order_c2s, proto_trd_place_order,
}
use nautilus_futu.Trade.Order.Packet.{Ordered, place_order-Ordered}
use nautilus_futu.Trade.Order.Runs.{
  Await, OrderTurn, happens, places, modifies, numbers, asked_in, Ascending, packets-Ascending,
}
use nautilus_futu.Tests.Samples.{aes, client, encode_request, message, all_open}

-- The server answers at once.
abbrev answer : FutuClient → Result ConnectionError FutuMessage × FutuClient
answer c = (ok (message 2202 3 []), c)

abbrev line : Requester Line
line = requester aes 10 none answer

abbrev start : Line
start = record { client = client; sent = [] }

-- Prices are numbers of cents.
abbrev place : Wire (TrdPlaceOrderC2s ℕ) ℕ
place = record {
  encode_to_vec = λ c. c.packet_id.conn_id ∷ c.packet_id.serial_no ∷ c.qty ∷ [];
  decode = λ bytes. ok (record { ret_type = pos 0; ret_msg = none; err_code = none; s2c = some 5 });
}

abbrev modify : Wire (TrdModifyOrderC2s ℕ) ℕ
modify = record {
  encode_to_vec = λ c. c.packet_id.conn_id ∷ c.packet_id.serial_no ∷ c.order_id ∷ [];
  decode = λ bytes. ok (record { ret_type = pos 0; ret_msg = none; err_code = none; s2c = some 5 });
}

place_order-Ordered_example :
    Ordered aes proto_trd_place_order start
      (place_order_c2s line {F = ℕ}
        (pos 0)
        42
        (pos 1)
        (pos 1)
        (pos 1)
        (ascii "00700")
        100
        (some 35000)
        none
        none
        none
        none
        none
        none
        none
        none
        none
        2
        start).packet_id
      (place.encode_to_vec (
        place_order_c2s line {F = ℕ}
          (pos 0)
          42
          (pos 1)
          (pos 1)
          (pos 1)
          (ascii "00700")
          100
          (some 35000)
          none
          none
          none
          none
          none
          none
          none
          none
          none
          2
          start))
      (place_order line place
        (pos 0)
        42
        (pos 1)
        (pos 1)
        (pos 1)
        (ascii "00700")
        100
        (some 35000)
        none
        none
        none
        none
        none
        none
        none
        none
        none
        start).1.sent
place_order-Ordered_example =
    place_order-Ordered aes 10 none answer place (pos 0) 42 (pos 1) (pos 1) (pos 1) (ascii "00700")
      100 (some 35000) none none none none none none none none none start (omega arith)

abbrev shares : TrdPlaceOrderC2s ℕ
shares =
    place_order_c2s line (pos 0) 42 (pos 1) (pos 1) (pos 1) (ascii "00700") 100 (some 35000) none
      none none none none none none none none 0 start

abbrev cheaper : TrdModifyOrderC2s ℕ
cheaper = modify_order_c2s line (pos 0) 42 (pos 1) 77 (pos 2) none (some 34000) none 0 start

-- A push comes while the order waits.
abbrev in_time : Await
in_time = record {
  tx = 10;
  written = none;
  meanwhile = yields all_open (some (ok (message 3007 0 []))) ∷ [];
  reply = ok (message 2202 3 []);
}

-- Two orders, another request between them, and a change of an order.
abbrev turns : List (OrderTurn ℕ)
turns =
    places shares in_time
    ∷ happens (asks 3004 [] 11 none)
    ∷ modifies cheaper in_time
    ∷ places shares in_time
    ∷ []

abbrev packet_of : ℕ → List ℕ → PacketId
packet_of proto_id [] = record { conn_id = 0; serial_no = 0 }
packet_of proto_id (c ∷ []) = record { conn_id = c; serial_no = 0 }
packet_of proto_id (c ∷ n ∷ bytes) = record { conn_id = c; serial_no = n }

packets-Ascending_example : Ascending (
    numbers aes encode_request place modify packet_of
      (λ o. refl)
      (λ o. refl)
      (asked_in aes encode_request place modify turns start))
packets-Ascending_example =
    packets-Ascending aes encode_request place modify packet_of (λ o. refl) (λ o. refl) turns start
      (omega arith)
