-- ===== src/Trade/Order/Runs.antt =====
-- The packet ids of trade/order.rs over a session of client/mod.rs: orders, and whatever else
-- happens before, between and while they wait.
use mathlib.Core.List.{map-append}
use nautilus_futu.Prelude.{
  ℕ, ◌+◌, ◌≤◌, ◌<◌, ◌≡◌, refl, sym, ap, subst, List, [], ◌∷◌, ◌++◌, map, ◌⊎◌, inl, inr, Result, ok,
  err, arith, length,
}
use nautilus_futu.Prelude.Words.{ℤ, u32_mod}
use nautilus_futu.Protocol.Codec.{FutuMessage}
use nautilus_futu.Protocol.Encryption.{Aes128}
use nautilus_futu.Client.Connection.{ConnectionError, Written, next_serial}
use nautilus_futu.Client.Interleave.Numbers.{step-Near}
use nautilus_futu.Client.Session
use nautilus_futu.Client.Session.{FutuClient, Event}
use nautilus_futu.Generated.Common.{PacketId}
use nautilus_futu.Generated.Trade.{TrdPlaceOrderC2s, TrdModifyOrderC2s}
use nautilus_futu.Request.{Requester, Wire, Errors, exchange}
use nautilus_futu.Request.Session.{Line, request, take_serial, requester, replied}
use nautilus_futu.Trade.Order.{
  place_order, place_order_c2s, modify_order, modify_order_c2s, proto_trd_place_order,
  proto_trd_modify_order,
}
use nautilus_futu.Trade.Account.{trade_errors}
use nautilus_futu.Trade.Order.Packet.{serial}

-- What a request meets: the sender of its channel, the outcome of its write, the events of the
-- session while it waits, and what comes through its channel.
pub record Await : Type 0 where
  pub tx : ℕ
  pub written : Written
  pub meanwhile : List Event
  pub reply : Result ConnectionError FutuMessage

-- An event of the session, or an order, whose arguments are the fields of a message; the packet id
-- in it is not looked at.
pub data OrderTurn (F : Type 0) : Type 0 where
  happens : Event → OrderTurn F
  places : TrdPlaceOrderC2s F → Await → OrderTurn F
  modifies : TrdModifyOrderC2s F → Await → OrderTurn F

abbrev pub AllFrom : ℕ → List ℕ → Type 0
AllFrom n [] = Unit {0}
AllFrom n (m ∷ ms) = (n ≤ m) × AllFrom n ms

-- Each number is smaller than all that come after it.
abbrev pub Ascending : List ℕ → Type 0
Ascending [] = Unit {0}
Ascending (n ∷ ns) = AllFrom (n + 1) ns × Ascending ns

AllFrom-le : (n m : ℕ) (ms : List ℕ) → n ≤ m → AllFrom m ms → AllFrom n ms
AllFrom-le n m [] le u = tt
AllFrom-le n m (k ∷ ms) le (h, rest) = (omega arith, AllFrom-le n m ms le rest)

-- At most one number, below the others.
join :
    (n m : ℕ) (ns ms : List ℕ)
    → n ≤ m
    → (ns ≡ []) ⊎ ((ns ≡ n ∷ []) × (n < m))
    → AllFrom m ms
    → Ascending ms
    → AllFrom n (ns ++ ms) × Ascending (ns ++ ms)
join n m ns ms le (inl e) from up =
    subst (λ k. AllFrom n (k ++ ms) × Ascending (k ++ ms)) (sym e) (AllFrom-le n m ms le from, up)
join n m ns ms le (inr (e, lt)) from up =
    subst (λ k. AllFrom n (k ++ ms) × Ascending (k ++ ms)) (sym e)
      ((omega arith, AllFrom-le n m ms le from), (AllFrom-le (n + 1) m ms (omega arith) from, up))

-- A line, and the requests that functions made over it: protocol ids and bodies, newest first.
pub record Recorded : Type 0 where
  pub line : Line
  pub asked : List (ℕ × List ℕ)

-- A requester that also notes what it is asked to send.
abbrev recording : Requester Line → Requester Recorded
recording t = record {
  request = λ proto_id body s.
      let (reply, l) = t.request proto_id body s.line in
      (reply, record { line = l; asked = (proto_id, body) ∷ s.asked });
  next_serial =
      λ s. let (serial_no, l) = t.next_serial s.line in (serial_no, record s { line = l });
  conn_id = λ s. t.conn_id s.line;
}

module _ {F S T : Type 0} (aes : Aes128) (encode_request : ℤ → List ℕ)
    (place : Wire (TrdPlaceOrderC2s F) S) (modify : Wire (TrdModifyOrderC2s F) T) where
  abbrev requester_of : Await → Requester Recorded
  requester_of a = recording (
      requester aes a.tx a.written
        (λ c. (a.reply, (Session.run aes encode_request a.meanwhile c).0)))

  -- A turn, with what its order asks to send.
  abbrev turn : OrderTurn F → Line → Recorded
  turn (happens e) l = record {
    line = record l { client = (Session.step aes encode_request e l.client).0 };
    asked = [];
  }
  turn (places o a) l =
      (place_order (requester_of a) place o.header.trd_env o.header.acc_id o.header.trd_market
        o.trd_side o.order_type o.code o.qty o.price o.adjust_side_and_limit o.sec_market o.remark
        o.time_in_force o.fill_outside_rth o.aux_price o.trail_type o.trail_value o.trail_spread
        (record { line = l; asked = [] })).1
  turn (modifies o a) l =
      (modify_order (requester_of a) modify o.header.trd_env o.header.acc_id o.header.trd_market
        o.order_id o.modify_order_op o.qty o.price o.adjust_side_and_limit
        (record { line = l; asked = [] })).1

  -- What the orders of a session ask to send, in order.
  abbrev pub asked_in : List (OrderTurn F) → Line → List (ℕ × List ℕ)
  asked_in [] l = []
  asked_in (t ∷ ts) l = (turn t l).asked ++ asked_in ts (turn t l).line

  -- The numbers that a turn may take.
  abbrev pub taken_by : OrderTurn F → ℕ
  taken_by (happens e) = 1
  taken_by (places o a) = length a.meanwhile + 2
  taken_by (modifies o a) = length a.meanwhile + 2

  abbrev pub taken : List (OrderTurn F) → ℕ
  taken [] = 0
  taken (t ∷ ts) = taken_by t + taken ts

  -- From `n` to at most `k` more.
  abbrev Within : ℕ → ℕ → ℕ → Type 0
  Within k n m = (n ≤ m) × (m ≤ n + k)

  abbrev Later : ℕ → ℕ → ℕ → Type 0
  Later k n m = (n < m) × (m ≤ n + k)

  run-Within :
      (es : List Event) (c : FutuClient)
      → c.conn.serial_counter + length es < u32_mod
      → Within
          (length es)
          c.conn.serial_counter
          (Session.run aes encode_request es c).0.conn.serial_counter
  unfolding Session.run
  run-Within [] c lt = (omega arith, omega arith)
  run-Within (e ∷ es) c lt =
      let (lo, hi) = step-Near aes encode_request e c (omega arith) in
      let (lo', hi') = run-Within es (Session.step aes encode_request e c).0 (omega arith) in
      (omega arith, omega arith)

  -- The counter after the two numbers of an order and the events while it waits.
  replied-Within :
      (a : Await) (sent : Result ConnectionError (Unit {0})) (c : FutuClient) (n : ℕ)
      → n + (length a.meanwhile + 2) < u32_mod
      → c.conn.serial_counter ≡ n + 2
      → let m =
          (replied
            (λ c. (a.reply, (Session.run aes encode_request a.meanwhile c).0))
            sent
            c).1.conn.serial_counter in
        Later (length a.meanwhile + 2) n m
  replied-Within a (err e) c n lt e2 = (omega arith, omega arith)
  replied-Within a (ok u) c n lt e2 =
      let (lo, hi) = run-Within a.meanwhile c (omega arith) in (omega arith, omega arith)

  exchange-Within :
      {E C R : Type 0} (errors : Errors E) (w : Wire C R) (proto_id : ℕ) (c2s : C) (a : Await)
      (s : Recorded)
      → serial s.line + (length a.meanwhile + 2) < u32_mod
      → Later (length a.meanwhile + 2) (serial s.line) (
          serial
            (exchange
              (requester_of a)
              errors
              w
              proto_id
              c2s
              ((requester_of a).next_serial s).1).1.line)
  unfolding exchange request take_serial Session.request next_serial
  exchange-Within errors w proto_id c2s a s lt =
      let body = w.encode_to_vec c2s in
      let l = ((requester_of a).next_serial s).1.line in
      let r = Session.request aes proto_id body a.tx a.written l.client in
      replied-Within a r.result r.client (serial s.line) lt (omega arith)

  -- The packet ids of what is sent: how the decoder that `prost` derives reads them.
  module _ (packet_of : ℕ → List ℕ → PacketId)
      (read_placed : (o : TrdPlaceOrderC2s F)
        → packet_of proto_trd_place_order (place.encode_to_vec o) ≡ o.packet_id)
      (read_modified : (o : TrdModifyOrderC2s F)
        → packet_of proto_trd_modify_order (modify.encode_to_vec o) ≡ o.packet_id) where
    abbrev pub numbers : List (ℕ × List ℕ) → List ℕ
    numbers asked = map (λ q. (packet_of q.0 q.1).serial_no) asked

    -- What a turn does to the counter, and the numbers of its packet ids.
    abbrev Counted : OrderTurn F → Line → Recorded → Type 0
    Counted t l s =
        (serial l ≤ serial s.line)
        × (serial s.line ≤ serial l + taken_by t)
        × ((numbers s.asked ≡ [])
            ⊎ ((numbers s.asked ≡ serial l ∷ []) × (serial l < serial s.line)))

    order-Counted :
        (t : OrderTurn F) (l : Line) (s : Recorded)
        → numbers s.asked ≡ serial l ∷ []
        → Later (taken_by t) (serial l) (serial s.line)
        → Counted t l s
    order-Counted t l s e (lo, hi) = (omega arith, hi, inr (e, lo))

    step-Counted :
        (t : OrderTurn F) (l : Line) → serial l + taken_by t < u32_mod → Counted t l (turn t l)
    unfolding place_order modify_order
    step-Counted (happens e) l lt =
        let (lo, hi) = step-Near aes encode_request e l.client (omega arith) in (lo, hi, inl refl)
    step-Counted (places o a) l lt =
        order-Counted (places o a) l (turn (places o a) l)
          (unfold exchange place_order_c2s take_serial next_serial in
            ap (λ p. p.serial_no ∷ []) (read_placed _))
          (exchange-Within trade_errors place proto_trd_place_order _ a
            (record { line = l; asked = [] }) lt)
    step-Counted (modifies o a) l lt =
        order-Counted (modifies o a) l (turn (modifies o a) l)
          (unfold exchange modify_order_c2s take_serial next_serial in
            ap (λ p. p.serial_no ∷ []) (read_modified _))
          (exchange-Within trade_errors modify proto_trd_modify_order _ a
            (record { line = l; asked = [] }) lt)

    run-Ascending :
        (ts : List (OrderTurn F)) (l : Line)
        → serial l + taken ts < u32_mod
        → AllFrom (serial l) (numbers (asked_in ts l)) × Ascending (numbers (asked_in ts l))
    run-Ascending [] l lt = (tt, tt)
    run-Ascending (t ∷ ts) l lt =
        let s = turn t l in
        let (lo, hi, ns) = step-Counted t l (omega arith) in
        let (from, up) = run-Ascending ts s.line (omega arith) in
        subst (λ ns. AllFrom (serial l) ns × Ascending ns)
          (sym (map-append (λ q. (packet_of q.0 q.1).serial_no) s.asked (asked_in ts s.line)))
          (join (serial l) (serial s.line) (numbers s.asked) (numbers (asked_in ts s.line)) lo ns
            from up)

    -- In a session with orders, one after the other, and any other events between them and while
    -- they wait, if the counter and the numbers that all these can take are together below 2 ^ 32,
    -- and packet ids are read back from the encoded messages as they were put in: the serial number
    -- in the packet id of each message that an order sends is smaller than those of all later ones,
    -- so that no two packet ids are the same.
    pub packets-Ascending :
        (ts : List (OrderTurn F)) (l : Line)
        → serial l + taken ts < u32_mod
        → Ascending (numbers (asked_in ts l))
    packets-Ascending ts l lt = (run-Ascending ts l lt).1
