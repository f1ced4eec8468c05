-- ===== src/Client/Session.antt =====
-- crates/futu/src/client/mod.rs: the client, its two tasks and its calls. The heartbeat task and
-- the receive loop run beside the calls; their rounds and the calls are the events below, in the
-- order in which they reach the connection and the dispatcher. A handle that is taken and aborted
-- stops its task.
pub mod Calls
pub mod Life
pub mod Late
pub mod Downgrade
pub mod Answer
pub mod Ends
use nautilus_futu.Prelude.{
  ℕ, List, [], ◌∷◌, ◌++◌, Bool, true, false, Option, none, some, Result, ok, err, if◌then◌else◌,
}
use nautilus_futu.Prelude.Words.{ℤ}
use nautilus_futu.Config.{FutuConfig}
use nautilus_futu.Protocol.Codec.{FutuMessage}
use nautilus_futu.Protocol.Encryption.{Aes128}
use nautilus_futu.Client.Connection
use nautilus_futu.Client.Connection.{
  FutuConnection, ConnectionError, disconnected, Written, Frame, next_serial, send_with_serial,
  send_next, recv,
}
use nautilus_futu.Client.Dispatcher
use nautilus_futu.Client.Dispatcher.{Dispatcher, Effect, register_request, register_push, dispatch}
use nautilus_futu.Client.Keepalive.{Heart, beating, stopped, start, beat, send_keepalive}
use nautilus_futu.Client.Init.{InitCodec, InitError, InitConnectResponse, Init, init_connect}

-- `heart` is the heartbeat task behind its handle, `receiving` whether the receive loop runs, and
-- `signalled` whether the failure signal of the heartbeat waits to be seen by that loop.
pub record FutuClient : Type 0 where
  pub conn : FutuConnection
  pub dispatcher : Dispatcher
  pub heart : Option Heart
  pub receiving : Bool
  pub signalled : Bool
  pub init_response : Option InitConnectResponse

abbrev pub new_client : FutuConnection → FutuClient
new_client conn = record {
  conn = conn;
  dispatcher = Dispatcher.init;
  heart = none;
  receiving = false;
  signalled = false;
  init_response = none;
}

abbrev pub connected : Result ConnectionError FutuConnection → Result ConnectionError FutuClient
connected (ok conn) = ok (new_client conn)
connected (err e) = err e

unfoldable pub connect : Written → FutuConfig → Result ConnectionError FutuClient
connect socket config = connected (Connection.connect socket config)

-- The tasks start once the handshake has succeeded.
unfoldable pub started : Init → FutuClient → Result InitError InitConnectResponse × FutuClient
started (ok resp, conn) c = (
  ok resp,
  record c {
    conn = conn;
    heart = some start;
    receiving = true;
    signalled = false;
    init_response = some resp;
  },
)
started (err e, conn) c = (err e, record c { conn = conn })

module _ (codec : InitCodec) (aes : Aes128) where
  unfoldable pub init_with :
      Option InitConnectResponse
      → Written
      → Frame
      → FutuClient
      → Result InitError InitConnectResponse × FutuClient
  unfolding started
  init_with (some resp) written frame c = (ok resp, c)
  init_with none written frame c = started (init_connect codec aes written frame c.conn).0 c

  -- `FutuClient::init`; a second call returns the stored response.
  unfoldable pub init :
      Written → Frame → FutuClient → Result InitError InitConnectResponse × FutuClient
  unfolding init_with
  init written frame c = init_with c.init_response written frame c

-- What `rx.await` gives: the message sent through the channel, or that the sender was dropped.
abbrev pub awaited : Option FutuMessage → Result ConnectionError FutuMessage
awaited (some msg) = ok msg
awaited none = err disconnected

unfoldable pub subscribe_push : ℕ → ℕ → FutuClient → FutuClient
subscribe_push proto_id tx c = record c { dispatcher = register_push proto_id tx c.dispatcher }

unfoldable pub clear_pending : FutuClient → FutuClient × List Effect
clear_pending c =
    let (d, effects) = Dispatcher.clear_pending c.dispatcher in
    (record c { dispatcher = d }, effects)

-- The end of the receive loop, by a `break`.
unfoldable pub stop_receiving : FutuClient → FutuClient × List Effect
stop_receiving c =
    let (d, effects) = Dispatcher.clear_pending c.dispatcher in
    (record c { dispatcher = d; receiving = false }, effects)

unfoldable pub received :
    (ℕ → Bool)
    → Result ConnectionError FutuMessage × FutuConnection
    → FutuClient
    → FutuClient × List Effect
unfolding stop_receiving
received is_closed (ok msg, conn) c =
    let (d, effects) = dispatch is_closed msg c.dispatcher in
    (record c { conn = conn; dispatcher = d }, effects)
received is_closed (err e, conn) c = stop_receiving (record c { conn = conn })

-- A round of the receive loop in which the failure signal is there.
unfoldable pub failure_round : FutuClient → FutuClient × List Effect
unfolding stop_receiving
failure_round c =
    if c.receiving then (if c.signalled then stop_receiving c else (c, [])) else (c, [])

abbrev pub signals : Heart → Bool → Bool
signals stopped b = true
signals (beating n) b = b

-- `disconnect`: the requests first, then both tasks.
unfoldable pub disconnect : FutuClient → FutuClient × List Effect
disconnect c =
    let (d, effects) = Dispatcher.clear_pending c.dispatcher in
    (record c { dispatcher = d; heart = none; receiving = false }, effects)

module _ (aes : Aes128) where
  -- `request` up to its `rx.await`: on success the caller waits on the channel of `tx`.
  unfoldable pub request : ℕ → List ℕ → ℕ → Written → FutuClient → record {
    result : Result ConnectionError (Unit {0});
    message : FutuMessage;
    client : FutuClient;
    effects : List Effect;
  }
  request proto_id body tx written c =
      let (serial_no, conn) = next_serial c.conn in
      let (d, effects) = register_request serial_no tx c.dispatcher in
      let (sent, message) = send_with_serial aes conn proto_id body serial_no written in
      record {
        result = sent;
        message = message;
        client = record c { conn = conn; dispatcher = d };
        effects = effects;
      }

  -- `FutuClient::send`
  unfoldable pub send_only :
      ℕ → List ℕ → Written → FutuClient → Result ConnectionError ℕ × FutuClient
  send_only proto_id body written c =
      let s = send_next aes c.conn proto_id body written in (s.result, record c { conn = s.conn })

  -- A round of the receive loop in which `conn.recv()` is ready.
  unfoldable pub recv_round : (ℕ → Bool) → Frame → FutuClient → FutuClient × List Effect
  unfolding received
  recv_round is_closed frame c =
      if c.receiving then received is_closed (recv aes frame c.conn) c else (c, [])

  -- A round of the heartbeat, at the time `now`.
  unfoldable pub heart_round : (ℤ → List ℕ) → ℤ → Written → Option Heart → FutuClient → FutuClient
  heart_round encode_request now written none c = c
  heart_round encode_request now written (some stopped) c = c
  heart_round encode_request now written (some (beating n)) c =
      let s = send_keepalive aes encode_request now c.conn written in
      let h = beat (beating n) s.result in
      record c { conn = s.conn; heart = some h; signalled = signals h c.signalled }

-- `Drop for FutuClient`
unfoldable pub drop : FutuClient → FutuClient
drop c = record c { heart = none; receiving = false }

pub data Event : Type 0 where
  asks : ℕ → List ℕ → ℕ → Written → Event
  sends : ℕ → List ℕ → Written → Event
  listens : ℕ → ℕ → Event
  yields : (ℕ → Bool) → Frame → Event
  beats : ℤ → Written → Event
  notices : Event
  clears : Event
  disconnects : Event

module _ (aes : Aes128) (encode_request : ℤ → List ℕ) where
  unfoldable pub step : Event → FutuClient → FutuClient × List Effect
  step (asks proto_id body tx written) c =
      let r = request aes proto_id body tx written c in (r.client, r.effects)
  step (sends proto_id body written) c = ((send_only aes proto_id body written c).1, [])
  step (listens proto_id tx) c = (subscribe_push proto_id tx c, [])
  step (yields is_closed frame) c = recv_round aes is_closed frame c
  step (beats now written) c = (heart_round aes encode_request now written c.heart c, [])
  step notices c = failure_round c
  step clears c = clear_pending c
  step disconnects c = disconnect c

  unfoldable pub run : List Event → FutuClient → FutuClient × List Effect
  run [] c = (c, [])
  run (e ∷ es) c =
      let (c', effects) = step e c in let (last, more) = run es c' in (last, effects ++ more)
