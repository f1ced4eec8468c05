-- ===== src/Python.antt =====
-- crates/futu/src/python/client.rs: what the Python class keeps beside the client, and its push
-- channels. `push_channels` is the queue of each channel; `push_handles` the forwarder tasks, each
-- as the number of the receiver that it reads and the index of the channel that it writes.
pub mod Object
pub mod Shape
pub mod Contract
pub mod Push
pub mod Methods
pub mod Fifo
pub mod Arrival
pub mod Pipeline
use nautilus_futu.Prelude.{
  ℕ, zero, suc, List, [], ◌∷◌, ◌++◌, Bool, true, false, Option, none, some, map, Result, ok, err,
  length, get_or,
}
use nautilus_futu.Prelude.Maps.{lookup}
use nautilus_futu.Prelude.Text.{Text}
use nautilus_futu.Prelude.Words.{ℤ}
use nautilus_futu.Config.{FutuConfig, default}
use nautilus_futu.Protocol.Codec.{FutuMessage}
use nautilus_futu.Protocol.Encryption.{Aes128}
use nautilus_futu.Client.Connection.{ConnectionError, Written, Frame}
use nautilus_futu.Client.Dispatcher.{Effect}
use nautilus_futu.Client.Init.{InitCodec, InitError, InitConnectResponse}
use nautilus_futu.Client.Session
use nautilus_futu.Client.Session.{FutuClient, subscribe_push}
use nautilus_futu.Quote.Subscribe.{QuoteError}
use nautilus_futu.Trade.Account.{TradeError}

-- `(u32, Vec<u8>)`
abbrev pub PushMessage : Type 0
PushMessage = ℕ × List ℕ

pub record PyFutuClient : Type 0 where
  pub client : Option FutuClient
  pub push_channels : List (List PushMessage)
  pub push_handles : List (ℕ × ℕ)

-- The errors of push_decode.rs, by what their text is made of.
pub data PushError : Type 0 where
  unknown_proto_id : ℕ → PushError
  decode_error : Text → PushError
  missing_s2c : Text → PushError

-- The errors that Python sees, by what their text is made of; those of a request start with a text.
pub data PyError : Type 0 where
  not_connected : PyError
  connect_failed : ConnectionError → PyError
  init_failed : InitError → PyError
  undecoded : PushError → PyError
  quote_failed : Text → QuoteError → PyError
  trade_failed : Text → TradeError → PyError
  state_failed : Text → InitError → PyError

abbrev pub new : PyFutuClient
new = record { client = none; push_channels = []; push_handles = [] }

unfoldable pub initialised :
    Result InitError InitConnectResponse × FutuClient
    → PyFutuClient
    → Result PyError (Unit {0}) × PyFutuClient
initialised (ok resp, c) p = (ok tt, record p { client = some c })
initialised (err e, c) p = (err (init_failed e), p)

module _ (codec : InitCodec) (aes : Aes128) where
  unfoldable pub connected :
      Result ConnectionError FutuClient
      → Written
      → Frame
      → PyFutuClient
      → Result PyError (Unit {0}) × PyFutuClient
  unfolding initialised
  connected (err e) written frame p = (err (connect_failed e), p)
  connected (ok c) written frame p = initialised (Session.init codec aes written frame c) p

  -- A client that was there before is replaced.
  unfoldable pub connect :
      Text
      → ℕ
      → Text
      → ℤ
      → Written
      → Written
      → Frame
      → PyFutuClient
      → Result PyError (Unit {0}) × PyFutuClient
  unfolding connected
  connect host port client_id client_ver socket written frame p =
      let config = record default {
        host = host;
        port = port;
        client_id = client_id;
        client_ver = client_ver;
      } in
      connected (Session.connect socket config) written frame p

abbrev pub cleared : Option FutuClient → List Effect
cleared none = []
cleared (some c) = (Session.clear_pending c).1

-- The requests are dropped, and the client is gone with the last reference to it.
unfoldable pub disconnect : PyFutuClient → PyFutuClient × List Effect
disconnect p = (record { client = none; push_channels = []; push_handles = [] }, cleared p.client)

abbrev pub is_connected : PyFutuClient → Bool
is_connected p = elim p.client [ none ↦ false | some c ↦ true ]

-- The loop over `proto_ids`, each with the sender of the channel that `subscribe_push` makes.
unfoldable pub listen : List (ℕ × ℕ) → FutuClient → FutuClient
listen [] c = c
listen ((proto_id, tx) ∷ rest) c = listen rest (subscribe_push proto_id tx c)

abbrev pub forwarders : ℕ → List (ℕ × ℕ) → List (ℕ × ℕ)
forwarders channel_id [] = []
forwarders channel_id ((proto_id, tx) ∷ rest) = (tx, channel_id) ∷ forwarders channel_id rest

unfoldable pub start_with :
    Option FutuClient → List (ℕ × ℕ) → PyFutuClient → Result PyError ℕ × PyFutuClient
start_with none subscriptions p = (err not_connected, p)
start_with (some c) subscriptions p =
    let channel_id = length p.push_channels in
    (
      ok channel_id,
      record {
        client = some (listen subscriptions c);
        push_channels = p.push_channels ++ [] ∷ [];
        push_handles = p.push_handles ++ forwarders channel_id subscriptions;
      },
    )

unfoldable pub start_push : List (ℕ × ℕ) → PyFutuClient → Result PyError ℕ × PyFutuClient
unfolding start_with
start_push subscriptions p = start_with p.client subscriptions p

-- A send into the channel with this index.
unfoldable pub push_at : ℕ → PushMessage → List (List PushMessage) → List (List PushMessage)
push_at i m [] = []
push_at zero m (q ∷ qs) = (q ++ m ∷ []) ∷ qs
push_at (suc i) m (q ∷ qs) = q ∷ push_at i m qs

unfoldable pub forward_to : Option ℕ → FutuMessage → PyFutuClient → PyFutuClient
forward_to none msg p = p
forward_to (some channel_id) msg p = record p {
  push_channels = push_at channel_id (msg.proto_id, msg.body) p.push_channels;
}

-- A round of the forwarder that reads from the channel of `tx`.
unfoldable pub forward : ℕ → FutuMessage → PyFutuClient → PyFutuClient
unfolding forward_to
forward tx msg p = forward_to (lookup tx p.push_handles) msg p

-- A receive from the channel with this index.
unfoldable pub pop_at : ℕ → List (List PushMessage) → Option PushMessage × List (List PushMessage)
pop_at i [] = (none, [])
pop_at zero ([] ∷ qs) = (none, [] ∷ qs)
pop_at zero ((m ∷ q) ∷ qs) = (some m, q ∷ qs)
pop_at (suc i) (q ∷ qs) = let (m, rest) = pop_at i qs in (m, q ∷ rest)

-- What `poll_push` returns for the message received. The decoders of push_decode.rs are an
-- argument.
abbrev pub decoded :
    {D : Type 0}
    → (ℕ → List ℕ → Result PushError D)
    → Option PushMessage
    → Result PyError (Option (ℕ × D))
decoded decode none = ok none
decoded decode (some (proto_id, body)) = elim (decode proto_id body) [
  | ok d ↦ ok (some (proto_id, d))
  | err e ↦ err (undecoded e)
]

-- `poll_push`, at the end of its wait: what arrives within the timeout is in the queue.
unfoldable pub poll_push :
    {D : Type 0}
    → (ℕ → List ℕ → Result PushError D)
    → ℕ
    → PyFutuClient
    → Result PyError (Option (ℕ × D)) × PyFutuClient
poll_push decode channel_id p =
    let (m, channels) = pop_at channel_id p.push_channels in
    (decoded decode m, record p { push_channels = channels })
