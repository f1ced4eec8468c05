-- ===== src/Python/Pipeline.antt =====
-- A push from the dispatcher to Python: the channel of a subscription in client/mod.rs, the
-- forwarder of python/client.rs that reads it, and the channel that `poll_push` reads. `inboxes` is
-- what waits in the channels of subscriptions, by their senders; a sender without an entry has no
-- receiver.
pub mod Inbox
pub mod Order
use nautilus_futu.Prelude.{ℕ, List, [], ◌∷◌, ◌++◌, Option, none, some, Result}
use nautilus_futu.Prelude.Words.{ℤ}
use nautilus_futu.Prelude.Maps.{Map, lookup, insert}
use nautilus_futu.Protocol.Codec.{FutuMessage}
use nautilus_futu.Protocol.Encryption.{Aes128}
use nautilus_futu.Client.Dispatcher.{Effect, complete, cancel, deliver}
use nautilus_futu.Client.Session
use nautilus_futu.Client.Session.{FutuClient, Event}
use nautilus_futu.Python.{PyFutuClient, PushError, new, start_push, forward, poll_push}

pub record Pipeline : Type 0 where
  pub py : PyFutuClient
  pub inboxes : Map (List FutuMessage)

-- A send on an unbounded channel, whose result is ignored.
unfoldable pub send_to :
    Option (List FutuMessage) → ℕ → FutuMessage → Map (List FutuMessage) → Map (List FutuMessage)
send_to none tx msg b = b
send_to (some q) tx msg b = insert tx (q ++ msg ∷ []) b

unfoldable pub deliver_all : List Effect → Map (List FutuMessage) → Map (List FutuMessage)
deliver_all [] b = b
deliver_all (complete tx msg ∷ es) b = deliver_all es b
deliver_all (cancel tx ∷ es) b = deliver_all es b
deliver_all (deliver tx msg ∷ es) b = deliver_all es (send_to (lookup tx b) tx msg b)

-- A round of the forwarder of `tx`: `push_rx.recv()` and the send into its channel.
unfoldable pub forward_round : Option (List FutuMessage) → ℕ → Pipeline → Pipeline
forward_round none tx y = y
forward_round (some []) tx y = y
forward_round (some (msg ∷ q)) tx y = record {
  py = forward tx msg y.py;
  inboxes = insert tx q y.inboxes;
}

-- An event of the client's session, a round of a forwarder, or a call of `poll_push`.
pub data PipeTurn : Type 0 where
  happens : Event → PipeTurn
  forwards : ℕ → PipeTurn
  polls : ℕ → PipeTurn

module _ {D : Type 0} (aes : Aes128) (encode_request : ℤ → List ℕ)
    (decode : ℕ → List ℕ → Result PushError D) where
  unfoldable pub happen : Event → Option FutuClient → Pipeline → Pipeline × List Effect
  happen e none y = (y, [])
  happen e (some c) y =
      let (c', effects) = Session.step aes encode_request e c in
      (
        record { py = record y.py { client = some c' }; inboxes = deliver_all effects y.inboxes },
        effects,
      )

  unfoldable pub step : PipeTurn → Pipeline → Pipeline × List Effect
  step (happens e) y = happen e y.py.client y
  step (forwards tx) y = (forward_round (lookup tx y.inboxes) tx y, [])
  step (polls j) y = (record y { py = (poll_push decode j y.py).1 }, [])

  unfoldable pub run : List PipeTurn → Pipeline → Pipeline
  run [] y = y
  run (t ∷ ts) y = run ts (step t y).0

-- A new object of a connected client, after `start_push` with one protocol id.
abbrev pub subscribed : ℕ → ℕ → FutuClient → Pipeline
subscribed proto_id tx c = record {
  py = (start_push ((proto_id, tx) ∷ []) (record new { client = some c })).1;
  inboxes = (tx, []) ∷ [];
}
