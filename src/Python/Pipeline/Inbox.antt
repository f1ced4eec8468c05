-- ===== src/Python/Pipeline/Inbox.antt =====
-- What waits in the channels of subscriptions of client/mod.rs after effects of the dispatcher.
use nautilus_futu.Prelude.{
  ℕ, ◌≡◌, refl, sym, ap, ◌∙◌, List, [], ◌∷◌, ◌++◌, append-nil, append_assoc, Bool, true, false,
  Option, none, some, arith, ◌==◌, if◌then◌else◌,
}
use nautilus_futu.Prelude.Maps.{Map, lookup, lookup-insert}
use nautilus_futu.Protocol.Codec.{FutuMessage}
use nautilus_futu.Client.Dispatcher.{Effect, complete, cancel, deliver}
use nautilus_futu.Python.{PushMessage}
use nautilus_futu.Python.Pipeline.{send_to, deliver_all}

-- The messages that effects deliver to a sender.
abbrev pub delivered_to : ℕ → List Effect → List FutuMessage
delivered_to tx [] = []
delivered_to tx (complete t msg ∷ es) = delivered_to tx es
delivered_to tx (cancel t ∷ es) = delivered_to tx es
delivered_to tx (deliver t msg ∷ es) =
    if t == tx then msg ∷ delivered_to tx es else delivered_to tx es

-- A message as the forwarder passes it on.
abbrev pub pair : FutuMessage → PushMessage
pair msg = (msg.proto_id, msg.body)

-- What waits behind a sender after one more message is sent to some sender.
lookup-send_to :
    (o : Option (List FutuMessage)) (t tx : ℕ) (msg : FutuMessage) (b : Map (List FutuMessage))
    (q : List FutuMessage)
    → lookup t b ≡ o
    → lookup tx b ≡ some q
    → lookup tx (send_to o t msg b) ≡ some (if t == tx then q ++ msg ∷ [] else q)
unfolding send_to
lookup-send_to none t tx msg b q e h = ground arith
lookup-send_to (some r) t tx msg b q e h = ground (arith, lookup-insert t tx (r ++ msg ∷ []) b)

pub lookup-deliver_all :
    (es : List Effect) (tx : ℕ) (b : Map (List FutuMessage)) (q : List FutuMessage)
    → lookup tx b ≡ some q
    → lookup tx (deliver_all es b) ≡ some (q ++ delivered_to tx es)
unfolding deliver_all
lookup-deliver_all [] tx b q h = h ∙ ap some (sym (append-nil q))
lookup-deliver_all (complete t msg ∷ es) tx b q h = lookup-deliver_all es tx b q h
lookup-deliver_all (cancel t ∷ es) tx b q h = lookup-deliver_all es tx b q h
lookup-deliver_all (deliver t msg ∷ es) tx b q h =
    let b' = send_to (lookup t b) t msg b in
    lookup-deliver_all es tx b' (if t == tx then q ++ msg ∷ [] else q)
      (lookup-send_to (lookup t b) t tx msg b q refl h)
    ∙ ap some (place (t == tx))
  where
    place :
        (c : Bool)
        → (if c then q ++ msg ∷ [] else q) ++ delivered_to tx es
          ≡ q ++ (if c then msg ∷ delivered_to tx es else delivered_to tx es)
    place true = append_assoc q (msg ∷ []) (delivered_to tx es)
    place false = refl
