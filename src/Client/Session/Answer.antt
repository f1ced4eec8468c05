-- ===== src/Client/Session/Answer.antt =====
-- Where the receive loop of client/mod.rs brings responses and pushes.
use nautilus_futu.Prelude.{
  sym, map, none, ℕ, ◌≡◌, refl, ap, ◌∙◌, List, [], ◌∷◌, Bool, true, Result, ok, err, arith,
  if◌then◌else◌, false,
}
use nautilus_futu.Prelude.Words.{ℤ}
use nautilus_futu.Protocol.Codec.{FutuMessage}
use nautilus_futu.Protocol.Encryption.{Aes128}
use nautilus_futu.Client.Connection.{
  FutuConnection, ConnectionError, Frame, Written, recv, next_serial,
}
use nautilus_futu.Client.Dispatcher
use nautilus_futu.Client.Dispatcher.{
  Dispatcher, Effect, complete, deliver, retain_open, Call, requests, register_request, dispatch,
}
use nautilus_futu.Client.Dispatcher.Routing.{
  Quiet, StaysClosed, listeners, dispatch-response, dispatch-push,
}
use nautilus_futu.Prelude.Maps.{lookup}
use nautilus_futu.Client.Session.{
  FutuClient, Event, yields, request, received, recv_round, step, run,
}
use nautilus_futu.Client.Session.Calls.{trace, run-refines}

received-ok :
    (closed : ℕ → Bool) (r : Result ConnectionError FutuMessage) (conn : FutuConnection)
    (c : FutuClient) (msg : FutuMessage)
    → r ≡ ok msg
    → (received closed (r, conn) c).1 ≡ (dispatch closed msg c.dispatcher).1
unfolding received
received-ok closed (ok m) conn c msg e = ground arith
received-ok closed (err x) conn c msg e = cc

pub running :
    (aes : Aes128) (closed : ℕ → Bool) (frame : Frame) (c : FutuClient) (msg : FutuMessage)
    (b : Bool)
    → b ≡ true
    → (recv aes frame c.conn).0 ≡ ok msg
    → (if b then received closed (recv aes frame c.conn) c else (c, [])).1
      ≡ (dispatch closed msg c.dispatcher).1
running aes closed frame c msg true t e =
    received-ok closed (recv aes frame c.conn).0 (recv aes frame c.conn).1 c msg e
running aes closed frame c msg false t e = cc

module _ (aes : Aes128) (encode_request : ℤ → List ℕ) where
  -- The client once the request has been sent, and after the events `es` that follow.
  abbrev pub asked : ℕ → List ℕ → ℕ → Written → FutuClient → FutuClient
  asked p body tx w c = (request aes p body tx w c).client

  abbrev pub later : ℕ → List ℕ → ℕ → Written → List Event → FutuClient → FutuClient
  later p body tx w es c = (run aes encode_request es (asked p body tx w c)).0

  dispatcher-later :
      (p : ℕ) (body : List ℕ) (tx : ℕ) (w : Written) (es : List Event) (c : FutuClient)
      → (later p body tx w es c).dispatcher
        ≡ (Dispatcher.run
            (requests c.conn.serial_counter tx ∷ trace aes encode_request es (asked p body tx w c))
            c.dispatcher).0
  dispatcher-later p body tx w es c =
      ap (λ (q : Dispatcher × List Effect). q.0)
        (run-refines aes encode_request es (asked p body tx w c))
      ∙ unfold request next_serial Dispatcher.run Dispatcher.step in refl

  -- A response reaches its request: if other calls and messages came after the request that left
  -- its serial number alone, and the receive loop, which still runs, receives a message with that
  -- serial number, then this message goes to the request's channel and nowhere else.
  pub request_answered :
      (p : ℕ) (body : List ℕ) (tx : ℕ) (w : Written) (es : List Event) (c : FutuClient)
      (closed : ℕ → Bool) (frame : Frame) (msg : FutuMessage)
      → Quiet c.conn.serial_counter (trace aes encode_request es (asked p body tx w c))
      → (later p body tx w es c).receiving ≡ true
      → (recv aes frame (later p body tx w es c).conn).0 ≡ ok msg
      → msg.serial_no ≡ c.conn.serial_counter
      → (step aes encode_request (yields closed frame) (later p body tx w es c)).1
        ≡ complete tx msg ∷ []
  unfolding step recv_round
  request_answered p body tx w es c closed frame msg q r e s =
      let l = later p body tx w es c in
      running aes closed frame l msg l.receiving r e
      ∙ ap (λ d. (dispatch closed msg d).1) (dispatcher-later p body tx w es c)
      ∙ dispatch-response c.conn.serial_counter tx
          (trace aes encode_request es (asked p body tx w c)) c.dispatcher closed msg q s

  -- A push reaches its listeners: in a session of a client whose dispatcher is new, a message that
  -- the running receive loop receives and that answers no pending request goes, once each and
  -- oldest first, to exactly those listeners ever registered for its protocol id whose receiver is
  -- not closed, if closed receivers stay closed.
  pub push_delivered :
      (es : List Event) (c : FutuClient) (closed : ℕ → Bool) (frame : Frame) (msg : FutuMessage)
      → c.dispatcher ≡ Dispatcher.init
      → StaysClosed closed (trace aes encode_request es c)
      → (run aes encode_request es c).0.receiving ≡ true
      → (recv aes frame (run aes encode_request es c).0.conn).0 ≡ ok msg
      → lookup msg.serial_no (run aes encode_request es c).0.dispatcher.pending ≡ none
      → (step aes encode_request (yields closed frame) (run aes encode_request es c).0).1
        ≡ map
            (λ tx. deliver tx msg)
            (retain_open closed (listeners msg.proto_id (trace aes encode_request es c)))
  unfolding step recv_round
  push_delivered es c closed frame msg new h r e n =
      let c' = (run aes encode_request es c).0 in
      let calls = trace aes encode_request es c in
      let same : c'.dispatcher ≡ (Dispatcher.run calls Dispatcher.init).0 =
        ap (λ (q : Dispatcher × List Effect). q.0)
          (run-refines aes encode_request es c ∙ ap (Dispatcher.run calls) new) in
      running aes closed frame c' msg c'.receiving r e
      ∙ ap (λ d. (dispatch closed msg d).1) same
      ∙ dispatch-push closed calls msg h
          (ap (λ (d : Dispatcher). lookup msg.serial_no d.pending) (sym same) ∙ n)
