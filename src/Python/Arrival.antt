-- ===== src/Python/Arrival.antt =====
-- From the socket to Python: a push that the receive loop of client/mod.rs reads, a forwarder of
-- python/client.rs and `poll_push`.
use nautilus_futu.Prelude.{
  ℕ, ◌≡◌, refl, sym, ap, ◌∙◌, List, [], ◌∷◌, ◌++◌, append_assoc, append-nil, Bool, true, false,
  Option, none, some, map, Result, ok, err, arith, length, ◌⊎◌, inl, inr, ◌==◌, if◌then◌else◌,
}
use nautilus_futu.Prelude.Maps.{Map, lookup, lookup-insert}
use nautilus_futu.Protocol.Codec.{FutuMessage}
use nautilus_futu.Protocol.Encryption.{Aes128}
use nautilus_futu.Client.Connection.{Frame, recv}
use nautilus_futu.Client.Dispatcher.{
  Dispatcher, deliver, or_default, retain_open, push_to, respond, dispatch, register_push,
}
use nautilus_futu.Client.Session.{FutuClient, subscribe_push, recv_round}
use nautilus_futu.Client.Session.Answer.{running}
use nautilus_futu.Python.{
  PushMessage, PyFutuClient, PyError, PushError, undecoded, listen, forwarders, start_with,
  start_push, push_at, pop_at, forward_to, forward, poll_push, decoded,
}
use nautilus_futu.Python.Object.{Py}
use nautilus_futu.Python.Push.{
  PushDecoders, decode_push_message, poll_object, push_dict, push_object,
}

-- The senders of a call of `start_push` that listen to a protocol id.
abbrev pub senders : ℕ → List (ℕ × ℕ) → List ℕ
senders q [] = []
senders q ((p, tx) ∷ subs) = if p == q then tx ∷ senders q subs else senders q subs

-- `tx` is the sender of a subscription to the protocol id `q`.
abbrev pub Subscribes : ℕ → ℕ → List (ℕ × ℕ) → Type 0
Subscribes q tx [] = ⊥
Subscribes q tx ((p, t) ∷ subs) = ((p ≡ q) × (t ≡ tx)) ⊎ Subscribes q tx subs

abbrev pub handlers : ℕ → FutuClient → List ℕ
handlers q c = or_default (lookup q c.dispatcher.push_handlers)

handlers-subscribe_push :
    (q p tx : ℕ) (c : FutuClient)
    → handlers q (subscribe_push p tx c)
      ≡ (if p == q then handlers q c ++ tx ∷ [] else handlers q c)
unfolding subscribe_push register_push
handlers-subscribe_push q p tx c = ground (
  arith,
  lookup-insert p q (or_default (lookup p c.dispatcher.push_handlers) ++ tx ∷ [])
      c.dispatcher.push_handlers,
)

handlers-listen :
    (q : ℕ) (subs : List (ℕ × ℕ)) (c : FutuClient)
    → handlers q (listen subs c) ≡ handlers q c ++ senders q subs
unfolding listen
handlers-listen q [] c = sym (append-nil (handlers q c))
handlers-listen q ((p, tx) ∷ subs) c =
    handlers-listen q subs (subscribe_push p tx c)
    ∙ ap (λ l. l ++ senders q subs) (handlers-subscribe_push q p tx c)
    ∙ place (p == q)
  where
    place :
        (b : Bool)
        → (if b then handlers q c ++ tx ∷ [] else handlers q c) ++ senders q subs
          ≡ handlers q c ++ (if b then tx ∷ senders q subs else senders q subs)
    place true = append_assoc (handlers q c) (tx ∷ []) (senders q subs)
    place false = refl

-- What `start_push` leaves of the client as it was.
abbrev Rest : FutuClient → FutuClient → Type 0
Rest c' c =
    (c'.dispatcher.pending ≡ c.dispatcher.pending)
    × (c'.conn ≡ c.conn)
    × (c'.receiving ≡ c.receiving)

listen-Rest : (subs : List (ℕ × ℕ)) (c : FutuClient) → Rest (listen subs c) c
unfolding listen subscribe_push register_push
listen-Rest [] c = (refl, refl, refl)
listen-Rest ((p, tx) ∷ subs) c = listen-Rest subs (subscribe_push p tx c)

push_to-effects :
    (closed : ℕ → Bool) (m : FutuMessage) (o : Option (List ℕ)) (d : Dispatcher)
    → (push_to closed m o d).1 ≡ map (λ tx. deliver tx m) (retain_open closed (or_default o))
unfolding push_to retain_open
push_to-effects closed m none d = refl
push_to-effects closed m (some txs) d = refl

dispatch-effects :
    (closed : ℕ → Bool) (m : FutuMessage) (d : Dispatcher)
    → lookup m.serial_no d.pending ≡ none
    → (dispatch closed m d).1
      ≡ map
          (λ tx. deliver tx m)
          (retain_open closed (or_default (lookup m.proto_id d.push_handlers)))
unfolding dispatch
dispatch-effects closed m d e =
    ap (λ o. (respond closed m o d).1) e
    ∙ unfold respond in push_to-effects closed m (lookup m.proto_id d.push_handlers) d

delivered :
    (aes : Aes128) (closed : ℕ → Bool) (frame : Frame) (c : FutuClient) (msg : FutuMessage)
    (subs : List (ℕ × ℕ))
    → c.receiving ≡ true
    → (recv aes frame c.conn).0 ≡ ok msg
    → lookup msg.serial_no c.dispatcher.pending ≡ none
    → (recv_round aes closed frame (listen subs c)).1
      ≡ map
          (λ tx. deliver tx msg)
          (retain_open closed (handlers msg.proto_id c ++ senders msg.proto_id subs))
unfolding recv_round
delivered aes closed frame c msg subs r e free =
    let c' = listen subs c in
    let rest = listen-Rest subs c in
    running aes closed frame c' msg c'.receiving (rest.2 ∙ r)
      (ap (λ conn. (recv aes frame conn).0) rest.1 ∙ e)
    ∙ dispatch-effects closed msg c'.dispatcher (ap (lookup msg.serial_no) rest.0 ∙ free)
    ∙ ap (λ l. map (λ tx. deliver tx msg) (retain_open closed l))
        (handlers-listen msg.proto_id subs c)

lookup-forwarders :
    (q tx ch : ℕ) (subs : List (ℕ × ℕ))
    → Subscribes q tx subs
    → lookup tx (forwarders ch subs) ≡ some ch
unfolding lookup
lookup-forwarders q tx ch [] s = absurd s
lookup-forwarders q tx ch ((p, t) ∷ subs) (inl e) = ground (arith, e.1)
lookup-forwarders q tx ch ((p, t) ∷ subs) (inr s) = ground (arith, lookup-forwarders q tx ch subs s)

lookup-append : (tx : ℕ) (hs gs : Map ℕ) → lookup tx hs ≡ none → lookup tx (hs ++ gs) ≡ lookup tx gs
unfolding lookup
lookup-append tx [] gs e = refl
lookup-append tx ((k, v) ∷ hs) gs e = ground (arith, lookup-append tx hs gs)

push_at-last :
    (m : PushMessage) (qs : List (List PushMessage))
    → push_at (length qs) m (qs ++ [] ∷ []) ≡ qs ++ (m ∷ []) ∷ []
unfolding push_at
push_at-last m [] = refl
push_at-last m (q ∷ qs) = ap (λ l. q ∷ l) (push_at-last m qs)

pop_at-last :
    (m : PushMessage) (qs : List (List PushMessage))
    → (pop_at (length qs) (qs ++ (m ∷ []) ∷ [])).0 ≡ some m
unfolding pop_at
pop_at-last m [] = refl
pop_at-last m (q ∷ qs) = pop_at-last m qs

-- The result of `poll_push` for a message whose decoder gives this.
abbrev pub polled : {F : Type 0} → ℕ → Result PushError (Py F) → Result PyError (Option (Py F))
polled proto_id (ok v) = ok (some (push_dict (proto_id, v)))
polled proto_id (err e) = err (undecoded e)

module _ {F : Type 0} (zero_f : F) (d : PushDecoders F) where
  polled-decoded :
      (m : PushMessage)
      → push_object (decoded (decode_push_message zero_f d) (some m))
        ≡ polled m.0 (decode_push_message zero_f d m.0 m.1)
  polled-decoded (q, body) = by_result (decode_push_message zero_f d q body)
    where
      by_result :
          (r : Result PushError (Py F))
          → push_object (elim r [ ok v ↦ ok (some (q, v)) | err e ↦ err (undecoded e) ])
            ≡ polled q r
      by_result (ok v) = refl
      by_result (err e) = refl

  started_polled :
      (p : PyFutuClient) (c : FutuClient) (subs : List (ℕ × ℕ)) (tx : ℕ) (msg : FutuMessage)
      → Subscribes msg.proto_id tx subs
      → lookup tx p.push_handles ≡ none
      → (poll_object zero_f d
          (length p.push_channels)
          (forward tx msg (start_with (some c) subs p).1)).0
        ≡ polled msg.proto_id (decode_push_message zero_f d msg.proto_id msg.body)
  unfolding poll_object poll_push start_with forward
  started_polled p c subs tx msg s new =
      let ch = length p.push_channels in
      let m : PushMessage = (msg.proto_id, msg.body) in
      let p' = (start_with (some c) subs p).1 in
      let here =
        lookup-append tx p.push_handles (forwarders ch subs) new
        ∙ lookup-forwarders msg.proto_id tx ch subs s in
      ap
        (λ o. push_object (
          decoded (decode_push_message zero_f d) (pop_at ch (forward_to o msg p').push_channels).0))
        here
      ∙ ap (λ qs. push_object (decoded (decode_push_message zero_f d) (pop_at ch qs).0))
          (unfold forward_to in push_at-last m p.push_channels)
      ∙ ap (λ o. push_object (decoded (decode_push_message zero_f d) o))
          (pop_at-last m p.push_channels)
      ∙ polled-decoded m

  -- A push on its way. On a connected object whose receive loop runs, `start_push` makes a new
  -- channel. A message that the loop then reads, and that answers no pending request, goes to the
  -- listeners from before and then to those of this call, as far as their receivers are open. And
  -- when the forwarder of a subscription of this call to its protocol, with a sender that is new,
  -- has passed it on, the first `poll_push` of the channel returns the decoded message with its
  -- protocol id, or the error of its decoder.
  pub push-polled :
      (aes : Aes128) (closed : ℕ → Bool) (frame : Frame) (p : PyFutuClient) (c : FutuClient)
      (msg : FutuMessage) (subs : List (ℕ × ℕ)) (tx : ℕ)
      → p.client ≡ some c
      → c.receiving ≡ true
      → (recv aes frame c.conn).0 ≡ ok msg
      → lookup msg.serial_no c.dispatcher.pending ≡ none
      → Subscribes msg.proto_id tx subs
      → lookup tx p.push_handles ≡ none
      → ((start_push subs p).0 ≡ ok (length p.push_channels))
        × ((start_push subs p).1.client ≡ some (listen subs c))
        × ((recv_round aes closed frame (listen subs c)).1
            ≡ map
                (λ t. deliver t msg)
                (retain_open closed (handlers msg.proto_id c ++ senders msg.proto_id subs)))
        × ((poll_object zero_f d (length p.push_channels) (forward tx msg (start_push subs p).1)).0
            ≡ polled msg.proto_id (decode_push_message zero_f d msg.proto_id msg.body))
  unfolding start_push
  push-polled aes closed frame p c msg subs tx e r got free s new = (
    ap (λ o. (start_with o subs p).0) e ∙ unfold start_with in refl,
    ap (λ o. (start_with o subs p).1.client) e ∙ unfold start_with in refl,
    delivered aes closed frame c msg subs r got free,
    ap
          (λ o.
            (poll_object zero_f d (length p.push_channels)
              (forward tx msg (start_with o subs p).1)).0)
          e
        ∙ started_polled p c subs tx msg s new,
  )
