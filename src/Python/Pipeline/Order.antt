-- ===== src/Python/Pipeline/Order.antt =====
-- The order of messages from the dispatcher of dispatcher.rs to `poll_push` of python/client.rs.
use mathlib.Core.List.{map-append}
use mathlib.Core.Option.{some-injective}
use nautilus_futu.Prelude.{
  ℕ, ◌≡◌, refl, sym, ap, ◌∙◌, List, [], ◌∷◌, ◌++◌, append-nil, append_assoc, Bool, true, false,
  Option, none, some, map, Result, arith, ◌==◌, if◌then◌else◌, ==→eq,
}
use nautilus_futu.Prelude.Words.{ℤ}
use nautilus_futu.Prelude.Maps.{Map, lookup, insert, lookup-insert}
use nautilus_futu.Protocol.Codec.{FutuMessage}
use nautilus_futu.Protocol.Encryption.{Aes128}
use nautilus_futu.Client.Dispatcher.{Effect}
use nautilus_futu.Client.Session
use nautilus_futu.Client.Session.{FutuClient, Event}
use nautilus_futu.Python.{
  PushMessage, PyFutuClient, PushError, forward, forward_to, poll_push, start_push, start_with,
}
use nautilus_futu.Python.Fifo
use nautilus_futu.Python.Fifo.{queue, got_by, InRange, after_fifo, after-InRange, shift}
use nautilus_futu.Python.Pipeline.{
  Pipeline, forward_round, PipeTurn, happens, forwards, polls, happen, step, run, subscribed,
}
use nautilus_futu.Python.Pipeline.Inbox.{delivered_to, pair, lookup-deliver_all}

abbrev get_or_empty : Option (List FutuMessage) → List FutuMessage
get_or_empty none = []
get_or_empty (some q) = q

module _ {D : Type 0} (aes : Aes128) (encode_request : ℤ → List ℕ)
    (decode : ℕ → List ℕ → Result PushError D) (tx : ℕ) where
  abbrev after : PipeTurn → Pipeline → Pipeline
  after t y = (step aes encode_request decode t y).0

  -- What a turn delivers to the subscription, and what a poll takes from its channel.
  abbrev arrived_by : PipeTurn → Pipeline → List FutuMessage
  arrived_by t y = delivered_to tx (step aes encode_request decode t y).1

  abbrev taken_by : PipeTurn → Pipeline → List PushMessage
  taken_by (happens e) y = []
  taken_by (forwards t) y = []
  taken_by (polls j) y = got_by 0 (Fifo.polls j) y.py

  -- The one forwarder writes to the one channel, and `q` waits for it.
  abbrev Waits : Pipeline → List FutuMessage → Type 0
  Waits y q = (lookup tx y.inboxes ≡ some q) × (y.py.push_handles ≡ (tx, 0) ∷ []) × InRange y.py

  abbrev behind : Pipeline → List FutuMessage → List PushMessage
  behind y q = queue 0 y.py ++ map pair q

  abbrev Next : PipeTurn → Pipeline → Pipeline → List Effect → List FutuMessage → Type 0
  Next t y y' es q =
      (q' : List FutuMessage) × Waits y' q'
      × (behind y q ++ map pair (delivered_to tx es) ≡ taken_by t y ++ behind y' q')

  happen-Next :
      (e : Event) (o : Option FutuClient) (y : Pipeline) (q : List FutuMessage)
      → Waits y q
      → Next
          (happens e)
          y
          (happen aes encode_request decode e o y).0
          (happen aes encode_request decode e o y).1
          q
  unfolding happen
  happen-Next e none y q (h, hs, r) = (q, (h, hs, r), append-nil (behind y q))
  happen-Next e (some c) y q (h, hs, r) =
      let es = (Session.step aes encode_request e c).1 in
      (
        q ++ delivered_to tx es,
        (lookup-deliver_all es tx y.inboxes q h, hs, r),
        append_assoc (queue 0 y.py) (map pair q) (map pair (delivered_to tx es))
            ∙ ap (λ l. queue 0 y.py ++ l) (sym (map-append pair q (delivered_to tx es))),
      )

  poll-Next :
      (j : ℕ) (y : Pipeline) (q : List FutuMessage)
      → Waits y q
      → Next (polls j) y (after (polls j) y) [] q
  unfolding step poll_push
  poll-Next j y q (h, hs, r) =
      let p' = (poll_push decode j y.py).1 in
      (
        q,
        (h, hs, after-InRange decode (Fifo.polls j) y.py r),
        append-nil (behind y q)
            ∙ ap (λ l. l ++ map pair q)
                (sym (append-nil (queue 0 y.py)) ∙ after_fifo decode 0 (Fifo.polls j) y.py r)
            ∙ append_assoc (got_by 0 (Fifo.polls j) y.py) (queue 0 p') (map pair q),
      )

  -- A message that the forwarder of `t` takes.
  abbrev passed : ℕ → FutuMessage → List FutuMessage → Pipeline → Pipeline
  passed t msg q y = record { py = forward t msg y.py; inboxes = insert t q y.inboxes }

  channel_of :
      (t : ℕ) (m : PushMessage)
      → Fifo.to_channel 0 (lookup t ((tx, 0) ∷ [])) m ≡ (if t == tx then m ∷ [] else [])
  unfolding lookup
  channel_of t m = ground arith

  -- Before and after the forwarder of `t` takes a message.
  moved :
      (t : ℕ) (msg : FutuMessage) (b : Map (List FutuMessage)) (q q0 : List FutuMessage)
      (l : List PushMessage)
      → lookup t b ≡ some (msg ∷ q0)
      → lookup tx b ≡ some q
      → l ++ map pair q
        ≡ (l ++ (if t == tx then pair msg ∷ [] else [])) ++ map pair (if t == tx then q0 else q)
  moved t msg b q q0 l e h = by_sender (t == tx) refl
    where
      by_sender :
          (c : Bool)
          → (t == tx) ≡ c
          → l ++ map pair q
            ≡ (l ++ (if c then pair msg ∷ [] else [])) ++ map pair (if c then q0 else q)
      by_sender true s =
          let same : some q ≡ some (msg ∷ q0) =
            sym h ∙ ap (λ k. lookup k b) (sym (==→eq t tx s)) ∙ e in
          ap (λ k. l ++ map pair k) (some-injective q (msg ∷ q0) same)
          ∙ sym (append_assoc l (pair msg ∷ []) (map pair q0))
      by_sender false s = ap (λ k. k ++ map pair q) (sym (append-nil l))

  queue_passed :
      (t : ℕ) (msg : FutuMessage) (y : Pipeline)
      → y.py.push_handles ≡ (tx, 0) ∷ []
      → InRange y.py
      → queue 0 (forward t msg y.py) ≡ queue 0 y.py ++ (if t == tx then pair msg ∷ [] else [])
  queue_passed t msg y hs r =
      sym (after_fifo decode 0 (Fifo.forwards t msg) y.py r)
      ∙ ap (λ l. queue 0 y.py ++ Fifo.to_channel 0 (lookup t l) (pair msg)) hs
      ∙ ap (λ l. queue 0 y.py ++ l) (channel_of t (pair msg))

  handles_forward :
      (t : ℕ) (msg : FutuMessage) (p : PyFutuClient)
      → (forward t msg p).push_handles ≡ p.push_handles
  unfolding forward forward_to
  handles_forward t msg p = by_handle (lookup t p.push_handles)
    where
      by_handle : (o : Option ℕ) → (forward_to o msg p).push_handles ≡ p.push_handles
      by_handle none = refl
      by_handle (some j) = refl

  passed-Next :
      (t : ℕ) (msg : FutuMessage) (q0 : List FutuMessage) (y : Pipeline) (q : List FutuMessage)
      → lookup t y.inboxes ≡ some (msg ∷ q0)
      → Waits y q
      → Next (forwards t) y (passed t msg q0 y) [] q
  passed-Next t msg q0 y q e (h, hs, r) = (
    if t == tx then q0 else q,
    (
      ground (arith, lookup-insert t tx q0 y.inboxes),
      handles_forward t msg y.py ∙ hs,
      after-InRange decode (Fifo.forwards t msg) y.py r,
    ),
    append-nil (behind y q)
        ∙ moved t msg y.inboxes q q0 (queue 0 y.py) e h
        ∙ ap (λ l. l ++ map pair (if t == tx then q0 else q)) (sym (queue_passed t msg y hs r)),
  )

  forward-Next :
      (t : ℕ) (o : Option (List FutuMessage)) (y : Pipeline) (q : List FutuMessage)
      → lookup t y.inboxes ≡ o
      → Waits y q
      → Next (forwards t) y (forward_round o t y) [] q
  unfolding forward_round
  forward-Next t none y q e w = (q, w, append-nil (behind y q))
  forward-Next t (some []) y q e w = (q, w, append-nil (behind y q))
  forward-Next t (some (msg ∷ q0)) y q e w = passed-Next t msg q0 y q e w

  step-Next :
      (t : PipeTurn) (y : Pipeline) (q : List FutuMessage)
      → Waits y q
      → Next t y (after t y) (step aes encode_request decode t y).1 q
  unfolding step
  step-Next (happens e) y q w = happen-Next e y.py.client y q w
  step-Next (forwards t) y q w = forward-Next t (lookup t y.inboxes) y q refl w
  step-Next (polls j) y q w = poll-Next j y q w

  -- All that is delivered to the subscription, and all that polls take from its channel.
  abbrev pub arrived : List PipeTurn → Pipeline → List FutuMessage
  arrived [] y = []
  arrived (t ∷ ts) y = arrived_by t y ++ arrived ts (after t y)

  abbrev pub taken : List PipeTurn → Pipeline → List PushMessage
  taken [] y = []
  taken (t ∷ ts) y = taken_by t y ++ taken ts (after t y)

  -- What waits for the forwarder.
  abbrev pub inbox : Pipeline → List FutuMessage
  inbox y = get_or_empty (lookup tx y.inboxes)

  run_next :
      (ts : List PipeTurn) (y : Pipeline) (q : List FutuMessage)
      → Waits y q
      → behind y q ++ map pair (arrived ts y)
        ≡ taken ts y
          ++ behind
              (run aes encode_request decode ts y)
              (inbox (run aes encode_request decode ts y))
  unfolding run
  run_next [] y q (h, hs, r) = append-nil (behind y q) ∙ ap (λ o. behind y (get_or_empty o)) (sym h)
  run_next (t ∷ ts) y q w =
      let (q', w', e) = step-Next t y q w in
      let y' = after t y in
      let last = run aes encode_request decode ts y' in
      ap (λ l. behind y q ++ l) (map-append pair (arrived_by t y) (arrived ts y'))
      ∙ shift (behind y q) (map pair (arrived_by t y)) (taken_by t y) (behind y' q')
          (map pair (arrived ts y')) (taken ts y') (behind last (inbox last)) e
          (run_next ts y' q' w')

  -- After `start_push` with one protocol id on the new object of a connected client, whatever the
  -- session does, forwarders and polls do, in any order: the messages that the dispatcher delivered
  -- to the subscription are, in order and once each, those that polls took from the channel, those
  -- that are still in it, and those that still wait for the forwarder.
  pub arrived-taken :
      (proto_id : ℕ) (c : FutuClient) (ts : List PipeTurn)
      → map pair (arrived ts (subscribed proto_id tx c))
        ≡ taken ts (subscribed proto_id tx c)
          ++ (queue 0 (run aes encode_request decode ts (subscribed proto_id tx c)).py
              ++ map pair (inbox (run aes encode_request decode ts (subscribed proto_id tx c))))
  unfolding start_push start_with lookup
  arrived-taken proto_id c ts =
      run_next ts (subscribed proto_id tx c) [] (ground arith, refl, (omega arith, tt))
