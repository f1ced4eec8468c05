-- ===== src/Client/Session/Late.antt =====
-- What becomes of requests that client/mod.rs registers when nobody reads the answers.
use nautilus_futu.Prelude.{
  ℕ, ◌≡◌, refl, ap, ◌∙◌, List, [], ◌∷◌, ◌++◌, false, Option, none, some, ok, err, arith,
}
use nautilus_futu.Prelude.Words.{ℤ}
use nautilus_futu.Prelude.Text.{Text}
use nautilus_futu.Prelude.Maps.{lookup, lookup-insert}
use nautilus_futu.Protocol.Encryption.{Aes128}
use nautilus_futu.Client.Connection.{send, Written, next_serial, send_with_serial}
use nautilus_futu.Client.Dispatcher.{Effect, register_request, register_push}
use nautilus_futu.Client.Keepalive.{Heart, beating, stopped}
use nautilus_futu.Client.Session.{
  FutuClient, Event, asks, sends, listens, yields, beats, notices, disconnects, request, send_only,
  subscribe_push, recv_round, failure_round, heart_round, step, run,
}

request_pending :
    (aes : Aes128) (p : ℕ) (body : List ℕ) (tx : ℕ) (w : Written) (c : FutuClient)
    → lookup c.conn.serial_counter (request aes p body tx w c).client.dispatcher.pending ≡ some tx
unfolding request next_serial register_request
request_pending aes p body tx w c =
    let s = c.conn.serial_counter in ground (arith, lookup-insert s s tx c.dispatcher.pending)

-- Events that neither ask nor clear.
abbrev pub Passive : List Event → Type 0
Passive [] = Unit {0}
Passive (sends p body w ∷ es) = Passive es
Passive (listens p tx ∷ es) = Passive es
Passive (yields closed frame ∷ es) = Passive es
Passive (beats now w ∷ es) = Passive es
Passive (notices ∷ es) = Passive es
Passive (asks p body tx w ∷ es) = ⊥
Passive (Event.clears ∷ es) = ⊥
Passive (disconnects ∷ es) = ⊥

-- Nothing changed of what waits, nothing was settled, and the loop is still over.
abbrev Idle : FutuClient → FutuClient × List Effect → Type 0
Idle c (c', effects) =
    (c'.receiving ≡ false) × (c'.dispatcher.pending ≡ c.dispatcher.pending) × (effects ≡ [])

module _ (aes : Aes128) (encode_request : ℤ → List ℕ) where
  heart-Idle :
      (now : ℤ) (w : Written) (h : Option Heart) (c : FutuClient)
      → c.receiving ≡ false
      → Idle c (heart_round aes encode_request now w h c, [])
  unfolding heart_round
  heart-Idle now w none c r = (r, refl, refl)
  heart-Idle now w (some stopped) c r = (r, refl, refl)
  heart-Idle now w (some (beating n)) c r = (r, refl, refl)

  step-Idle :
      (e : Event) (c : FutuClient)
      → Passive (e ∷ [])
      → c.receiving ≡ false
      → Idle c (step aes encode_request e c)
  unfolding step
  step-Idle (sends p body w) c q r = unfold send_only in (r, refl, refl)
  step-Idle (listens p tx) c q r = unfold subscribe_push register_push in (r, refl, refl)
  step-Idle (yields closed frame) c q r = unfold recv_round in ground arith
  step-Idle (beats now w) c q r = heart-Idle now w c.heart c r
  step-Idle notices c q r = unfold failure_round in ground arith
  step-Idle (asks p body tx w) c q r = absurd q
  step-Idle Event.clears c q r = absurd q
  step-Idle disconnects c q r = absurd q

  Idle-trans :
      (a b : FutuClient) (e f : List Effect) (c : FutuClient)
      → Idle a (b, e)
      → Idle b (c, f)
      → Idle a (c, e ++ f)
  Idle-trans a b e f c p q = (q.0, q.1 ∙ p.1, ap (λ l. l ++ f) p.2 ∙ q.2)

  Passive-head : (e : Event) (es : List Event) → Passive (e ∷ es) → Passive (e ∷ []) × Passive es
  Passive-head (sends p body w) es q = (tt, q)
  Passive-head (listens p tx) es q = (tt, q)
  Passive-head (yields closed frame) es q = (tt, q)
  Passive-head (beats now w) es q = (tt, q)
  Passive-head notices es q = (tt, q)
  Passive-head (asks p body tx w) es q = absurd q
  Passive-head Event.clears es q = absurd q
  Passive-head disconnects es q = absurd q

  run-Idle :
      (es : List Event) (c : FutuClient)
      → Passive es
      → c.receiving ≡ false
      → Idle c (run aes encode_request es c)
  unfolding run
  run-Idle [] c q r = (r, refl, refl)
  run-Idle (e ∷ es) c q r =
      let (c', effects) = step aes encode_request e c in
      let (q1, qs) = Passive-head e es q in
      let first = step-Idle e c q1 r in
      let (last, more) = run aes encode_request es c' in
      Idle-trans c c' effects more last first (run-Idle es c' qs first.0)

  -- The request, and the events that follow it.
  abbrev pub afterwards : ℕ → List ℕ → ℕ → List Event → FutuClient → FutuClient × List Effect
  afterwards p body tx es c = run aes encode_request es (request aes p body tx none c).client

  -- A request that is made when the receive loop is over is sent and then waits: whatever the
  -- server answers, whatever pushes or heartbeats follow, its channel stays pending and nothing is
  -- settled, until somebody asks to clear the requests or to disconnect.
  pub late_request_waits :
      (p : ℕ) (body : List ℕ) (tx : ℕ) (es : List Event) (c : FutuClient)
      → c.receiving ≡ false
      → Passive es
      → ((request aes p body tx none c).result ≡ ok tt)
        × (lookup c.conn.serial_counter (afterwards p body tx es c).0.dispatcher.pending ≡ some tx)
        × ((afterwards p body tx es c).1 ≡ [])
  late_request_waits p body tx es c r q =
      let c' = (request aes p body tx none c).client in
      let same = run-Idle es c' q (unfold request in r) in
      (
        unfold request send_with_serial in refl,
        ap (lookup c.conn.serial_counter) same.1 ∙ request_pending aes p body tx none c,
        same.2,
      )

-- A request whose write fails reports the error, and its channel stays in the dispatcher: nothing
-- takes it out but a message with its serial number, or a clearing of all requests.
pub request-send_failed :
    (aes : Aes128) (p : ℕ) (body : List ℕ) (tx : ℕ) (e : Text) (c : FutuClient)
    → ((request aes p body tx (some e) c).result ≡ err (send e))
      × (lookup c.conn.serial_counter (request aes p body tx (some e) c).client.dispatcher.pending
          ≡ some tx)
request-send_failed aes p body tx e c =
    (unfold request send_with_serial in refl, request_pending aes p body tx (some e) c)
