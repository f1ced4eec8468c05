-- ===== src/Client/Session/Calls.antt =====
-- The calls of the dispatcher that a session of client/mod.rs makes.
use nautilus_futu.Prelude.{
  ℕ, ◌+◌, ◌≡◌, refl, sym, ap, ap₂, ◌∙◌, List, [], ◌∷◌, ◌++◌, append-nil, append_assoc, Bool, true,
  false, Option, none, some, Result, ok, err, arith, if◌then◌else◌,
}
use nautilus_futu.Prelude.Words.{ℤ}
use nautilus_futu.Prelude.Maps.{count}
use nautilus_futu.Protocol.Codec.{FutuMessage}
use nautilus_futu.Protocol.Encryption.{Aes128}
use nautilus_futu.Client.Connection.{
  FutuConnection, ConnectionError, Frame, Written, next_serial, recv,
}
use nautilus_futu.Client.Dispatcher
use nautilus_futu.Client.Dispatcher.{Dispatcher, Effect, Call, requests, listens, clears, receives}
use nautilus_futu.Client.Dispatcher.Settle.{registered, settled, waiting, run_conserves}
use nautilus_futu.Client.Keepalive.{Heart, beating, stopped}
use nautilus_futu.Client.Session.{
  FutuClient, Event, asks, sends, yields, beats, notices, disconnects, request, send_only,
  subscribe_push, clear_pending, stop_receiving, received, recv_round, failure_round, heart_round,
  disconnect, step, run,
}

-- The call that a received message or the end of the stream leads to.
abbrev pub call_of : (ℕ → Bool) → Result ConnectionError FutuMessage → List Call
call_of is_closed (ok msg) = receives is_closed msg ∷ []
call_of is_closed (err e) = clears ∷ []

-- The calls of the dispatcher that one event makes.
unfoldable pub calls_of : Aes128 → Event → FutuClient → List Call
calls_of aes (asks proto_id body tx written) c = requests c.conn.serial_counter tx ∷ []
calls_of aes (sends proto_id body written) c = []
calls_of aes (Event.listens proto_id tx) c = listens proto_id tx ∷ []
calls_of aes (yields is_closed frame) c =
    if c.receiving then call_of is_closed (recv aes frame c.conn).0 else []
calls_of aes (beats now written) c = []
calls_of aes notices c = if c.receiving then (if c.signalled then clears ∷ [] else []) else []
calls_of aes Event.clears c = clears ∷ []
calls_of aes disconnects c = clears ∷ []

-- The dispatcher after a step of a session, and the step's effects.
abbrev pub view : FutuClient × List Effect → Dispatcher × List Effect
view (c, effects) = (c.dispatcher, effects)

one_call : (k : Call) (d : Dispatcher) → Dispatcher.run (k ∷ []) d ≡ Dispatcher.step k d
unfolding Dispatcher.run
one_call k d = ap (λ l. ((Dispatcher.step k d).0, l)) (append-nil (Dispatcher.step k d).1)

no_call : (d : Dispatcher) → (d, []) ≡ Dispatcher.run [] d
unfolding Dispatcher.run
no_call d = refl

received-view :
    (is_closed : ℕ → Bool) (r : Result ConnectionError FutuMessage) (conn : FutuConnection)
    (c : FutuClient)
    → view (received is_closed (r, conn) c) ≡ Dispatcher.run (call_of is_closed r) c.dispatcher
unfolding received Dispatcher.step
received-view is_closed (ok msg) conn c = sym (one_call (receives is_closed msg) c.dispatcher)
received-view is_closed (err e) conn c = sym (one_call clears c.dispatcher)

failure_view :
    (c : FutuClient) (b s : Bool)
    → view (if b then (if s then stop_receiving c else (c, [])) else (c, []))
      ≡ Dispatcher.run (if b then (if s then clears ∷ [] else []) else []) c.dispatcher
unfolding Dispatcher.step stop_receiving
failure_view c false s = no_call c.dispatcher
failure_view c true false = no_call c.dispatcher
failure_view c true true = sym (one_call clears c.dispatcher)

run-append :
    (ks ls : List Call) (d : Dispatcher)
    → Dispatcher.run (ks ++ ls) d ≡ (
      (Dispatcher.run ls (Dispatcher.run ks d).0).0,
      (Dispatcher.run ks d).1 ++ (Dispatcher.run ls (Dispatcher.run ks d).0).1,
    )
unfolding Dispatcher.run
run-append [] ls d = refl
run-append (k ∷ ks) ls d =
    let (d', effects) = Dispatcher.step k d in
    ap (λ (q : Dispatcher × List Effect). (q.0, effects ++ q.1)) (run-append ks ls d')
    ∙ ap (λ l. ((Dispatcher.run ls (Dispatcher.run ks d').0).0, l))
        (sym (
          append_assoc effects (Dispatcher.run ks d').1
            (Dispatcher.run ls (Dispatcher.run ks d').0).1))

module _ (aes : Aes128) (encode_request : ℤ → List ℕ) where
  recv_round-view :
      (is_closed : ℕ → Bool) (frame : Frame) (c : FutuClient) (b : Bool)
      → view (if b then received is_closed (recv aes frame c.conn) c else (c, []))
        ≡ Dispatcher.run
            (if b then call_of is_closed (recv aes frame c.conn).0 else [])
            c.dispatcher
  recv_round-view is_closed frame c true =
      received-view is_closed (recv aes frame c.conn).0 (recv aes frame c.conn).1 c
  recv_round-view is_closed frame c false = no_call c.dispatcher

  heart_round-view :
      (now : ℤ) (written : Written) (h : Option Heart) (c : FutuClient)
      → (heart_round aes encode_request now written h c).dispatcher ≡ c.dispatcher
  unfolding heart_round
  heart_round-view now written none c = refl
  heart_round-view now written (some stopped) c = refl
  heart_round-view now written (some (beating n)) c = refl

  pub step-view :
      (e : Event) (c : FutuClient)
      → view (step aes encode_request e c) ≡ Dispatcher.run (calls_of aes e c) c.dispatcher
  unfolding step calls_of
  step-view (asks p body tx w) c =
      unfold request next_serial Dispatcher.step in
      sym (one_call (requests c.conn.serial_counter tx) c.dispatcher)
  step-view (sends p body w) c = unfold send_only in no_call c.dispatcher
  step-view (Event.listens p tx) c =
      unfold subscribe_push Dispatcher.step in sym (one_call (listens p tx) c.dispatcher)
  step-view (yields is_closed frame) c =
      unfold recv_round in recv_round-view is_closed frame c c.receiving
  step-view (beats now w) c =
      ap (λ d. (d, [])) (heart_round-view now w c.heart c) ∙ no_call c.dispatcher
  step-view notices c = unfold failure_round in failure_view c c.receiving c.signalled
  step-view Event.clears c =
      unfold clear_pending Dispatcher.step in sym (one_call clears c.dispatcher)
  step-view disconnects c = unfold disconnect Dispatcher.step in sym (one_call clears c.dispatcher)

  -- The calls of a whole session.
  unfoldable pub trace : List Event → FutuClient → List Call
  trace [] c = []
  trace (e ∷ es) c = calls_of aes e c ++ trace es (step aes encode_request e c).0

  -- A session refines the dispatcher: its dispatcher, and all that happens to senders, is that of
  -- the dispatcher's own calls in the order of the trace.
  pub run-refines :
      (es : List Event) (c : FutuClient)
      → view (run aes encode_request es c) ≡ Dispatcher.run (trace es c) c.dispatcher
  unfolding run trace
  run-refines [] c = no_call c.dispatcher
  run-refines (e ∷ es) c =
      let (c', effects) = step aes encode_request e c in
      let first = step-view e c in
      ap (λ (q : Dispatcher × List Effect). (q.0, effects ++ q.1)) (run-refines es c')
      ∙ ap
          (λ (q : Dispatcher × List Effect).
            ((Dispatcher.run (trace es c') q.0).0, q.1 ++ (Dispatcher.run (trace es c') q.0).1))
          first
      ∙ sym (run-append (calls_of aes e c) (trace es c') c.dispatcher)

-- The channels of a session's requests.
abbrev pub asked : List Event → List ℕ
asked [] = []
asked (asks p body tx w ∷ es) = tx ∷ asked es
asked (sends p body w ∷ es) = asked es
asked (Event.listens p tx ∷ es) = asked es
asked (yields closed frame ∷ es) = asked es
asked (beats now w ∷ es) = asked es
asked (notices ∷ es) = asked es
asked (Event.clears ∷ es) = asked es
asked (disconnects ∷ es) = asked es

registered-append : (ks ls : List Call) → registered (ks ++ ls) ≡ registered ks ++ registered ls
registered-append [] ls = refl
registered-append (requests s tx ∷ ks) ls = ap (λ l. tx ∷ l) (registered-append ks ls)
registered-append (listens p tx ∷ ks) ls = registered-append ks ls
registered-append (clears ∷ ks) ls = registered-append ks ls
registered-append (receives closed m ∷ ks) ls = registered-append ks ls

registered-call_of :
    (closed : ℕ → Bool) (r : Result ConnectionError FutuMessage)
    → registered (call_of closed r) ≡ []
registered-call_of closed (ok m) = refl
registered-call_of closed (err e) = refl

pub registered-calls_of :
    (aes : Aes128) (e : Event) (c : FutuClient) → registered (calls_of aes e c) ≡ asked (e ∷ [])
unfolding calls_of
registered-calls_of aes (asks p body tx w) c = refl
registered-calls_of aes (sends p body w) c = refl
registered-calls_of aes (Event.listens p tx) c = refl
registered-calls_of aes (yields closed frame) c =
    ground (arith, registered-call_of closed (recv aes frame c.conn).0)
registered-calls_of aes (beats now w) c = refl
registered-calls_of aes notices c = ground arith
registered-calls_of aes Event.clears c = refl
registered-calls_of aes disconnects c = refl

asked-cons : (e : Event) (es : List Event) → asked (e ∷ []) ++ asked es ≡ asked (e ∷ es)
asked-cons (asks p body tx w) es = refl
asked-cons (sends p body w) es = refl
asked-cons (Event.listens p tx) es = refl
asked-cons (yields closed frame) es = refl
asked-cons (beats now w) es = refl
asked-cons notices es = refl
asked-cons Event.clears es = refl
asked-cons disconnects es = refl

module _ (aes : Aes128) (encode_request : ℤ → List ℕ) where
  registered-trace :
      (es : List Event) (c : FutuClient) → registered (trace aes encode_request es c) ≡ asked es
  unfolding trace
  registered-trace [] c = refl
  registered-trace (e ∷ es) c =
      let c' = (step aes encode_request e c).0 in
      registered-append (calls_of aes e c) (trace aes encode_request es c')
      ∙ ap₂ (λ a b. a ++ b) (registered-calls_of aes e c) (registered-trace es c')
      ∙ asked-cons e es

  -- In any session of a client whose dispatcher is new, as after `connect` and `init`, whatever the
  -- server, the socket and the heartbeat do and however often it disconnects: every request's
  -- channel was opened exactly as often as it was settled, with its response or by being dropped,
  -- or is still waiting.
  pub run_conserves_requests :
      (es : List Event) (c : FutuClient) (tx : ℕ)
      → c.dispatcher ≡ Dispatcher.init
      → count tx (asked es)
        ≡ count tx (settled (run aes encode_request es c).1)
          + count tx (waiting (run aes encode_request es c).0.dispatcher)
  run_conserves_requests es c tx new =
      let calls = trace aes encode_request es c in
      let refined = run-refines aes encode_request es c ∙ ap (Dispatcher.run calls) new in
      ap (count tx) (sym (registered-trace es c))
      ∙ run_conserves calls tx
      ∙ ap (λ (q : Dispatcher × List Effect). count tx (settled q.1) + count tx (waiting q.0))
          (sym refined)
