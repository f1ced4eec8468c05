-- ===== src/Client/Dispatcher/Routing.antt =====
-- Where dispatcher.rs sends a message.
use nautilus_futu.Prelude.{
  ℕ, ◌≡◌, ◌≢◌, refl, sym, ap, ◌∙◌, List, [], ◌∷◌, ◌++◌, append_assoc, append-nil, Bool, true,
  Option, none, some, map, arith, if◌then◌else◌, ◌==◌,
}
use nautilus_futu.Prelude.Maps.{lookup, lookup-insert, lookup-remove}
use nautilus_futu.Protocol.Codec.{FutuMessage}
use nautilus_futu.Client.Dispatcher.{
  Dispatcher, complete, deliver, init, register_request, register_push, clear_pending, push_to,
  respond, dispatch, retain_open, or_default, Call, requests, listens, clears, receives, step, run,
}

-- No call touches the serial number: none registers it, receives it or clears the requests.
abbrev pub Quiet : ℕ → List Call → Type 0
Quiet s [] = Unit {0}
Quiet s (requests s' tx ∷ cs) = (s' ≢ s) × Quiet s cs
Quiet s (listens p tx ∷ cs) = Quiet s cs
Quiet s (clears ∷ cs) = ⊥
Quiet s (receives c m ∷ cs) = (m.serial_no ≢ s) × Quiet s cs

pending-push_to :
    (closed : ℕ → Bool) (m : FutuMessage) (o : Option (List ℕ)) (d : Dispatcher)
    → (push_to closed m o d).0.pending ≡ d.pending
unfolding push_to
pending-push_to closed m none d = refl
pending-push_to closed m (some txs) d = refl

respond-Quiet :
    (closed : ℕ → Bool) (m : FutuMessage) (o : Option ℕ) (d : Dispatcher) (s : ℕ)
    → m.serial_no ≢ s
    → lookup s (respond closed m o d).0.pending ≡ lookup s d.pending
unfolding respond
respond-Quiet closed m none d s n =
    ap (lookup s) (pending-push_to closed m (lookup m.proto_id d.push_handlers) d)
respond-Quiet closed m (some tx) d s n = ground (arith, lookup-remove m.serial_no s d.pending)

run-Quiet :
    (s : ℕ) (cs : List Call) (d : Dispatcher)
    → Quiet s cs
    → lookup s (run cs d).0.pending ≡ lookup s d.pending
unfolding run step
run-Quiet s [] d q = refl
run-Quiet s (requests s' tx ∷ cs) d q =
    run-Quiet s cs (register_request s' tx d).0 q.1
    ∙ unfold register_request in ground (arith, lookup-insert s' s tx d.pending, q.0)
run-Quiet s (listens p tx ∷ cs) d q =
    run-Quiet s cs (register_push p tx d) q ∙ unfold register_push in refl
run-Quiet s (clears ∷ cs) d q = absurd q
run-Quiet s (receives closed m ∷ cs) d q =
    run-Quiet s cs (dispatch closed m d).0 q.1
    ∙ unfold dispatch in respond-Quiet closed m (lookup m.serial_no d.pending) d s q.0

-- A response completes the request that is registered under its serial number, whatever other calls
-- came between, and reaches no push handler.
pub dispatch-response :
    (s tx : ℕ) (cs : List Call) (d : Dispatcher) (closed : ℕ → Bool) (m : FutuMessage)
    → Quiet s cs
    → m.serial_no ≡ s
    → (dispatch closed m (run (requests s tx ∷ cs) d).0).1 ≡ complete tx m ∷ []
unfolding run step dispatch
dispatch-response s tx cs d closed m q e =
    let d' = (run cs (register_request s tx d).0).0 in ap (λ o. (respond closed m o d').1) here
  where
    registered : lookup s (register_request s tx d).0.pending ≡ some tx
    registered = unfold register_request in ground (arith, lookup-insert s s tx d.pending)

    here : lookup m.serial_no (run cs (register_request s tx d).0).0.pending ≡ some tx
    here =
        ap (λ k. lookup k (run cs (register_request s tx d).0).0.pending) e
        ∙ run-Quiet s cs (register_request s tx d).0 q
        ∙ registered

-- The senders that were registered for a protocol id, oldest first.
abbrev pub listeners : ℕ → List Call → List ℕ
listeners p [] = []
listeners p (requests s tx ∷ cs) = listeners p cs
listeners p (listens p' tx ∷ cs) = if p' == p then tx ∷ listeners p cs else listeners p cs
listeners p (clears ∷ cs) = listeners p cs
listeners p (receives c m ∷ cs) = listeners p cs

-- A receiver that was closed at an earlier message is still closed.
abbrev pub StaysClosed : (ℕ → Bool) → List Call → Type 0
StaysClosed closed [] = Unit {0}
StaysClosed closed (requests s tx ∷ cs) = StaysClosed closed cs
StaysClosed closed (listens p tx ∷ cs) = StaysClosed closed cs
StaysClosed closed (clears ∷ cs) = StaysClosed closed cs
StaysClosed closed (receives c m ∷ cs) =
    ((tx : ℕ) → c tx ≡ true → closed tx ≡ true) × StaysClosed closed cs

abbrev handlers : ℕ → Dispatcher → List ℕ
handlers p d = or_default (lookup p d.push_handlers)

retain_open-append :
    (closed : ℕ → Bool) (xs ys : List ℕ)
    → retain_open closed (xs ++ ys) ≡ retain_open closed xs ++ retain_open closed ys
unfolding retain_open
retain_open-append closed [] ys = refl
retain_open-append closed (x ∷ xs) ys = ground (arith, retain_open-append closed xs ys)

retain_open-retain_open :
    (closed c : ℕ → Bool) (xs : List ℕ)
    → ((tx : ℕ) → c tx ≡ true → closed tx ≡ true)
    → retain_open closed (retain_open c xs) ≡ retain_open closed xs
unfolding retain_open
retain_open-retain_open closed c [] h = refl
retain_open-retain_open closed c (x ∷ xs) h =
    ground (arith, h x, retain_open-retain_open closed c xs h)

module _ (closed : ℕ → Bool) (p : ℕ) where
  abbrev live : Dispatcher → List ℕ
  live d = retain_open closed (handlers p d)

  live-push_to :
      (c : ℕ → Bool) (m : FutuMessage) (o : Option (List ℕ)) (d : Dispatcher)
      → ((tx : ℕ) → c tx ≡ true → closed tx ≡ true)
      → lookup m.proto_id d.push_handlers ≡ o
      → live (push_to c m o d).0 ≡ live d
  unfolding push_to
  live-push_to c m none d h e = refl
  live-push_to c m (some txs) d h e = ground (
    arith,
    lookup-insert m.proto_id p (retain_open c txs) d.push_handlers,
    retain_open-retain_open closed c txs h,
  )

  live-respond :
      (c : ℕ → Bool) (m : FutuMessage) (o : Option ℕ) (d : Dispatcher)
      → ((tx : ℕ) → c tx ≡ true → closed tx ≡ true)
      → live (respond c m o d).0 ≡ live d
  unfolding respond
  live-respond c m none d h = live-push_to c m (lookup m.proto_id d.push_handlers) d h refl
  live-respond c m (some tx) d h = refl

  retain_open-nil : retain_open closed [] ≡ []
  unfolding retain_open
  retain_open-nil = refl

  listeners-listens :
      (p' tx : ℕ) (cs : List Call)
      → (if p' == p then tx ∷ [] else []) ++ listeners p cs ≡ listeners p (listens p' tx ∷ cs)
  listeners-listens p' tx cs = ground arith

  live-listen :
      (p' tx : ℕ) (d : Dispatcher)
      → live (register_push p' tx d)
        ≡ live d ++ retain_open closed (if p' == p then tx ∷ [] else [])
  unfolding register_push
  live-listen p' tx d = ground (
    arith,
    lookup-insert p' p (handlers p' d ++ tx ∷ []) d.push_handlers,
    retain_open-append closed (handlers p d) (tx ∷ []),
    append-nil (live d),
    retain_open-nil,
  )

  live-run :
      (cs : List Call) (d : Dispatcher)
      → StaysClosed closed cs
      → live (run cs d).0 ≡ live d ++ retain_open closed (listeners p cs)
  unfolding run step
  live-run [] d h = unfold retain_open in sym (append-nil (live d))
  live-run (requests s tx ∷ cs) d h =
      live-run cs (register_request s tx d).0 h ∙ unfold register_request in refl
  live-run (listens p' tx ∷ cs) d h =
      let new : List ℕ = if p' == p then tx ∷ [] else [] in
      live-run cs (register_push p' tx d) h
      ∙ ap (λ l. l ++ retain_open closed (listeners p cs)) (live-listen p' tx d)
      ∙ append_assoc (live d) (retain_open closed new) (retain_open closed (listeners p cs))
      ∙ ap (λ l. live d ++ l)
          (sym (retain_open-append closed new (listeners p cs))
            ∙ ap (retain_open closed) (listeners-listens p' tx cs))
  live-run (clears ∷ cs) d h = live-run cs (clear_pending d).0 h ∙ unfold clear_pending in refl
  live-run (receives c m ∷ cs) d h =
      live-run cs (dispatch c m d).0 h.1
      ∙ ap (λ l. l ++ retain_open closed (listeners p cs))
          (unfold dispatch in live-respond c m (lookup m.serial_no d.pending) d h.0)

push_to_lem :
    (closed : ℕ → Bool) (m : FutuMessage) (d : Dispatcher) (o : Option (List ℕ))
    → (push_to closed m o d).1 ≡ map (λ tx. deliver tx m) (retain_open closed (or_default o))
unfolding push_to
push_to_lem closed m d none = unfold retain_open in refl
push_to_lem closed m d (some txs) = refl

-- A message that answers no pending request goes, once each and oldest first, to exactly those
-- senders ever registered for its protocol id whose receiver is not closed, if closed receivers
-- stay closed; so what was dropped at earlier messages is missed by none.
pub dispatch-push :
    (closed : ℕ → Bool) (cs : List Call) (m : FutuMessage)
    → StaysClosed closed cs
    → lookup m.serial_no (run cs init).0.pending ≡ none
    → (dispatch closed m (run cs init).0).1
      ≡ map (λ tx. deliver tx m) (retain_open closed (listeners m.proto_id cs))
dispatch-push closed cs m h e =
    let d = (run cs init).0 in
    no_request d e
    ∙ push_to_lem closed m d (lookup m.proto_id d.push_handlers)
    ∙ ap (map (λ tx. deliver tx m)) (live-run closed m.proto_id cs init h ∙ empty)
  where
    no_request :
        (d : Dispatcher)
        → lookup m.serial_no d.pending ≡ none
        → (dispatch closed m d).1 ≡ (push_to closed m (lookup m.proto_id d.push_handlers) d).1
    no_request d e =
        unfold dispatch in ap (λ o. (respond closed m o d).1) e ∙ unfold respond in refl

    empty :
        live closed m.proto_id init ++ retain_open closed (listeners m.proto_id cs)
        ≡ retain_open closed (listeners m.proto_id cs)
    empty = unfold lookup retain_open in refl
