-- ===== src/Client/Session/Life.antt =====
-- The life of a session of client/mod.rs: initialisation, the end of the receive loop, and what
-- becomes of requests after it.
use nautilus_futu.Prelude.{
  ℕ, ◌≡◌, refl, sym, ap, ◌∙◌, List, [], ◌∷◌, append-nil, subst, Bool, true, false, Option, none,
  some, map, Result, ok, err, arith, if◌then◌else◌,
}
use nautilus_futu.Prelude.Words.{ℤ}
use nautilus_futu.Prelude.Text.{Text}
use nautilus_futu.Protocol.Codec.{FutuMessage}
use nautilus_futu.Protocol.Encryption.{Aes128}
use nautilus_futu.Client.Connection.{
  FutuConnection, ConnectionError, Frame, Written, recv, send_next,
}
use nautilus_futu.Client.Dispatcher
use nautilus_futu.Client.Dispatcher.{Effect, cancel, register_request, register_push}
use nautilus_futu.Client.Dispatcher.Settle.{waiting}
use nautilus_futu.Client.Init.{InitCodec, InitConnectResponse, Init, init_connect}
use nautilus_futu.Client.Keepalive.{beating, beat, send_keepalive}
use nautilus_futu.Client.Session.{
  FutuClient, Event, asks, sends, listens, yields, beats, notices, disconnects, init, init_with,
  started, stop_receiving, received, recv_round, failure_round, heart_round, disconnect, step, run,
}

module _ (codec : InitCodec) (aes : Aes128) where
  started-ok :
      (i : Init) (c c' : FutuClient) (resp : InitConnectResponse)
      → started i c ≡ (ok resp, c')
      → (c'.init_response ≡ some resp) × (c'.receiving ≡ true)
  unfolding started
  started-ok (ok r, conn) c c' resp h = ground arith
  started-ok (err e, conn) c c' resp h = cc

  init_with-ok :
      (o : Option InitConnectResponse) (w : Written) (f : Frame) (c c' : FutuClient)
      (resp : InitConnectResponse)
      → c.init_response ≡ o
      → init_with codec aes o w f c ≡ (ok resp, c')
      → c'.init_response ≡ some resp
  unfolding init_with
  init_with-ok none w f c c' resp e h =
      (started-ok (init_connect codec aes w f c.conn).0 c c' resp h).0
  init_with-ok (some r) w f c c' resp e h = ground arith

  -- `init` may be called again: after it has succeeded, every further call returns the same
  -- response and changes nothing, whatever the socket would do.
  init_again :
      (w w' : Written) (f f' : Frame) (c c' : FutuClient) (resp : InitConnectResponse)
      → init codec aes w f c ≡ (ok resp, c')
      → init codec aes w' f' c' ≡ (ok resp, c')
  unfolding init
  init_again w w' f f' c c' resp h =
      ap (λ o. init_with codec aes o w' f' c') (init_with-ok c.init_response w f c c' resp refl h)
      ∙ unfold init_with in refl

-- The loop is over, nothing waits, and what waited was dropped: its callers get `disconnected`.
abbrev pub Ended : FutuClient → FutuClient × List Effect → Type 0
Ended c (c', effects) =
    (c'.receiving ≡ false)
    × (waiting c'.dispatcher ≡ [])
    × (effects ≡ map cancel (waiting c.dispatcher))

-- The events that end the receive loop: what `recv` returns is an error, the failure signal is
-- seen, or the client disconnects.
abbrev pub Fatal : Aes128 → Event → FutuClient → Type 0
Fatal aes (yields closed frame) c =
    (c.receiving ≡ true) × ((e : ConnectionError) × ((recv aes frame c.conn).0 ≡ err e))
Fatal aes notices c = (c.receiving ≡ true) × (c.signalled ≡ true)
Fatal aes disconnects c = Unit {0}
Fatal aes (asks p body tx w) c = ⊥
Fatal aes (sends p body w) c = ⊥
Fatal aes (listens p tx) c = ⊥
Fatal aes (beats now w) c = ⊥
Fatal aes Event.clears c = ⊥

received-err :
    (closed : ℕ → Bool) (r : Result ConnectionError FutuMessage) (conn : FutuConnection)
    (c : FutuClient) (e : ConnectionError)
    → r ≡ err e
    → Ended c (received closed (r, conn) c)
unfolding received Dispatcher.clear_pending
received-err closed (ok m) conn c e h = cc
received-err closed (err x) conn c e h = (refl, refl, refl)

abbrev pub three_failures : ℤ → ℤ → ℤ → Text → Text → Text → List Event
three_failures t1 t2 t3 e1 e2 e3 =
    beats t1 (some e1) ∷ beats t2 (some e2) ∷ beats t3 (some e3) ∷ notices ∷ []

module _ (aes : Aes128) (encode_request : ℤ → List ℕ) where
  yields-Ended :
      (closed : ℕ → Bool) (frame : Frame) (c : FutuClient) (b : Bool)
      → b ≡ true
      → (e : ConnectionError) × ((recv aes frame c.conn).0 ≡ err e)
      → Ended c (if b then received closed (recv aes frame c.conn) c else (c, []))
  yields-Ended closed frame c true t (e, h) =
      received-err closed (recv aes frame c.conn).0 (recv aes frame c.conn).1 c e h
  yields-Ended closed frame c false t h = cc

  notices-Ended :
      (c : FutuClient) (b s : Bool)
      → b ≡ true
      → s ≡ true
      → Ended c (if b then (if s then stop_receiving c else (c, [])) else (c, []))
  unfolding stop_receiving Dispatcher.clear_pending
  notices-Ended c true true t u = (refl, refl, refl)
  notices-Ended c true false t u = cc
  notices-Ended c false s t u = cc

  -- However the receive loop ends (an error of the socket or the framing, a body that cannot be
  -- decrypted, the end of the stream, the failure signal of the heartbeat, a disconnect), every
  -- request that waited is dropped, so that none hangs.
  pub step-Ended :
      (e : Event) (c : FutuClient) → Fatal aes e c → Ended c (step aes encode_request e c)
  unfolding step
  step-Ended (yields closed frame) c f =
      unfold recv_round in yields-Ended closed frame c c.receiving f.0 f.1
  step-Ended notices c f = unfold failure_round in notices-Ended c c.receiving c.signalled f.0 f.1
  step-Ended disconnects c f = unfold disconnect Dispatcher.clear_pending in (refl, refl, refl)
  step-Ended (asks p body tx w) c f = absurd f
  step-Ended (sends p body w) c f = absurd f
  step-Ended (listens p tx) c f = absurd f
  step-Ended (beats now w) c f = absurd f
  step-Ended Event.clears c f = absurd f

  beating_end :
      (c : FutuClient) (t1 t2 t3 : ℤ) (e1 e2 e3 : Text)
      → Ended
          (record c { heart = some (beating 0); receiving = true })
          (run aes encode_request
            (three_failures t1 t2 t3 e1 e2 e3)
            (record c { heart = some (beating 0); receiving = true }))
  unfolding run step heart_round send_keepalive send_next beat failure_round stop_receiving
      Dispatcher.clear_pending
  beating_end c t1 t2 t3 e1 e2 e3 = (refl, refl, append-nil (map cancel (waiting c.dispatcher)))

  -- Three failed heartbeats in a row, and the signal seen: the receive loop of a running client
  -- ends.
  pub heartbeats_end :
      (c : FutuClient) (t1 t2 t3 : ℤ) (e1 e2 e3 : Text)
      → c.heart ≡ some (beating 0)
      → c.receiving ≡ true
      → Ended c (run aes encode_request (three_failures t1 t2 t3 e1 e2 e3) c)
  heartbeats_end c t1 t2 t3 e1 e2 e3 h r =
      subst (λ c. Ended c (run aes encode_request (three_failures t1 t2 t3 e1 e2 e3) c))
        (λ i. record c { heart = sym h i; receiving = sym r i })
        (beating_end (record c { heart = some (beating 0); receiving = true }) t1 t2 t3 e1 e2 e3)
