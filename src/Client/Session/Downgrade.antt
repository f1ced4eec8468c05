-- ===== src/Client/Session/Downgrade.antt =====
-- A session of client/mod.rs after connection.rs has turned encryption off.
use nautilus_futu.Prelude.{
  ℕ, ◌%◌, ◌≡◌, ◌≢◌, refl, sym, ap, subst, ◌∙◌, List, [], ◌∷◌, Bool, true, false, Option, none, some,
  Result, ok, err, length, if◌then◌else◌,
}
use nautilus_futu.Prelude.Words.{ℤ}
use nautilus_futu.Protocol.Codec.{FutuMessage}
use nautilus_futu.Protocol.Encryption.{Aes128, AesEcbCipher}
use nautilus_futu.Client.Connection.{
  FutuConnection, ConnectionError, Written, Frame, next_serial, recv, decipher, send_next, outgoing,
  body_to_send,
}
use nautilus_futu.Client.Connection.Delivery.{recv_part}
use nautilus_futu.Client.Keepalive.{Heart, beating, stopped, send_keepalive}
use nautilus_futu.Client.Session.{
  FutuClient, Event, asks, sends, listens, yields, beats, notices, clears, disconnects, request,
  send_only, subscribe_push, clear_pending, stop_receiving, received, recv_round, failure_round,
  heart_round, disconnect, step, run,
}

module _ (aes : Aes128) where
  -- Encryption is off.
  abbrev Plain : FutuClient → Type 0
  Plain c = c.conn.cipher ≡ none

  received-Plain :
      (closed : ℕ → Bool) (r : Result ConnectionError FutuMessage) (conn : FutuConnection)
      (c : FutuClient)
      → conn.cipher ≡ none
      → Plain (received closed (r, conn) c).0
  unfolding received stop_receiving
  received-Plain closed (ok m) conn c e = e
  received-Plain closed (err x) conn c e = e

  recv_off :
      (f : Frame) (conn : FutuConnection) → conn.cipher ≡ none → (recv aes f conn).1.cipher ≡ none
  unfolding recv
  recv_off none conn e = e
  recv_off (some (err x)) conn e = e
  recv_off (some (ok m)) conn e =
      ap (λ o. (decipher aes o m conn).1.cipher) e ∙ unfold decipher in e

  recv_round-Plain :
      (closed : ℕ → Bool) (f : Frame) (c : FutuClient) (b : Bool)
      → Plain c
      → Plain (if b then received closed (recv aes f c.conn) c else (c, [])).0
  recv_round-Plain closed f c true e =
      received-Plain closed (recv aes f c.conn).0 (recv aes f c.conn).1 c (recv_off f c.conn e)
  recv_round-Plain closed f c false e = e

  turned_off :
      (closed : ℕ → Bool) (k : AesEcbCipher) (msg : FutuMessage) (c : FutuClient)
      → c.receiving ≡ true
      → c.conn.cipher ≡ some k
      → msg.body ≢ []
      → length msg.body % 16 ≢ 0
      → Plain (recv_round aes closed (some (ok msg)) c).0
  unfolding recv_round
  turned_off closed k msg c on e n h =
      let r = recv aes (some (ok msg)) c.conn in
      subst (λ b. Plain (if b then received closed r c else (c, [])).0) (sym on)
        (received-Plain closed r.0 r.1 c (
          ap (λ (q : Result ConnectionError FutuMessage × FutuConnection). q.1.cipher)
            (recv_part aes c.conn k msg e n h)))

  failure_round-Plain :
      (c : FutuClient) (b s : Bool)
      → Plain c
      → Plain (if b then (if s then stop_receiving c else (c, [])) else (c, [])).0
  unfolding stop_receiving
  failure_round-Plain c false s e = e
  failure_round-Plain c true false e = e
  failure_round-Plain c true true e = e

  module _ (encode_request : ℤ → List ℕ) where
    heart_round-Plain :
        (now : ℤ) (w : Written) (h : Option Heart) (c : FutuClient)
        → Plain c
        → Plain (heart_round aes encode_request now w h c)
    unfolding heart_round send_keepalive send_next next_serial
    heart_round-Plain now w none c e = e
    heart_round-Plain now w (some stopped) c e = e
    heart_round-Plain now w (some (beating n)) c e = e

    step-Plain : (e : Event) (c : FutuClient) → Plain c → Plain (step aes encode_request e c).0
    unfolding step
    step-Plain (asks p body tx w) c e = unfold request next_serial in e
    step-Plain (sends p body w) c e = unfold send_only send_next next_serial in e
    step-Plain (listens p tx) c e = unfold subscribe_push in e
    step-Plain (yields closed f) c e =
        unfold recv_round in recv_round-Plain closed f c c.receiving e
    step-Plain (beats now w) c e = heart_round-Plain now w c.heart c e
    step-Plain notices c e = unfold failure_round in failure_round-Plain c c.receiving c.signalled e
    step-Plain clears c e = unfold clear_pending in e
    step-Plain disconnects c e = unfold disconnect in e

    run-Plain : (es : List Event) (c : FutuClient) → Plain c → Plain (run aes encode_request es c).0
    unfolding run
    run-Plain [] c e = e
    run-Plain (e ∷ es) c p = run-Plain es (step aes encode_request e c).0 (step-Plain e c p)

    -- Of a session in which the receive loop runs and the cipher is on: once a message comes whose
    -- body is not empty and no whole number of blocks, whatever events of the session follow, a body that is
    -- then sent goes out as it is, and a message that then comes is handed on as it is.
    pub run-downgraded :
        (closed : ℕ → Bool) (k : AesEcbCipher) (msg : FutuMessage) (es : List Event)
        (c : FutuClient) (proto_id serial_no : ℕ) (body : List ℕ) (later : FutuMessage)
        → c.receiving ≡ true
        → c.conn.cipher ≡ some k
        → msg.body ≢ []
        → length msg.body % 16 ≢ 0
        → let conn = (run aes encode_request (yields closed (some (ok msg)) ∷ es) c).0.conn in
          ((outgoing aes conn proto_id body serial_no).body ≡ body)
          × ((recv aes (some (ok later)) conn).0 ≡ ok later)
    unfolding run
    run-downgraded closed k msg es c proto_id serial_no body later on e n h =
        let c' = (step aes encode_request (yields closed (some (ok msg))) c).0 in
        let off = run-Plain es c' (unfold step in turned_off closed k msg c on e n h) in
        (
          unfold outgoing body_to_send in ap (λ o. body_to_send aes o body) off,
          unfold recv in
              ap (λ o. (decipher aes o later (run aes encode_request es c').0.conn).0) off
              ∙ unfold decipher in refl,
        )
