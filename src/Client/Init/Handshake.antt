-- ===== src/Client/Init/Handshake.antt =====
-- When the handshake of init.rs succeeds, and what it leaves in the connection.
use nautilus_futu.Prelude.{
  ◌+◌, ◌%◌, ◌≡◌, refl, sym, ap, ◌∙◌, Bool, true, false, Option, none, some, Result, ok, err, ◌==◌,
  ◌&&◌, if◌then◌else◌, length, arith,
}
use nautilus_futu.Prelude.Words.{is_zero, u32_mod}
use nautilus_futu.Prelude.Text.{Text}
use nautilus_futu.Protocol.Codec.{FutuMessage}
use nautilus_futu.Protocol.Encryption.{Aes128, AesEcbCipher, new}
use nautilus_futu.Client.Connection.{
  FutuConnection, ConnectionError, disconnected, receive, Written, Frame, send_next, recv, decipher,
  set_cipher, set_conn_id,
}
use nautilus_futu.Client.Init.{
  InitCodec, InitError, InitConnectResponse, Init, S2c, Response, proto_id_init_connect, from_s2c,
  set_key, accept, with_response, with_message, init_connect,
}

-- The cipher after a handshake: from the server's key, if the configuration asks for encryption and
-- the key has 16 bytes.
abbrev pub agreed_cipher : FutuConnection → Text → Option AesEcbCipher
agreed_cipher c key =
    if c.config.enable_encryption && length key == 16 then some (new key) else none

-- A successful handshake over a connection without a cipher.
pub record Accepted (codec : InitCodec) (written : Written) (frame : Frame) (c : FutuConnection)
    (resp : InitConnectResponse) (c' : FutuConnection) : Type 0 where
  pub written_fine : written ≡ none
  pub message : FutuMessage
  pub answered : frame ≡ some (ok message)
  pub proto_id : message.proto_id ≡ proto_id_init_connect
  pub response : Response
  pub decoded : codec.decode_response message.body ≡ ok response
  pub success : is_zero response.ret_type ≡ true
  pub s2c : S2c
  pub given : response.s2c ≡ some s2c
  pub returned : resp ≡ from_s2c s2c
  pub connection : c' ≡ record c {
    serial_counter = (c.serial_counter + 1) % u32_mod;
    cipher = agreed_cipher c s2c.conn_aes_key;
    conn_id = s2c.conn_id;
  }

abbrev next : FutuConnection → FutuConnection
next c = record c { serial_counter = (c.serial_counter + 1) % u32_mod }

accept_lem :
    (s : S2c) (c : FutuConnection)
    → c.cipher ≡ none
    → accept s c
      ≡ (ok (from_s2c s), record c { cipher = agreed_cipher c s.conn_aes_key; conn_id = s.conn_id })
unfolding accept set_conn_id set_key set_cipher
accept_lem s c e = ground arith

accept-inv :
    (s : S2c) (c c' : FutuConnection) (resp : InitConnectResponse)
    → accept s c ≡ (ok resp, c')
    → resp ≡ from_s2c s
unfolding accept
accept-inv s c c' resp h = ground arith

with_response-ok :
    (r : Result Text Response) (c c' : FutuConnection) (resp : InitConnectResponse)
    → with_response r c ≡ (ok resp, c')
    → (response : Response) × (r ≡ ok response)
      × (is_zero response.ret_type ≡ true)
      × (s : S2c) × (response.s2c ≡ some s)
      × (accept s c ≡ (ok resp, c'))
unfolding with_response
with_response-ok (err e) c c' resp h = cc
with_response-ok (ok r) c c' resp h = go (is_zero r.ret_type) r.s2c refl refl
  where
    go :
        (b : Bool) (o : Option S2c)
        → is_zero r.ret_type ≡ b
        → r.s2c ≡ o
        → (response : Response) × (◌≡◌ {A = Result Text Response} (ok r) (ok response))
          × (is_zero response.ret_type ≡ true)
          × (s : S2c) × (response.s2c ≡ some s)
          × (accept s c ≡ (ok resp, c'))
    go true (some s) z e = (r, refl, z, s, e, ground arith)
    go true none z e = absurd (ground arith)
    go false o z e = absurd (ground arith)

with_response-err :
    (r : Result Text Response) (c c' : FutuConnection) (e : InitError)
    → with_response r c ≡ (err e, c')
    → c' ≡ c
unfolding with_response
with_response-err (err x) c c' e h = cc
with_response-err (ok r) c c' e h = ground arith

-- What the reader yields, as `recv` passes it on while there is no cipher.
abbrev plain : Frame → Result ConnectionError FutuMessage
plain none = err disconnected
plain (some (err e)) = err (receive e)
plain (some (ok m)) = ok m

recv-plain :
    (aes : Aes128) (frame : Frame) (c : FutuConnection)
    → c.cipher ≡ none
    → recv aes frame c ≡ (plain frame, c)
unfolding recv decipher
recv-plain aes none c e = refl
recv-plain aes (some (err x)) c e = refl
recv-plain aes (some (ok m)) c e = ground arith

module _ (codec : InitCodec) (aes : Aes128) where
  init_connect-sent :
      (frame : Frame) (c : FutuConnection)
      → c.cipher ≡ none
      → (init_connect codec aes none frame c).0 ≡ with_message codec (plain frame) (next c)
  unfolding init_connect send_next
  init_connect-sent frame c e =
      ap (λ (q : Result ConnectionError FutuMessage × FutuConnection). with_message codec q.0 q.1)
        (recv-plain aes frame (next c) e)

  message-ok :
      (m : FutuMessage) (c c' : FutuConnection) (resp : InitConnectResponse)
      → with_message codec (ok m) c ≡ (ok resp, c')
      → (m.proto_id ≡ proto_id_init_connect)
        × (with_response (codec.decode_response m.body) c ≡ (ok resp, c'))
  unfolding with_message
  message-ok m c c' resp h = ground arith

  accepted :
      (m : FutuMessage) (c c' : FutuConnection) (resp : InitConnectResponse)
      → c.cipher ≡ none
      → with_message codec (ok m) (next c) ≡ (ok resp, c')
      → Accepted codec none (some (ok m)) c resp c'
  accepted m c c' resp e h =
      let (proto, h') = message-ok m (next c) c' resp h in
      let (response, decoded, zero, s, given, h'') =
        with_response-ok (codec.decode_response m.body) (next c) c' resp h' in
      record {
        written_fine = refl;
        message = m;
        answered = refl;
        proto_id = proto;
        response = response;
        decoded = decoded;
        success = zero;
        s2c = s;
        given = given;
        returned = accept-inv s (next c) c' resp h'';
        connection = ap (λ (q : Init). q.1) (sym h'' ∙ accept_lem s (next c) e);
      }

  -- A handshake over a connection without a cipher succeeds only if the request was written, the
  -- answer is an InitConnect message that decodes, says success and has its content; the response
  -- is that content, and of the connection exactly the serial number, the cipher (from a key of 16
  -- bytes, if encryption is configured) and the connection id are new.
  pub init_connect-ok :
      (written : Written) (frame : Frame) (c c' : FutuConnection) (resp : InitConnectResponse)
      → c.cipher ≡ none
      → (init_connect codec aes written frame c).0 ≡ (ok resp, c')
      → Accepted codec written frame c resp c'
  init_connect-ok (some w) frame c c' resp e h = unfold init_connect send_next in cc
  init_connect-ok none (some (ok m)) c c' resp e h =
      accepted m c c' resp e (sym (init_connect-sent (some (ok m)) c e) ∙ h)
  init_connect-ok none (some (err x)) c c' resp e h =
      absurd (no_message x (sym (init_connect-sent (some (err x)) c e) ∙ h))
    where
      no_message : (x : Text) → with_message codec (err (receive x)) (next c) ≡ (ok resp, c') → ⊥
      no_message x p = unfold with_message in cc
  init_connect-ok none none c c' resp e h =
      absurd (no_message (sym (init_connect-sent none c e) ∙ h))
    where
      no_message : with_message codec (err disconnected) (next c) ≡ (ok resp, c') → ⊥
      no_message p = unfold with_message in cc

  message-err :
      (r : Result ConnectionError FutuMessage) (c c' : FutuConnection) (e : InitError)
      → with_message codec r c ≡ (err e, c')
      → c' ≡ c
  unfolding with_message
  message-err (err x) c c' e h = cc
  message-err (ok m) c c' e h =
      ground (arith, with_response-err (codec.decode_response m.body) c c' e)

  -- A handshake that fails, at whatever step, over a connection without a cipher changes nothing
  -- but the serial number: no cipher and no connection id is set.
  pub init_connect-err :
      (written : Written) (frame : Frame) (c c' : FutuConnection) (x : InitError)
      → c.cipher ≡ none
      → (init_connect codec aes written frame c).0 ≡ (err x, c')
      → c' ≡ record c { serial_counter = (c.serial_counter + 1) % u32_mod }
  init_connect-err (some w) frame c c' x e h = unfold init_connect send_next in cc
  init_connect-err none frame c c' x e h =
      message-err (plain frame) (next c) c' x (sym (init_connect-sent frame c e) ∙ h)
