-- ===== src/Client/Connection/Delivery.antt =====
-- Messages from `send_with_serial` at one end to `recv` at the other.
use nautilus_futu.Prelude.{
  ℕ, ◌%◌, ◌≡◌, ◌≢◌, refl, ap, ◌∙◌, List, [], ◌∷◌, false, Option, none, some, Result, ok, map,
  concat, arith, length,
}
use nautilus_futu.Protocol.Sha1.{Sha1}
use nautilus_futu.Protocol.Codec.{FutuMessage}
use nautilus_futu.Protocol.Codec.Stream.{Drained, waiting}
use nautilus_futu.Protocol.Codec.Stream.Chunks.{
  AllSendable, encode_all, read_chunks, read_chunks-encode_all,
}
use nautilus_futu.Protocol.Encryption.{Aes128, AesEcbCipher, encrypt, decrypt, is_empty}
use nautilus_futu.Protocol.Encryption.RoundTrip.{length-encrypt, decrypt-encrypt}
use nautilus_futu.Client.Connection.{
  FutuConnection, ConnectionError, body_to_send, outgoing, recv, decipher, with_text,
}

is_empty_long : (xs : List ℕ) → xs ≢ [] → is_empty xs ≡ false
is_empty_long [] h = absurd (h refl)
is_empty_long (x ∷ xs) h = refl

module _ (aes : Aes128) where
  decipher_whole :
      (k : AesEcbCipher) (msg : FutuMessage) (c : FutuConnection)
      → msg.body ≢ []
      → length msg.body % 16 ≡ 0
      → decipher aes (some k) msg c ≡ (with_text (decrypt aes k msg.body) msg, c)
  unfolding decipher
  decipher_whole k msg c n e = rw (is_empty_long msg.body n, e)

  decipher_part :
      (k : AesEcbCipher) (msg : FutuMessage) (c : FutuConnection)
      → msg.body ≢ []
      → length msg.body % 16 ≢ 0
      → decipher aes (some k) msg c ≡ (ok msg, record c { cipher = none })
  unfolding decipher
  decipher_part k msg c n e = rw (is_empty_long msg.body n) (ground arith)

  encrypt-ne-nil : (k : AesEcbCipher) (body : List ℕ) → encrypt aes k body ≢ []
  encrypt-ne-nil k body e = omega (arith, ap length e, length-encrypt aes k body)

  decipher-body_to_send :
      (o : Option AesEcbCipher) (p s : ℕ) (body : List ℕ) (c : FutuConnection)
      → decipher aes o (record { proto_id = p; serial_no = s; body = body_to_send aes o body }) c
        ≡ (ok (record { proto_id = p; serial_no = s; body = body }), c)
  unfolding body_to_send
  decipher-body_to_send none p s body c = unfold decipher in refl
  decipher-body_to_send (some k) p s body c =
      decipher_whole k (record { proto_id = p; serial_no = s; body = encrypt aes k body }) c
        (encrypt-ne-nil k body) (omega (arith, length-encrypt aes k body))
      ∙ ap
          (λ r.
            (with_text r (record { proto_id = p; serial_no = s; body = encrypt aes k body }), c))
          (decrypt-encrypt aes k body)
      ∙ unfold with_text in refl

  -- With the same cipher at both ends, or none, `recv` returns the message that was sent, body and
  -- ids, and changes nothing of the connection.
  pub recv-outgoing :
      (a b : FutuConnection) (proto_id serial_no : ℕ) (body : List ℕ)
      → a.cipher ≡ b.cipher
      → recv aes (some (ok (outgoing aes a proto_id body serial_no))) b
        ≡ (ok (record { proto_id = proto_id; serial_no = serial_no; body = body }), b)
  unfolding recv outgoing
  recv-outgoing a b p s body e =
      ap
        (λ o.
          decipher aes b.cipher
            (record { proto_id = p; serial_no = s; body = body_to_send aes o body }) b)
        e
      ∙ decipher-body_to_send b.cipher p s body b

  -- The messages of a stream, received one after the other.
  pub recv_all :
      List FutuMessage → FutuConnection → List (Result ConnectionError FutuMessage) × FutuConnection
  recv_all [] c = ([], c)
  recv_all (m ∷ ms) c =
      let (r, c') = recv aes (some (ok m)) c in let (rs, last) = recv_all ms c' in (r ∷ rs, last)

  abbrev pub sent : FutuConnection → FutuMessage → FutuMessage
  sent a m = outgoing aes a m.proto_id m.body m.serial_no

  recv_all-sent :
      (a b : FutuConnection) (ms : List FutuMessage)
      → a.cipher ≡ b.cipher
      → recv_all (map (sent a) ms) b ≡ (map (λ m. ok m) ms, b)
  unfolding recv_all
  recv_all-sent a b [] e = refl
  recv_all-sent a b (m ∷ ms) e =
      let first = recv-outgoing a b m.proto_id m.serial_no m.body e in
      ap
        (λ (q : Result ConnectionError FutuMessage × FutuConnection).
          (q.0 ∷ (recv_all (map (sent a) ms) q.1).0, (recv_all (map (sent a) ms) q.1).1))
        first
      ∙ ap (λ (q : List (Result ConnectionError FutuMessage) × FutuConnection). (ok m ∷ q.0, q.1))
          (recv_all-sent a b ms e)

  -- From `send` at one end of the wire to `recv` at the other: with the same cipher, or none, at
  -- both ends, the messages arrive in order, deciphered, each once, however the bytes of their
  -- frames are cut into chunks, if ids are 32-bit and the bodies as sent within the limit.
  pub recv_all-read_chunks :
      (sha1 : Sha1) (a b : FutuConnection) (ms : List FutuMessage) (chunks : List (List ℕ))
      → a.cipher ≡ b.cipher
      → AllSendable (map (sent a) ms)
      → concat chunks ≡ encode_all sha1 (map (sent a) ms) []
      → recv_all (read_chunks sha1 (waiting []) chunks).messages b ≡ (map (λ m. ok m) ms, b)
  recv_all-read_chunks sha1 a b ms chunks e w c =
      ap (λ (d : Drained). recv_all d.messages b)
        (read_chunks-encode_all sha1 (map (sent a) ms) chunks w c)
      ∙ recv_all-sent a b ms e

  -- A body that is not empty and no whole number of blocks turns the cipher off.
  pub recv_part :
      (c : FutuConnection) (k : AesEcbCipher) (msg : FutuMessage)
      → c.cipher ≡ some k
      → msg.body ≢ []
      → length msg.body % 16 ≢ 0
      → recv aes (some (ok msg)) c ≡ (ok msg, record c { cipher = none })
  unfolding recv
  recv_part c k msg e n h = ap (λ o. decipher aes o msg c) e ∙ decipher_part k msg c n h
