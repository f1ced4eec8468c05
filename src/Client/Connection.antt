-- ===== src/Client/Connection.antt =====
-- crates/futu/src/client/connection.rs: serial numbers, and the encryption of bodies. What the
-- socket does is an argument: a write succeeds or fails with a text, and the framed reader yields a
-- message, an error or the end of the stream. Each method is one step: it reads and writes the
-- cipher under its lock. The messages in the log are left out.
pub mod Serial
pub mod Delivery
use nautilus_futu.Prelude.{
  ℕ, suc, ◌+◌, ◌%◌, List, [], ◌∷◌, Bool, Option, none, some, Result, ok, err, map_err, ◌==◌,
  if◌then◌else◌, length,
}
use nautilus_futu.Prelude.Words.{u32_mod}
use nautilus_futu.Prelude.Text.{Text, ascii}
use nautilus_futu.Config.{FutuConfig}
use nautilus_futu.Protocol.Codec.{FutuMessage}
use nautilus_futu.Protocol.Encryption.{
  Aes128, AesEcbCipher, EncryptionError, invalid_ciphertext, invalid_padding, rsa, encrypt, decrypt,
  is_empty, new,
}

pub data ConnectionError : Type 0 where
  io send receive decryption : Text → ConnectionError
  disconnected : ConnectionError

pub record FutuConnection : Type 0 where
  pub config : FutuConfig
  pub serial_counter : ℕ
  pub cipher : Option AesEcbCipher
  pub conn_id : ℕ

-- The outcome of a write: none, or the text of its error.
abbrev pub Written : Type 0
Written = Option Text

-- What the framed reader yields next.
abbrev pub Frame : Type 0
Frame = Option (Result Text FutuMessage)

-- `connect` with what `TcpStream::connect` and `set_nodelay` return.
unfoldable pub connect : Written → FutuConfig → Result ConnectionError FutuConnection
connect (some e) config = err (io e)
connect none config =
    ok (record { config = config; serial_counter = 1; cipher = none; conn_id = 0 })

-- `fetch_add` wraps around at 2 ^ 32.
unfoldable pub next_serial : FutuConnection → ℕ × FutuConnection
next_serial c = (c.serial_counter, record c { serial_counter = (c.serial_counter + 1) % u32_mod })

-- `e.to_string()`
abbrev pub encryption_text : EncryptionError → Text
encryption_text invalid_ciphertext = ascii "invalid ciphertext length"
encryption_text invalid_padding = ascii "invalid PKCS7 padding"
encryption_text (rsa t) = t

abbrev pub write_result : Written → Result ConnectionError (Unit {0})
write_result none = ok tt
write_result (some e) = err (send e)

unfoldable pub with_text :
    Result EncryptionError (List ℕ) → FutuMessage → Result ConnectionError FutuMessage
with_text (ok text) msg = ok (record msg { body = text })
with_text (err e) msg = err (decryption (encryption_text e))

module _ (aes : Aes128) where
  unfoldable pub body_to_send : Option AesEcbCipher → List ℕ → List ℕ
  body_to_send none body = body
  body_to_send (some c) body = encrypt aes c body

  -- The message that goes to the framed writer.
  unfoldable pub outgoing : FutuConnection → ℕ → List ℕ → ℕ → FutuMessage
  unfolding body_to_send
  outgoing c proto_id body serial_no = record {
    proto_id = proto_id;
    serial_no = serial_no;
    body = body_to_send c.cipher body;
  }

  unfoldable pub send_with_serial :
      FutuConnection → ℕ → List ℕ → ℕ → Written → Result ConnectionError (Unit {0}) × FutuMessage
  unfolding outgoing
  send_with_serial c proto_id body serial_no written =
      (write_result written, outgoing c proto_id body serial_no)

  abbrev pub sent_as : ℕ → Result ConnectionError (Unit {0}) → Result ConnectionError ℕ
  sent_as serial_no (ok t) = ok serial_no
  sent_as serial_no (err e) = err e

  -- `FutuConnection::send`
  unfoldable pub send_next :
      FutuConnection
      → ℕ
      → List ℕ
      → Written
      → record { result : Result ConnectionError ℕ; message : FutuMessage; conn : FutuConnection }
  unfolding next_serial send_with_serial
  send_next c proto_id body written =
      let (serial_no, c') = next_serial c in
      let (sent, message) = send_with_serial c' proto_id body serial_no written in
      record { result = sent_as serial_no sent; message = message; conn = c' }

  -- A body whose length is no multiple of 16 is not encrypted; it turns the cipher off for good.
  unfoldable pub decipher :
      Option AesEcbCipher
      → FutuMessage
      → FutuConnection
      → Result ConnectionError FutuMessage × FutuConnection
  unfolding with_text
  decipher none msg c = (ok msg, c)
  decipher (some k) msg c =
      if is_empty msg.body
      then (ok msg, c)
      else if length msg.body % 16 == 0
      then (with_text (decrypt aes k msg.body) msg, c)
      else (ok msg, record c { cipher = none })

  unfoldable pub recv : Frame → FutuConnection → Result ConnectionError FutuMessage × FutuConnection
  unfolding decipher
  recv (some (ok msg)) c = decipher c.cipher msg c
  recv (some (err e)) c = (err (receive e), c)
  recv none c = (err disconnected, c)

unfoldable pub set_cipher : List ℕ → FutuConnection → FutuConnection
set_cipher key c = record c { cipher = some (new key) }

unfoldable pub set_conn_id : ℕ → FutuConnection → FutuConnection
set_conn_id id c = record c { conn_id = id }
