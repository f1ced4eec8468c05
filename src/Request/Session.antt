-- ===== src/Request/Session.antt =====
-- The client of crates/futu/src/client/mod.rs as the request functions see it.
use nautilus_futu.Prelude.{ℕ, List, ◌∷◌, Result, ok, err}
use nautilus_futu.Protocol.Codec.{FutuMessage}
use nautilus_futu.Protocol.Encryption.{Aes128}
use nautilus_futu.Client.Connection.{ConnectionError, Written, next_serial}
use nautilus_futu.Client.Session
use nautilus_futu.Client.Session.{FutuClient}
use nautilus_futu.Request.{Requester}

-- A client, and the messages that its requests gave to the writer, newest first.
pub record Line : Type 0 where
  pub client : FutuClient
  pub sent : List FutuMessage

-- A request whose write succeeded waits for `answer`: what the session brings until its channel is
-- settled.
abbrev pub replied :
    (FutuClient → Result ConnectionError FutuMessage × FutuClient)
    → Result ConnectionError (Unit {0})
    → FutuClient
    → Result ConnectionError FutuMessage × FutuClient
replied answer (ok t) c = answer c
replied answer (err e) c = (err e, c)

module _ (aes : Aes128) (tx : ℕ) (written : Written)
    (answer : FutuClient → Result ConnectionError FutuMessage × FutuClient) where
  unfoldable pub request : ℕ → List ℕ → Line → Result ConnectionError FutuMessage × Line
  request proto_id body l =
      let r = Session.request aes proto_id body tx written l.client in
      let (reply, c) = replied answer r.result r.client in
      (reply, record { client = c; sent = r.message ∷ l.sent })

  -- `client.connection().next_serial()`
  unfoldable pub take_serial : Line → ℕ × Line
  take_serial l =
      let (serial_no, conn) = next_serial l.client.conn in
      (serial_no, record l { client = record l.client { conn = conn } })

  abbrev pub requester : Requester Line
  requester = record {
    request = request;
    next_serial = take_serial;
    conn_id = λ l. l.client.conn.conn_id;
  }
