-- ===== src/Client/Init.antt =====
-- crates/futu/src/client/init.rs, with the messages of crates/futu/src/generated/init_connect.rs:
-- the handshake. What `prost` derives for the messages, an encoder and a decoder, is a parameter.
pub mod Handshake
use nautilus_futu.Prelude.{
  ℕ, suc, List, [], ◌∷◌, Bool, true, false, Option, none, some, Result, ok, err, ◌==◌,
  if◌then◌else◌, length, ◌&&◌,
}
use nautilus_futu.Prelude.Words.{ℤ, pos, negsuc, is_zero}
use nautilus_futu.Prelude.Text.{Text, ascii}
use nautilus_futu.Protocol.Codec.{FutuMessage}
use nautilus_futu.Protocol.Encryption.{Aes128}
use nautilus_futu.Client.Connection.{
  FutuConnection, ConnectionError, Written, Frame, send_next, recv, set_cipher, set_conn_id,
}

abbrev pub proto_id_init_connect : ℕ
proto_id_init_connect = 1001

pub record C2s : Type 0 where
  pub client_ver : ℤ
  pub client_id : Text
  pub recv_notify : Option Bool
  pub packet_enc_algo : Option ℤ
  pub push_proto_fmt : Option ℤ
  pub programming_language : Option Text

pub record S2c : Type 0 where
  pub server_ver : ℤ
  pub login_user_id : ℕ
  pub conn_id : ℕ
  pub conn_aes_key : Text
  pub keep_alive_interval : ℤ
  pub aes_cb_civ : Option Text
  pub user_attribution : Option ℤ

pub record Response : Type 0 where
  pub ret_type : ℤ
  pub ret_msg : Option Text
  pub err_code : Option ℤ
  pub s2c : Option S2c

pub record InitConnectResponse : Type 0 where
  pub server_ver : ℤ
  pub login_user_id : ℕ
  pub conn_id : ℕ
  pub conn_aes_key : Text
  pub keep_alive_interval : ℤ

pub data InitError : Type 0 where
  connection : ConnectionError → InitError
  unexpected_proto : ℕ → InitError
  decode : Text → InitError
  server_error : ℤ → Text → InitError
  missing_s2c : InitError

-- The encoder of the request and the decoder of the response, with the text of its error.
pub record InitCodec : Type 0 where
  pub encode_request : C2s → List ℕ
  pub decode_response : List ℕ → Result Text Response

-- `ret_msg.unwrap_or_default()`
abbrev pub unwrap_or_default : Option Text → Text
unwrap_or_default none = []
unwrap_or_default (some t) = t

unfoldable pub init_request : FutuConnection → C2s
init_request c = record {
  client_ver = c.config.client_ver;
  client_id = c.config.client_id;
  recv_notify = some true;
  packet_enc_algo = some (if c.config.enable_encryption then pos 0 else negsuc 0);
  push_proto_fmt = some (pos 0);
  programming_language = some (ascii "Rust");
}

abbrev pub from_s2c : S2c → InitConnectResponse
from_s2c s = record {
  server_ver = s.server_ver;
  login_user_id = s.login_user_id;
  conn_id = s.conn_id;
  conn_aes_key = s.conn_aes_key;
  keep_alive_interval = s.keep_alive_interval;
}

abbrev pub Init : Type 0
Init = Result InitError InitConnectResponse × FutuConnection

-- The key is used if encryption was asked for and the key has 16 bytes.
unfoldable pub set_key : Text → FutuConnection → FutuConnection
set_key key c = if c.config.enable_encryption && length key == 16 then set_cipher key c else c

unfoldable pub accept : S2c → FutuConnection → Init
accept s c = (ok (from_s2c s), set_conn_id s.conn_id (set_key s.conn_aes_key c))

unfoldable pub with_s2c : Option S2c → FutuConnection → Init
unfolding accept
with_s2c none c = (err missing_s2c, c)
with_s2c (some s) c = accept s c

unfoldable pub with_response : Result Text Response → FutuConnection → Init
unfolding with_s2c
with_response (err e) c = (err (decode e), c)
with_response (ok r) c =
    if is_zero r.ret_type
    then with_s2c r.s2c c
    else (err (server_error r.ret_type (unwrap_or_default r.ret_msg)), c)

module _ (codec : InitCodec) where
  unfoldable pub with_message : Result ConnectionError FutuMessage → FutuConnection → Init
  unfolding with_response
  with_message (err e) c = (err (connection e), c)
  with_message (ok msg) c =
      if msg.proto_id == proto_id_init_connect
      then with_response (codec.decode_response msg.body) c
      else (err (unexpected_proto msg.proto_id), c)

  module _ (aes : Aes128) where
    unfoldable pub with_sent : Result ConnectionError ℕ → Frame → FutuConnection → Init
    unfolding with_message
    with_sent (err e) frame c = (err (connection e), c)
    with_sent (ok serial_no) frame c =
        let (received, c') = recv aes frame c in with_message received c'

    -- The handshake, with the outcome of its write and what the reader yields after it; and the
    -- message that it writes.
    unfoldable pub init_connect : Written → Frame → FutuConnection → Init × FutuMessage
    unfolding with_sent
    init_connect written frame c =
        let body = codec.encode_request (init_request c) in
        let s = send_next aes c proto_id_init_connect body written in
        (with_sent s.result frame s.conn, s.message)
