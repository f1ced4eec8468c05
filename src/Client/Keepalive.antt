-- ===== src/Client/Keepalive.antt =====
-- crates/futu/src/client/keepalive.rs: the heartbeat. The clock and the encoding of the request,
-- which `prost` derives, are arguments. The loop is a function of the results of its beats.
pub mod Failures
use nautilus_futu.Prelude.{
  ℕ, suc, ◌+◌, ◌*◌, List, [], ◌∷◌, ◌++◌, Bool, true, false, Option, none, some, Result, ok, err,
  ltb, if◌then◌else◌,
}
use nautilus_futu.Prelude.Words.{ℤ, pos, negsuc}
use nautilus_futu.Prelude.Text.{Text}
use nautilus_futu.Protocol.Codec.{FutuMessage}
use nautilus_futu.Protocol.Encryption.{Aes128}
use nautilus_futu.Client.Connection.{FutuConnection, ConnectionError, Written, send_next}

abbrev pub proto_id_keep_alive : ℕ
proto_id_keep_alive = 1004

abbrev pub max_failures : ℕ
max_failures = 3

-- `interval_secs.max(1) as u64`
unfoldable pub interval : ℤ → ℕ
interval (pos n) = if ltb n 1 then 1 else n
interval (negsuc n) = 1

-- `encode_request now` is the body of the request with the time `now`.
module _ (aes : Aes128) (encode_request : ℤ → List ℕ) where
  abbrev pub done : Result ConnectionError ℕ → Result ConnectionError (Unit {0})
  done (ok serial_no) = ok tt
  done (err e) = err e

  unfoldable pub send_keepalive : ℤ → FutuConnection → Written → record {
    result : Result ConnectionError (Unit {0});
    message : FutuMessage;
    conn : FutuConnection;
  }
  send_keepalive now c written =
      let s = send_next aes c proto_id_keep_alive (encode_request now) written in
      record { result = done s.result; message = s.message; conn = s.conn }

-- The loop's state: its count of failures in a row, or stopped, with the signal sent.
pub data Heart : Type 0 where
  beating : ℕ → Heart
  stopped : Heart

abbrev pub start : Heart
start = beating 0

-- One round of the loop, from the result of `send_keepalive`.
unfoldable pub beat : Heart → Result ConnectionError (Unit {0}) → Heart
beat (beating consecutive_failures) (ok t) = beating 0
beat (beating consecutive_failures) (err e) =
    if ltb (consecutive_failures + 1) max_failures
    then beating (consecutive_failures + 1)
    else stopped
beat stopped r = stopped

unfoldable pub beats : Heart → List (Result ConnectionError (Unit {0})) → Heart
beats h [] = h
beats h (r ∷ rs) = beats (beat h r) rs
