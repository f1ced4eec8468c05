-- ===== src/Protocol/Codec.antt =====
-- crates/futu/src/protocol/codec.rs: framing. `Codec::decode` takes the buffer of received bytes
-- and returns its result and what is left in the buffer; `src.reserve` changes no byte.
pub mod Outcome
pub mod RoundTrip
pub mod Growth
pub mod Sound
pub mod Damage
pub mod Stream
use nautilus_futu.Prelude.{
  ℕ, ◌+◌, List, ◌++◌, Option, none, some, Result, ok, err, ltb, if◌then◌else◌, length, take, drop,
}
use nautilus_futu.Protocol.Sha1.{Sha1}
use nautilus_futu.Protocol.Header
use nautilus_futu.Protocol.Header.{
  PacketHeader, HeaderError, insufficient_data, invalid_magic, header_size, new, verify_body,
}

pub record FutuMessage : Type 0 where
  pub proto_id : ℕ
  pub serial_no : ℕ
  pub body : List ℕ

abbrev pub max_body_size : ℕ
max_body_size = 100_000_000

-- `io` is made by the framing of `tokio_util` alone, from an error of the socket.
pub data CodecError : Type 0 where
  header : HeaderError → CodecError
  io : List ℕ → CodecError
  body_too_large : ℕ → CodecError
  checksum_mismatch : ℕ → ℕ → CodecError

abbrev pub Decoded : Type 0
Decoded = Result CodecError (Option FutuMessage) × List ℕ

module _ (sha1 : Sha1) where
  -- The end of `decode`: the header is consumed, then the body, then the checksum is compared.
  unfoldable pub finish : PacketHeader → List ℕ → List ℕ → Decoded
  finish h body rest =
      if verify_body sha1 h body
      then (
        ok (some (record { proto_id = h.proto_id; serial_no = h.serial_no; body = body })),
        rest,
      )
      else (err (checksum_mismatch h.proto_id h.serial_no), rest)

  unfoldable pub take_frame : ℕ → Result HeaderError PacketHeader × List ℕ → Decoded
  unfolding finish
  take_frame body_len (err e, src) = (err (header e), src)
  take_frame body_len (ok h, src) = finish h (take body_len src) (drop body_len src)

  -- `src.len() < total_len`: wait for the rest of the packet.
  unfoldable pub with_body_len : ℕ → List ℕ → Decoded
  unfolding take_frame
  with_body_len body_len src =
      if ltb (length src) (header_size + body_len)
      then (ok none, src)
      else take_frame body_len (Header.decode src)

  -- The header is first decoded on a clone of the buffer.
  unfoldable pub peeked : Result HeaderError PacketHeader → List ℕ → Decoded
  unfolding with_body_len
  peeked (ok h) src =
      if ltb max_body_size h.body_len
      then (err (body_too_large h.body_len), src)
      else with_body_len h.body_len src
  peeked (err insufficient_data) src = (ok none, src)
  peeked (err invalid_magic) src = (err (header invalid_magic), src)

  unfoldable pub decode : List ℕ → Decoded
  unfolding peeked
  decode src =
      if ltb (length src) header_size then (ok none, src) else peeked (Header.decode src).0 src

  -- `Encoder::encode` puts no limit on the length of the body.
  unfoldable pub encode : FutuMessage → List ℕ → List ℕ
  encode item dst = Header.encode (new sha1 item.proto_id item.serial_no item.body) dst ++ item.body
