-- ===== src/Protocol/Header.antt =====
-- crates/futu/src/protocol/header.rs: the 44-byte packet header. A `BytesMut` is the list of its
-- unread bytes: a write appends, and `advance` drops from the front.
pub mod Bytes
pub mod RoundTrip
use nautilus_futu.Prelude.{
  ℕ, ◌-◌, ◌%◌, List, [], ◌∷◌, ◌++◌, Bool, Result, ok, err, ltb, if◌then◌else◌, bytes_eq, length,
  take, drop, get_or, replicate,
}
use nautilus_futu.Prelude.Words.{u32_mod, to_le_bytes, from_le_bytes}
use nautilus_futu.Protocol.Sha1.{Sha1}

abbrev pub header_size : ℕ
header_size = 44

-- b"FT"
abbrev pub header_magic : List ℕ
header_magic = b'F' ∷ b'T' ∷ []

pub record PacketHeader : Type 0 where
  pub proto_id : ℕ
  pub proto_fmt_type : ℕ
  pub proto_ver : ℕ
  pub serial_no : ℕ
  pub body_len : ℕ
  pub body_sha1 : List ℕ

pub data HeaderError : Type 0 where
  insufficient_data invalid_magic : HeaderError

-- `BufMut::put_slice`, and with it the other writes.
abbrev pub put_slice : List ℕ → List ℕ → List ℕ
put_slice buf bytes = buf ++ bytes

-- `body.len() as u32` keeps the low 32 bits.
unfoldable pub new : Sha1 → ℕ → ℕ → List ℕ → PacketHeader
new sha1 proto_id serial_no body = record {
  proto_id = proto_id;
  proto_fmt_type = 0;
  proto_ver = 0;
  serial_no = serial_no;
  body_len = length body % u32_mod;
  body_sha1 = sha1.digest body;
}

unfoldable pub encode : PacketHeader → List ℕ → List ℕ
encode h buf =
    let b1 = put_slice buf header_magic in
    let b2 = put_slice b1 (to_le_bytes h.proto_id) in
    let b3 = put_slice b2 (h.proto_fmt_type ∷ []) in
    let b4 = put_slice b3 (h.proto_ver ∷ []) in
    let b5 = put_slice b4 (to_le_bytes h.serial_no) in
    let b6 = put_slice b5 (to_le_bytes h.body_len) in
    let b7 = put_slice b6 h.body_sha1 in put_slice b7 (replicate 8 0)

-- `buf[i..j]` and `buf[i]`; every use below is within the length that `decode` has tested.
abbrev pub slice : ℕ → ℕ → List ℕ → List ℕ
slice i j buf = take (j - i) (drop i buf)

abbrev pub byte_at : List ℕ → ℕ → ℕ
byte_at buf i = get_or buf i 0

abbrev pub u32_at : List ℕ → ℕ → ℕ → ℕ → ℕ → ℕ
u32_at buf i0 i1 i2 i3 =
    from_le_bytes (byte_at buf i0) (byte_at buf i1) (byte_at buf i2) (byte_at buf i3)

-- What `decode` reads from a buffer that holds a header.
unfoldable pub fields : List ℕ → PacketHeader
fields buf = record {
  proto_id = u32_at buf 2 3 4 5;
  proto_fmt_type = byte_at buf 6;
  proto_ver = byte_at buf 7;
  serial_no = u32_at buf 8 9 10 11;
  body_len = u32_at buf 12 13 14 15;
  body_sha1 = slice 16 36 buf;
}

-- The result, and what is left in the buffer.
unfoldable pub decode : List ℕ → Result HeaderError PacketHeader × List ℕ
decode buf =
    if ltb (length buf) header_size
    then (err insufficient_data, buf)
    else if bytes_eq (slice 0 2 buf) header_magic
    then (ok (fields buf), drop header_size buf)
    else (err invalid_magic, buf)

unfoldable pub verify_body : Sha1 → PacketHeader → List ℕ → Bool
verify_body sha1 h body = bytes_eq (sha1.digest body) h.body_sha1
