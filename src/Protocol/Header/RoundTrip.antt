-- ===== src/Protocol/Header/RoundTrip.antt =====
-- `decode` of header.rs on what `encode` writes.
use nautilus_futu.Prelude.{
  ℕ, ◌≤◌, ◌≡◌, ap, ap₂, ◌∙◌, List, [], ◌++◌, append_assoc, arith, true, false, ok, err, length,
  length-append, replicate, take, drop, take-append_eq, drop-append_eq, le→ltb, bytes_eq,
  bytes_eq_refl,
}
use nautilus_futu.Prelude.Words.{IsU32, from_le_bytes_lem}
use nautilus_futu.Protocol.Header.{
  PacketHeader, header_magic, header_size, invalid_magic, decode, encode, fields, slice,
}
use nautilus_futu.Protocol.Header.Bytes.{header_bytes, length-header_bytes, encode-eq-append}

-- The fields of a header fit the widths of their types.
pub record IsWide (h : PacketHeader) : Type 0 where
  pub proto_id : IsU32 h.proto_id
  pub serial_no : IsU32 h.serial_no
  pub body_len : IsU32 h.body_len
  pub body_sha1 : length h.body_sha1 ≡ 20

pub decode-long :
    (buf : List ℕ)
    → header_size ≤ length buf
    → bytes_eq (slice 0 2 buf) header_magic ≡ true
    → decode buf ≡ (ok (fields buf), drop header_size buf)
unfolding decode
decode-long buf h m = rw (le→ltb _ _ h, m)

pub decode-bad_magic :
    (buf : List ℕ)
    → header_size ≤ length buf
    → bytes_eq (slice 0 2 buf) header_magic ≡ false
    → decode buf ≡ (err invalid_magic, buf)
unfolding decode
decode-bad_magic buf h m = rw (le→ltb _ _ h, m)

module _ (h : PacketHeader) (w : IsWide h) (rest : List ℕ) where
  sha1-header_bytes : slice 16 36 (header_bytes h ++ rest) ≡ h.body_sha1
  sha1-header_bytes =
      ap (take 20) (append_assoc h.body_sha1 (replicate 8 0) rest)
      ∙ take-append_eq 20 h.body_sha1 (replicate 8 0 ++ rest) w.body_sha1

  pub fields-header_bytes : fields (header_bytes h ++ rest) ≡ h
  unfolding fields
  fields-header_bytes = λ i. record {
    proto_id = from_le_bytes_lem h.proto_id w.proto_id i;
    proto_fmt_type = h.proto_fmt_type;
    proto_ver = h.proto_ver;
    serial_no = from_le_bytes_lem h.serial_no w.serial_no i;
    body_len = from_le_bytes_lem h.body_len w.body_len i;
    body_sha1 = sha1-header_bytes i;
  }

  pub drop-header_bytes : drop header_size (header_bytes h ++ rest) ≡ rest
  drop-header_bytes =
      drop-append_eq header_size (header_bytes h) rest (length-header_bytes h w.body_sha1)

  pub decode-header_bytes : decode (header_bytes h ++ rest) ≡ (ok h, rest)
  decode-header_bytes =
      decode-long (header_bytes h ++ rest) room (bytes_eq_refl header_magic)
      ∙ ap₂ (λ f r. (ok f, r)) fields-header_bytes drop-header_bytes
    where
      room : header_size ≤ length (header_bytes h ++ rest)
      room = omega (arith, length-append (header_bytes h) rest, length-header_bytes h w.body_sha1)

  -- A header whose fields fit their widths is read back from what `encode` writes, with every field
  -- as it was, and what follows it stays in the buffer.
  pub decode-encode_header : decode (encode h [] ++ rest) ≡ (ok h, rest)
  decode-encode_header = rw encode-eq-append decode-header_bytes
