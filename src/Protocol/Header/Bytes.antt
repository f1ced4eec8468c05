-- ===== src/Protocol/Header/Bytes.antt =====
-- The bytes that `encode` of header.rs writes, as one list, and their length.
use nautilus_futu.Prelude.{
  ℕ, ◌≡◌, List, ◌∷◌, ◌++◌, append_assoc, arith, length, length-append, replicate,
}
use nautilus_futu.Prelude.Words.{to_le_bytes}
use nautilus_futu.Protocol.Header.{PacketHeader, header_magic, header_size, encode}

-- The sixteen bytes before the checksum.
abbrev pub prefix : PacketHeader → List ℕ
prefix h =
    header_magic
    ++ (to_le_bytes h.proto_id
        ++ (h.proto_fmt_type ∷ h.proto_ver ∷ (to_le_bytes h.serial_no ++ to_le_bytes h.body_len)))

abbrev pub header_bytes : PacketHeader → List ℕ
header_bytes h = prefix h ++ (h.body_sha1 ++ replicate 8 0)

-- Encoding appends those bytes to whatever the buffer held.
pub encode-eq-append : (h : PacketHeader) (buf : List ℕ) → encode h buf ≡ buf ++ header_bytes h
unfolding encode
encode-eq-append h buf = simp append_assoc

pub length-header_bytes :
    (h : PacketHeader) → length h.body_sha1 ≡ 20 → length (header_bytes h) ≡ header_size
length-header_bytes h e = omega (arith, length-append h.body_sha1 (replicate 8 0))
