-- ===== src/Protocol/Codec/RoundTrip.antt =====
-- The decoder of codec.rs against its encoder, one frame at a time.
use nautilus_futu.Prelude.{
  ℕ, ◌+◌, ◌≤◌, ◌<◌, ◌≡◌, ap, ap₂, sym, subst, ◌∙◌, List, [], ◌++◌, append_assoc, some, ok, err,
  arith, length, length-append, take, drop, take-append_eq, drop-append_eq, bytes_eq_refl,
}
use nautilus_futu.Prelude.Words.{IsU32, u32_mod}
use nautilus_futu.Protocol.Sha1.{Sha1}
use nautilus_futu.Protocol.Header.{PacketHeader, header_size, header_magic, new, verify_body}
use nautilus_futu.Protocol.Header.Bytes.{header_bytes, encode-eq-append, length-header_bytes}
use nautilus_futu.Protocol.Header.RoundTrip.{IsWide, fields-header_bytes, drop-header_bytes}
use nautilus_futu.Protocol.Codec.{
  FutuMessage, body_too_large, max_body_size, finish, decode, encode,
}
use nautilus_futu.Protocol.Codec.Outcome.{
  StartsFrame, announced, checked, decode_complete, decode-too_large,
}

-- The fields of a message fit the widths of their types, and its body is not too long to be read.
pub record IsSendable (m : FutuMessage) : Type 0 where
  pub proto_id : IsU32 m.proto_id
  pub serial_no : IsU32 m.serial_no
  pub body : length m.body ≤ max_body_size

module _ (h : PacketHeader) (w : IsWide h) (rest : List ℕ) where
  pub StartsFrame-header_bytes : StartsFrame (header_bytes h ++ rest)
  StartsFrame-header_bytes = (
    omega (arith, length-append (header_bytes h) rest, length-header_bytes h w.body_sha1),
    bytes_eq_refl header_magic,
  )

  pub announced-header_bytes : announced (header_bytes h ++ rest) ≡ h.body_len
  announced-header_bytes = ap (λ (f : PacketHeader). f.body_len) (fields-header_bytes h w rest)

module _ (sha1 : Sha1) where
  -- The bytes of one message on the wire.
  abbrev pub frame : FutuMessage → List ℕ
  frame m = header_bytes (new sha1 m.proto_id m.serial_no m.body) ++ m.body

  pub encode-eq-append_frame : (m : FutuMessage) (dst : List ℕ) → encode sha1 m dst ≡ dst ++ frame m
  unfolding encode
  encode-eq-append_frame m dst = simp (encode-eq-append, append_assoc)

  module _ (m : FutuMessage) where
    pub new-IsWide :
        IsU32 m.proto_id → IsU32 m.serial_no → IsWide (new sha1 m.proto_id m.serial_no m.body)
    unfolding new
    new-IsWide p s = record {
      proto_id = p;
      serial_no = s;
      body_len = omega arith;
      body_sha1 = sha1.length-digest m.body;
    }

    pub length-frame : length (frame m) ≡ header_size + length m.body
    unfolding new
    length-frame =
        let h = new sha1 m.proto_id m.serial_no m.body in
        omega (
          arith,
          length-append (header_bytes h) m.body,
          length-header_bytes h (sha1.length-digest m.body),
        )

  pub body_len-new :
      (m : FutuMessage)
      → length m.body < u32_mod
      → (new sha1 m.proto_id m.serial_no m.body).body_len ≡ length m.body
  unfolding new
  body_len-new m h = omega arith

  finish-new :
      (m : FutuMessage) (rest : List ℕ)
      → finish sha1 (new sha1 m.proto_id m.serial_no m.body) m.body rest ≡ (ok (some m), rest)
  unfolding finish new verify_body
  finish-new m rest = rw bytes_eq_refl

  -- The checksum of a complete frame is compared over exactly its body.
  pub checked-header_bytes :
      (h : PacketHeader) (w : IsWide h) (body rest : List ℕ)
      → length body ≡ h.body_len
      → checked sha1 (header_bytes h ++ (body ++ rest)) ≡ finish sha1 h body rest
  checked-header_bytes h w body rest e =
      ap₂ (λ (f : PacketHeader) d. finish sha1 f (take f.body_len d) (drop f.body_len d))
        (fields-header_bytes h w (body ++ rest)) (drop-header_bytes h w (body ++ rest))
      ∙ ap₂ (finish sha1 h) (take-append_eq h.body_len body rest e)
          (drop-append_eq h.body_len body rest e)

  module _ (m : FutuMessage) (rest : List ℕ) (proto : IsU32 m.proto_id)
      (serial : IsU32 m.serial_no) where
    abbrev the_header : PacketHeader
    the_header = new sha1 m.proto_id m.serial_no m.body

    the-IsWide : IsWide the_header
    the-IsWide = new-IsWide m proto serial

    StartsFrame-frame : StartsFrame (frame m ++ rest)
    StartsFrame-frame =
        subst StartsFrame (sym (append_assoc (header_bytes the_header) m.body rest))
          (StartsFrame-header_bytes the_header the-IsWide (m.body ++ rest))

    announced-frame : length m.body < u32_mod → announced (frame m ++ rest) ≡ length m.body
    announced-frame fits =
        rw append_assoc
          (announced-header_bytes the_header the-IsWide (m.body ++ rest) ∙ body_len-new m fits)

    pub decode-frame :
        length m.body ≤ max_body_size → decode sha1 (frame m ++ rest) ≡ (ok (some m), rest)
    decode-frame fits =
        decode_complete sha1 (frame m ++ rest) StartsFrame-frame
          (omega (arith, announced-frame (omega arith)))
          (omega
            (arith, announced-frame (omega arith), length-append (frame m) rest, length-frame m))
        ∙ ap (checked sha1) (append_assoc (header_bytes the_header) m.body rest)
        ∙ checked-header_bytes the_header the-IsWide m.body rest
            (sym (body_len-new m (omega arith)))
        ∙ finish-new m rest

    -- A body over the limit is encoded all the same, and its frame is refused.
    pub decode-frame_too_large :
        max_body_size < length m.body
        → length m.body < u32_mod
        → decode sha1 (frame m ++ rest) ≡ (err (body_too_large (length m.body)), frame m ++ rest)
    decode-frame_too_large over fits =
        decode-too_large sha1 (frame m ++ rest) StartsFrame-frame
          (omega (arith, announced-frame fits))
        ∙ ap (λ n. (err (body_too_large n), frame m ++ rest)) (announced-frame fits)

  -- Decoding after encoding returns the message and leaves what follows it in the buffer, for a
  -- message whose ids are 32-bit and whose body has at most `max_body_size` bytes.
  pub decode-encode :
      (m : FutuMessage) (rest : List ℕ)
      → IsSendable m
      → decode sha1 (encode sha1 m [] ++ rest) ≡ (ok (some m), rest)
  decode-encode m rest w =
      rw encode-eq-append_frame (decode-frame m rest w.proto_id w.serial_no w.body)

  -- The encoder accepts a body over the limit (below 2 ^ 32 bytes), and the decoder refuses its
  -- frame with `body_too_large` and consumes nothing of it.
  pub decode-encode_too_large :
      (m : FutuMessage) (rest : List ℕ)
      → IsU32 m.proto_id
      → IsU32 m.serial_no
      → max_body_size < length m.body
      → length m.body < u32_mod
      → decode sha1 (encode sha1 m [] ++ rest)
        ≡ (err (body_too_large (length m.body)), encode sha1 m [] ++ rest)
  decode-encode_too_large m rest p s over fits =
      rw encode-eq-append_frame (decode-frame_too_large m rest p s over fits)
