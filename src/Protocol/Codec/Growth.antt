-- ===== src/Protocol/Codec/Growth.antt =====
-- `decode` of codec.rs on a buffer that grows.
use nautilus_futu.Prelude.{
  ℕ, ◌+◌, ◌-◌, ◌≤◌, ◌<◌, ◌≡◌, ◌≢◌, sym, ap, ap₂, ◌∙◌, List, ◌++◌, none, ok, err, arith, length,
  length-append, length-drop, take, drop, get_or-append, take-append_le, drop-append_le, bytes_eq,
}
use nautilus_futu.Prelude.Words.{from_le_bytes}
use nautilus_futu.Protocol.Sha1.{Sha1}
use nautilus_futu.Protocol.Header.{
  PacketHeader, header_size, header_magic, fields, slice, byte_at, u32_at,
}
use nautilus_futu.Protocol.Codec.{Decoded, finish, decode, body_too_large}
use nautilus_futu.Protocol.Codec.Outcome.{
  Outcome, no_header, bad_magic, too_large, no_body, complete, decode-Outcome, StartsFrame,
  announced, checked, decode_complete, decode-too_large, decode-bad_magic_lem,
}

-- The same result, with more bytes left in the buffer.
abbrev pub and_more : Decoded → List ℕ → Decoded
and_more d more = (d.0, d.1 ++ more)

module _ (src more : List ℕ) (long : header_size ≤ length src) where
  byte_at-append : (i : ℕ) → i < header_size → byte_at (src ++ more) i ≡ byte_at src i
  byte_at-append i h = get_or-append i src more 0 (omega arith)

  u32_at-append :
      (i j k l : ℕ)
      → i < header_size
      → j < header_size
      → k < header_size
      → l < header_size
      → u32_at (src ++ more) i j k l ≡ u32_at src i j k l
  u32_at-append i j k l hi hj hk hl =
      ap₂ (λ a b. from_le_bytes a b (byte_at (src ++ more) k) (byte_at (src ++ more) l))
        (byte_at-append i hi) (byte_at-append j hj)
      ∙ ap₂ (from_le_bytes (byte_at src i) (byte_at src j)) (byte_at-append k hk)
          (byte_at-append l hl)

  slice-append : (i j : ℕ) → i ≤ j → j ≤ header_size → slice i j (src ++ more) ≡ slice i j src
  slice-append i j h hj =
      ap (take (j - i)) (drop-append_le i src more (omega arith))
      ∙ take-append_le (j - i) (drop i src) more (omega (arith, length-drop i src))

  fields-append : fields (src ++ more) ≡ fields src
  unfolding fields
  fields-append = λ i. record {
    proto_id = u32_at-append 2 3 4 5 (omega arith) (omega arith) (omega arith) (omega arith) i;
    proto_fmt_type = byte_at-append 6 (omega arith) i;
    proto_ver = byte_at-append 7 (omega arith) i;
    serial_no = u32_at-append 8 9 10 11 (omega arith) (omega arith) (omega arith) (omega arith) i;
    body_len = u32_at-append 12 13 14 15 (omega arith) (omega arith) (omega arith) (omega arith) i;
    body_sha1 = slice-append 16 36 (omega arith) (omega arith) i;
  }

  announced-append : announced (src ++ more) ≡ announced src
  announced-append = ap (λ (h : PacketHeader). h.body_len) fields-append

  magic-append :
      bytes_eq (slice 0 2 (src ++ more)) header_magic ≡ bytes_eq (slice 0 2 src) header_magic
  magic-append = ap (λ s. bytes_eq s header_magic) (slice-append 0 2 (omega arith) (omega arith))

  long-append : header_size ≤ length (src ++ more)
  long-append = omega (arith, length-append src more)

StartsFrame-append : (src more : List ℕ) → StartsFrame src → StartsFrame (src ++ more)
StartsFrame-append src more s = (long-append src more s.0, magic-append src more s.0 ∙ s.1)

module _ (sha1 : Sha1) where
  finish-append :
      (h : PacketHeader) (body rest more : List ℕ)
      → finish sha1 h body (rest ++ more) ≡ and_more (finish sha1 h body rest) more
  unfolding finish
  finish-append h body rest more = ground arith

  checked-append :
      (src more : List ℕ)
      → header_size + announced src ≤ length src
      → checked sha1 (src ++ more) ≡ and_more (checked sha1 src) more
  checked-append src more h =
      let n = announced src in
      let body = drop header_size src in
      let room : n ≤ length body = omega (arith, length-drop header_size src) in
      ap₂ (λ (f : PacketHeader) d. finish sha1 f (take f.body_len d) (drop f.body_len d))
        (fields-append src more (omega arith)) (drop-append_le header_size src more (omega arith))
      ∙ ap₂ (finish sha1 (fields src)) (take-append_le n body more room)
          (drop-append_le n body more room)
      ∙ finish-append (fields src) (take n body) (drop n body) more

  decided :
      (src more : List ℕ) (d : Decoded)
      → Outcome sha1 src d
      → d.0 ≢ ok none
      → decode sha1 (src ++ more) ≡ and_more d more
  decided src more d (no_header h e) n = absurd (n (ap (λ (d : Decoded). d.0) e))
  decided src more d (no_body s h l e) n = absurd (n (ap (λ (d : Decoded). d.0) e))
  decided src more d (bad_magic h m e) n =
      decode-bad_magic_lem sha1 (src ++ more) (long-append src more h) (magic-append src more h ∙ m)
      ∙ ap (λ d. and_more d more) (sym e)
  decided src more d (too_large s h e) n =
      let same = announced-append src more s.0 in
      decode-too_large sha1 (src ++ more) (StartsFrame-append src more s) (omega (arith, same))
      ∙ ap (λ k. (err (body_too_large k), src ++ more)) same
      ∙ ap (λ d. and_more d more) (sym e)
  decided src more d (complete s h l e) n =
      let same = announced-append src more s.0 in
      decode_complete sha1 (src ++ more) (StartsFrame-append src more s) (omega (arith, same))
        (omega (arith, same, length-append src more))
      ∙ checked-append src more l
      ∙ ap (λ d. and_more d more) (sym e)

  -- Once `decode` returns a message or an error, it returns the same on the buffer with any bytes
  -- after it, and those bytes stay in the buffer.
  pub decode-append :
      (src more : List ℕ)
      → (decode sha1 src).0 ≢ ok none
      → decode sha1 (src ++ more) ≡ and_more (decode sha1 src) more
  decode-append src more = decided src more (decode sha1 src) (decode-Outcome sha1 src)
