-- ===== src/Protocol/Codec/Sound.antt =====
-- What the decoder of codec.rs accepts.
use nautilus_futu.Prelude.{
  ℕ, ◌+◌, ◌≤◌, ◌≡◌, sym, ap, ap₂, ◌∙◌, List, ◌++◌, some, none, ok, true, arith, length, length-take,
  length-drop, take, drop, take-append-drop, bytes_eq, bytes_eq→eq,
}
use nautilus_futu.Protocol.Sha1.{Sha1}
use nautilus_futu.Protocol.Header.{
  PacketHeader, header_size, header_magic, fields, slice, verify_body,
}
use nautilus_futu.Protocol.Codec.{FutuMessage, Decoded, finish, decode, max_body_size}
use nautilus_futu.Protocol.Codec.Outcome.{
  Outcome, no_header, bad_magic, too_large, no_body, complete, decode-Outcome, announced, checked,
}

-- `m` is the frame at the front of `src`, and `rest` follows it.
pub record Reads (sha1 : Sha1) (src : List ℕ) (m : FutuMessage) (rest : List ℕ) : Type 0 where
  pub magic : slice 0 2 src ≡ header_magic
  pub proto_id : m.proto_id ≡ (fields src).proto_id
  pub serial_no : m.serial_no ≡ (fields src).serial_no
  pub split : src ≡ take header_size src ++ (m.body ++ rest)
  pub body_len : length m.body ≡ announced src
  pub limit : length m.body ≤ max_body_size
  pub checksum : sha1.digest m.body ≡ slice 16 36 src
  pub consumed : length src ≡ header_size + length m.body + length rest

module _ (sha1 : Sha1) where
  finish-inv :
      (h : PacketHeader) (body rest : List ℕ) (m : FutuMessage) (r : List ℕ)
      → finish sha1 h body rest ≡ (ok (some m), r)
      → (verify_body sha1 h body ≡ true)
        × (m ≡ record { proto_id = h.proto_id; serial_no = h.serial_no; body = body })
        × (r ≡ rest)
  unfolding finish
  finish-inv h body rest m r e = ground arith

  not_some : (d : Decoded) (m : FutuMessage) → d.0 ≡ ok none → d.0 ≡ ok (some m) → ⊥
  not_some d m a b = cc

  complete-Reads :
      (src : List ℕ) (m : FutuMessage) (rest : List ℕ)
      → (header_size ≤ length src) × (bytes_eq (slice 0 2 src) header_magic ≡ true)
      → announced src ≤ max_body_size
      → header_size + announced src ≤ length src
      → checked sha1 src ≡ (ok (some m), rest)
      → Reads sha1 src m rest
  unfolding verify_body fields
  complete-Reads src m rest s h l e =
      let n = announced src in
      let tail = drop header_size src in
      let (v, same, left) = finish-inv (fields src) (take n tail) (drop n tail) m rest e in
      let body : m.body ≡ take n tail = ap (λ (x : FutuMessage). x.body) same in
      let len : length m.body ≡ n =
        ap length body ∙ omega (arith, length-take n tail, length-drop header_size src) in
      record {
        magic = bytes_eq→eq _ _ s.1;
        proto_id = ap (λ (x : FutuMessage). x.proto_id) same;
        serial_no = ap (λ (x : FutuMessage). x.serial_no) same;
        split =
            sym (take-append-drop header_size src)
            ∙ ap (λ t. take header_size src ++ t)
                (sym (take-append-drop n tail) ∙ ap₂ (λ a b. a ++ b) (sym body) (sym left));
        body_len = len;
        limit = omega arith;
        checksum = ap sha1.digest body ∙ bytes_eq→eq _ _ v;
        consumed =
            omega (arith, len, ap length left, length-drop n tail, length-drop header_size src);
      }

  Outcome-Reads :
      (src : List ℕ) (d : Decoded) (m : FutuMessage) (rest : List ℕ)
      → Outcome sha1 src d
      → d ≡ (ok (some m), rest)
      → Reads sha1 src m rest
  Outcome-Reads src d m rest (no_header h e) p = cc
  Outcome-Reads src d m rest (bad_magic h b e) p = cc
  Outcome-Reads src d m rest (too_large s h e) p = cc
  Outcome-Reads src d m rest (no_body s h l e) p = cc
  Outcome-Reads src d m rest (complete s h l e) p = complete-Reads src m rest s h l (sym e ∙ p)

  -- A message that `decode` returns is the one whose frame starts the buffer: magic, ids and length
  -- are the header's, the body follows the header byte for byte, is within the limit and has the
  -- header's checksum, and exactly the frame is consumed.
  pub decode-Reads :
      (src : List ℕ) (m : FutuMessage) (rest : List ℕ)
      → decode sha1 src ≡ (ok (some m), rest)
      → Reads sha1 src m rest
  decode-Reads src m rest e = Outcome-Reads src (decode sha1 src) m rest (decode-Outcome sha1 src) e

  Outcome-none :
      (src : List ℕ) (d : Decoded) (rest : List ℕ)
      → Outcome sha1 src d
      → d ≡ (ok none, rest)
      → rest ≡ src
  unfolding finish
  Outcome-none src d rest (no_header h e) p = cc
  Outcome-none src d rest (bad_magic h b e) p = cc
  Outcome-none src d rest (too_large s h e) p = cc
  Outcome-none src d rest (no_body s h l e) p = cc
  Outcome-none src d rest (complete s h l e) p = ground arith

  -- While it waits for more bytes, `decode` consumes nothing.
  pub decode-none : (src rest : List ℕ) → decode sha1 src ≡ (ok none, rest) → rest ≡ src
  decode-none src rest e = Outcome-none src (decode sha1 src) rest (decode-Outcome sha1 src) e
