-- ===== src/Protocol/Codec/Damage.antt =====
-- The decoder of codec.rs on frames of its encoder that arrive cut short or altered.
use nautilus_futu.Prelude.{
  ℕ, ◌<◌, ◌≡◌, ◌≢◌, refl, sym, ap, ap₂, ◌∙◌, List, [], ◌++◌, Option, Result, none, some, ok, err,
  inl, inr, arith, length, length-append, length-drop, take, drop, take-append-drop, Bool-cases,
  bytes_eq, bytes_eq→eq, append-nil,
}
use nautilus_futu.Protocol.Sha1.{Sha1}
use nautilus_futu.Protocol.Header
use nautilus_futu.Protocol.Header.{PacketHeader, new, verify_body}
use nautilus_futu.Protocol.Header.Bytes.{header_bytes, encode-eq-append, length-header_bytes}
use nautilus_futu.Protocol.Codec.{
  FutuMessage, CodecError, Decoded, checksum_mismatch, finish, decode, encode,
}
use nautilus_futu.Protocol.Codec.Outcome.{decode_complete}
use nautilus_futu.Protocol.Codec.RoundTrip.{
  IsSendable, StartsFrame-header_bytes, announced-header_bytes, checked-header_bytes, new-IsWide,
  body_len-new, decode-encode,
}
use nautilus_futu.Protocol.Codec.Growth.{decode-append}
use nautilus_futu.Protocol.Codec.Sound.{decode-none}

module _ (sha1 : Sha1) where
  finish_other :
      (m : FutuMessage) (body rest : List ℕ)
      → sha1.digest body ≢ sha1.digest m.body
      → finish sha1 (new sha1 m.proto_id m.serial_no m.body) body rest
        ≡ (err (checksum_mismatch m.proto_id m.serial_no), rest)
  unfolding finish verify_body new
  finish_other m body rest ne =
      elim (Bool-cases (bytes_eq (sha1.digest body) (sha1.digest m.body))) [
        | inl e ↦ absurd (ne (bytes_eq→eq _ _ e))
        | inr e ↦ rw e
      ]

  -- A frame whose body was altered on the way, to one of the same length with another digest, is
  -- refused with the ids of its message, and exactly that frame is consumed, if the ids are 32-bit
  -- and the body is within the limit.
  pub decode_altered :
      (m : FutuMessage) (body rest : List ℕ)
      → IsSendable m
      → length body ≡ length m.body
      → sha1.digest body ≢ sha1.digest m.body
      → decode sha1 (Header.encode (new sha1 m.proto_id m.serial_no m.body) [] ++ (body ++ rest))
        ≡ (err (checksum_mismatch m.proto_id m.serial_no), rest)
  decode_altered m body rest w len ne =
      let h = new sha1 m.proto_id m.serial_no m.body in
      let wide = new-IsWide sha1 m w.proto_id w.serial_no in
      let fits = body_len-new sha1 m (omega (arith, w.body)) in
      let front = header_bytes h in
      rw encode-eq-append (
        decode_complete sha1 (front ++ (body ++ rest))
          (StartsFrame-header_bytes h wide (body ++ rest))
          (omega (arith, announced-header_bytes h wide (body ++ rest), fits, w.body))
          (omega (
            arith,
            announced-header_bytes h wide (body ++ rest),
            fits,
            length-append front (body ++ rest),
            length-append body rest,
            length-header_bytes h wide.body_sha1,
          ))
        ∙ checked-header_bytes sha1 h wide body rest (len ∙ sym fits)
        ∙ finish_other m body rest ne)

  -- While a frame has not come in whole, the decoder neither returns nor consumes anything, wherever
  -- the frame is cut, if the ids of its message are 32-bit and its body is within the limit.
  pub decode_truncated :
      (m : FutuMessage) (n : ℕ)
      → IsSendable m
      → n < length (encode sha1 m [])
      → decode sha1 (take n (encode sha1 m [])) ≡ (ok none, take n (encode sha1 m []))
  decode_truncated m n w lt = by_result (decode sha1 src).0 refl
    where
      src : List ℕ
      src = take n (encode sha1 m [])

      more : List ℕ
      more = drop n (encode sha1 m [])

      whole : decode sha1 (src ++ more) ≡ (ok (some m), [])
      whole =
          ap (decode sha1)
            (take-append-drop n (encode sha1 m []) ∙ sym (append-nil (encode sha1 m [])))
          ∙ decode-encode sha1 m [] w

      -- A result would be one of the whole, with all of its bytes consumed.
      undecided : (decode sha1 src).0 ≢ ok none → ⊥
      undecided ne =
          let left =
            ap (λ (d : Decoded). length d.1) (sym (decode-append sha1 src more ne) ∙ whole) in
          omega
            (arith, left, length-append (decode sha1 src).1 more, length-drop n (encode sha1 m []))

      nothing : (decode sha1 src).0 ≡ ok none → decode sha1 src ≡ (ok none, src)
      nothing e =
          ap₂ (λ r b. (r, b)) e
            (decode-none sha1 src (decode sha1 src).1 (ap (λ r. (r, (decode sha1 src).1)) e))

      by_result :
          (r : Result CodecError (Option FutuMessage))
          → (decode sha1 src).0 ≡ r
          → decode sha1 src ≡ (ok none, src)
      by_result (ok none) e = nothing e
      by_result (ok (some m')) e = absurd (undecided (λ z. cc))
      by_result (err x) e = absurd (undecided (λ z. cc))
