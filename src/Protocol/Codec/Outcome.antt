-- ===== src/Protocol/Codec/Outcome.antt =====
-- The ways in which a call of `decode` of codec.rs can end.
use nautilus_futu.Prelude.{
  ℕ, ◌+◌, ◌≤◌, ◌<◌, ◌≡◌, inl, inr, List, true, false, none, ok, err, length, take, drop, ltb→lt,
  ltb→le, lt→ltb, le→ltb, ltb, Bool-cases, bytes_eq,
}
use nautilus_futu.Protocol.Sha1.{Sha1}
use nautilus_futu.Protocol.Header.{header_size, header_magic, invalid_magic, fields, slice}
use nautilus_futu.Protocol.Header.RoundTrip.{decode-long, decode-bad_magic}
use nautilus_futu.Protocol.Codec.{Decoded, header, body_too_large, max_body_size, finish, decode}

-- The header's fields as they stand at the front of the buffer.
abbrev pub announced : List ℕ → ℕ
announced src = (fields src).body_len

abbrev pub StartsFrame : List ℕ → Type 0
StartsFrame src = (header_size ≤ length src) × (bytes_eq (slice 0 2 src) header_magic ≡ true)

module _ (sha1 : Sha1) where
  -- The end of `decode` for a complete frame at the front of `src`.
  abbrev pub checked : List ℕ → Decoded
  checked src =
      finish sha1 (fields src) (take (announced src) (drop header_size src))
        (drop (announced src) (drop header_size src))

  pub data Outcome (src : List ℕ) (d : Decoded) : Type 0 where
    no_header : length src < header_size → d ≡ (ok none, src) → Outcome src d
    bad_magic :
        header_size ≤ length src
        → bytes_eq (slice 0 2 src) header_magic ≡ false
        → d ≡ (err (header invalid_magic), src)
        → Outcome src d
    too_large :
        StartsFrame src
        → max_body_size < announced src
        → d ≡ (err (body_too_large (announced src)), src)
        → Outcome src d
    no_body :
        StartsFrame src
        → announced src ≤ max_body_size
        → length src < header_size + announced src
        → d ≡ (ok none, src)
        → Outcome src d
    complete :
        StartsFrame src
        → announced src ≤ max_body_size
        → header_size + announced src ≤ length src
        → d ≡ checked src
        → Outcome src d

  module _ (src : List ℕ) where
    pub decode-no_header : length src < header_size → decode sha1 src ≡ (ok none, src)
    unfolding decode
    decode-no_header h = rw (lt→ltb _ _ h)

    pub decode-bad_magic_lem :
        header_size ≤ length src
        → bytes_eq (slice 0 2 src) header_magic ≡ false
        → decode sha1 src ≡ (err (header invalid_magic), src)
    unfolding decode
    decode-bad_magic_lem h m = rw (le→ltb _ _ h, decode-bad_magic src h m)

    pub decode-too_large :
        StartsFrame src
        → max_body_size < announced src
        → decode sha1 src ≡ (err (body_too_large (announced src)), src)
    unfolding decode
    decode-too_large s h = rw (le→ltb _ _ s.0, decode-long src s.0 s.1, lt→ltb _ _ h)

    pub decode-no_body :
        StartsFrame src
        → announced src ≤ max_body_size
        → length src < header_size + announced src
        → decode sha1 src ≡ (ok none, src)
    unfolding decode
    decode-no_body s h l = rw (le→ltb _ _ s.0, decode-long src s.0 s.1, le→ltb _ _ h, lt→ltb _ _ l)

    pub decode_complete :
        StartsFrame src
        → announced src ≤ max_body_size
        → header_size + announced src ≤ length src
        → decode sha1 src ≡ checked src
    unfolding decode
    decode_complete s h l =
        let frame = decode-long src s.0 s.1 in
        rw (le→ltb _ _ s.0, frame, le→ltb _ _ h, le→ltb _ _ l, frame)

    body-Outcome : StartsFrame src → announced src ≤ max_body_size → Outcome src (decode sha1 src)
    body-Outcome s h = elim (Bool-cases (ltb (length src) (header_size + announced src))) [
      | inl e ↦ no_body s h (ltb→lt _ _ e) (decode-no_body s h (ltb→lt _ _ e))
      | inr e ↦ complete s h (ltb→le _ _ e) (decode_complete s h (ltb→le _ _ e))
    ]

    frame-Outcome : StartsFrame src → Outcome src (decode sha1 src)
    frame-Outcome s = elim (Bool-cases (ltb max_body_size (announced src))) [
      | inl e ↦ too_large s (ltb→lt _ _ e) (decode-too_large s (ltb→lt _ _ e))
      | inr e ↦ body-Outcome s (ltb→le _ _ e)
    ]

    long-Outcome : header_size ≤ length src → Outcome src (decode sha1 src)
    long-Outcome h = elim (Bool-cases (bytes_eq (slice 0 2 src) header_magic)) [
      | inl m ↦ frame-Outcome (h, m)
      | inr m ↦ bad_magic h m (decode-bad_magic_lem h m)
    ]

    -- Every call of `decode` ends in one of the five ways, under the condition that it states.
    pub decode-Outcome : Outcome src (decode sha1 src)
    decode-Outcome = elim (Bool-cases (ltb (length src) header_size)) [
      | inl e ↦ no_header (ltb→lt _ _ e) (decode-no_header (ltb→lt _ _ e))
      | inr e ↦ long-Outcome (ltb→le _ _ e)
    ]
