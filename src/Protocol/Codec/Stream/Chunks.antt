-- ===== src/Protocol/Codec/Stream/Chunks.antt =====
-- Streams of frames that arrive in chunks: `decode` and `encode` of protocol/codec.rs.
use nautilus_futu.Prelude.{
  ℕ, zero, suc, ◌<◌, ◌≡◌, refl, sym, ap, subst, subst₂, ◌∙◌, List, [], ◌∷◌, ◌++◌, append_assoc,
  append-nil, Option, some, none, ok, err, arith, length, concat, map, inl, inr, Option-cases,
}
use nautilus_futu.Protocol.Sha1.{Sha1}
use nautilus_futu.Protocol.Codec.{FutuMessage, CodecError, Decoded, decode, encode}
use nautilus_futu.Protocol.Codec.Outcome.{decode-no_header}
use nautilus_futu.Protocol.Codec.Sound.{decode-none, decode-Reads}
use nautilus_futu.Protocol.Codec.Growth.{decode-append, and_more}
use nautilus_futu.Protocol.Codec.RoundTrip.{IsSendable, frame, decode-frame, encode-eq-append_frame}
use nautilus_futu.Protocol.Codec.Stream.{
  Drained, waiting, push_front, read_all, read_all-none, read_all-some, read_all-err,
}

abbrev pub prepend : List FutuMessage → Drained → Drained
prepend ms d = record d { messages = ms ++ d.messages }

abbrev pub SameOutput : Drained → Drained → Type 0
SameOutput d d' =
    (d.messages ≡ d'.messages) × (d.error ≡ d'.error) × (d.error ≡ none → d.buffer ≡ d'.buffer)

abbrev pub AllSendable : List FutuMessage → Type 0
AllSendable [] = Unit {0}
AllSendable (m ∷ ms) = IsSendable m × AllSendable ms

drained_eq :
    {d d' : Drained} → d.messages ≡ d'.messages → d.error ≡ d'.error → d.buffer ≡ d'.buffer → d ≡ d'
drained_eq m e b = λ i. record { messages = m i; error = e i; buffer = b i }

module _ (sha1 : Sha1) where
  -- The stream goes on with more bytes, unless an error has ended it.
  abbrev resume : List FutuMessage → Option CodecError → List ℕ → List ℕ → Drained
  resume ms none buf more = prepend ms (read_all sha1 (buf ++ more))
  resume ms (some e) buf more = record { messages = ms; error = some e; buffer = buf ++ more }

  abbrev extend : Drained → List ℕ → Drained
  extend d more = resume d.messages d.error d.buffer more

  resume-push :
      (m : FutuMessage) (ms : List FutuMessage) (e : Option CodecError) (buf more : List ℕ)
      → push_front m (resume ms e buf more) ≡ resume (m ∷ ms) e buf more
  resume-push m ms none buf more = refl
  resume-push m ms (some x) buf more = refl

  extend_step :
      (a b : List ℕ) (d : Decoded)
      → decode sha1 a ≡ d
      → ((r : List ℕ) → length r < length a → read_all sha1 (r ++ b) ≡ extend (read_all sha1 r) b)
      → read_all sha1 (a ++ b) ≡ extend (read_all sha1 a) b
  extend_step a b (ok none, r) e ih =
      ap (λ l. read_all sha1 (l ++ b)) (sym (decode-none sha1 a r e))
      ∙ ap (λ d. extend d b) (sym (read_all-none sha1 a r e))
  extend_step a b (ok (some m), r) e ih =
      let c = (decode-Reads sha1 a m r e).consumed in
      let d = read_all sha1 r in
      read_all-some sha1 (a ++ b) (r ++ b) m
        (decode-append sha1 a b (λ p. cc (e, p)) ∙ ap (λ d. and_more d b) e)
      ∙ ap (push_front m) (ih r (omega (arith, c)))
      ∙ resume-push m d.messages d.error d.buffer b
      ∙ ap (λ d. extend d b) (sym (read_all-some sha1 a r m e))
  extend_step a b (err x, r) e ih =
      read_all-err sha1 (a ++ b) (r ++ b) x
        (decode-append sha1 a b (λ p. cc (e, p)) ∙ ap (λ d. and_more d b) e)
      ∙ ap (λ d. extend d b) (sym (read_all-err sha1 a r x e))

  extend_fuel :
      (n : ℕ) (a b : List ℕ) → length a < n → read_all sha1 (a ++ b) ≡ extend (read_all sha1 a) b
  extend_fuel zero a b h = absurd (omega arith)
  extend_fuel (suc n) a b h =
      extend_step a b (decode sha1 a) refl (λ r l. extend_fuel n r b (omega arith))

  read_all-append : (a b : List ℕ) → read_all sha1 (a ++ b) ≡ extend (read_all sha1 a) b
  read_all-append a b = extend_fuel (suc (length a)) a b (omega arith)

  -- A chunk from the socket: it is appended to the buffer and decoded as far as it goes; after an
  -- error nothing more is read.
  abbrev fed : List FutuMessage → Option CodecError → List ℕ → List ℕ → Drained
  fed ms none buf chunk = prepend ms (read_all sha1 (buf ++ chunk))
  fed ms (some e) buf chunk = record { messages = ms; error = some e; buffer = buf }

  abbrev pub feed : Drained → List ℕ → Drained
  feed d chunk = fed d.messages d.error d.buffer chunk

  pub read_chunks : Drained → List (List ℕ) → Drained
  read_chunks d [] = d
  read_chunks d (chunk ∷ chunks) = read_chunks (feed d chunk) chunks

  after_error :
      (d : Drained) (e : CodecError) (chunks : List (List ℕ))
      → d.error ≡ some e
      → read_chunks d chunks ≡ d
  unfolding read_chunks
  after_error d e [] h = refl
  after_error d e (c ∷ cs) h =
      let same : feed d c ≡ d = ground arith in
      ap (λ d. read_chunks d cs) same ∙ after_error d e cs h

  feed_live : (d : Drained) (c : List ℕ) → d.error ≡ none → feed d c ≡ extend d c
  feed_live d c h = ground arith

  dead_same :
      (d : Drained) (e : CodecError) (more : List ℕ)
      → d.error ≡ some e
      → SameOutput d (extend d more)
  dead_same d e more h = ground arith

  feed_dead : (d : Drained) (e : CodecError) (c : List ℕ) → d.error ≡ some e → feed d c ≡ d
  feed_dead d e c h = ground arith

  chunks_from :
      (a : List ℕ) (chunks : List (List ℕ))
      → SameOutput (read_chunks (read_all sha1 a) chunks) (read_all sha1 (a ++ concat chunks))
  unfolding read_chunks
  chunks_from a [] = rw append-nil (refl, refl, λ h. refl)
  chunks_from a (c ∷ cs) = elim (Option-cases (read_all sha1 a).error) [
    | inl h ↦
        subst₂ (λ x y. SameOutput (read_chunks x cs) (read_all sha1 y))
          (read_all-append a c ∙ sym (feed_live (read_all sha1 a) c h))
          (append_assoc a c (concat cs)) (chunks_from (a ++ c) cs)
    | inr (e, h) ↦
        let d = read_all sha1 a in
        subst₂ SameOutput
          (sym (ap (λ x. read_chunks x cs) (feed_dead d e c h) ∙ after_error d e cs h))
          (sym (read_all-append a (c ++ concat cs))) (dead_same d e (c ++ concat cs) h)
  ]

  chunks-SameOutput :
      (chunks : List (List ℕ))
      → SameOutput (read_chunks (waiting []) chunks) (read_all sha1 (concat chunks))
  chunks-SameOutput chunks =
      subst (λ d. SameOutput (read_chunks d chunks) (read_all sha1 (concat chunks)))
        (read_all-none sha1 [] [] (decode-no_header sha1 [] (omega arith))) (chunks_from [] chunks)

  -- However the bytes of a stream are cut into chunks, the reader returns the same messages in the
  -- same order and the same error, as if they had come at once.
  pub read_chunks-eq-read_all :
      (chunks : List (List ℕ))
      → ((read_chunks (waiting []) chunks).messages ≡ (read_all sha1 (concat chunks)).messages)
        × ((read_chunks (waiting []) chunks).error ≡ (read_all sha1 (concat chunks)).error)
  read_chunks-eq-read_all chunks = let same = chunks-SameOutput chunks in (same.0, same.1)

  -- The sender's side: one message after the other.
  unfoldable pub encode_all : List FutuMessage → List ℕ → List ℕ
  encode_all [] dst = dst
  encode_all (m ∷ ms) dst = encode_all ms (encode sha1 m dst)

  encode_all-eq-append :
      (ms : List FutuMessage) (dst : List ℕ)
      → encode_all ms dst ≡ dst ++ concat (map (frame sha1) ms)
  unfolding encode_all
  encode_all-eq-append [] dst = sym (append-nil dst)
  encode_all-eq-append (m ∷ ms) dst =
      encode_all-eq-append ms (encode sha1 m dst)
      ∙ ap (λ l. l ++ concat (map (frame sha1) ms)) (encode-eq-append_frame sha1 m dst)
      ∙ append_assoc dst (frame sha1 m) (concat (map (frame sha1) ms))

  read_frames :
      (ms : List FutuMessage)
      → AllSendable ms
      → read_all sha1 (concat (map (frame sha1) ms))
        ≡ record { messages = ms; error = none; buffer = [] }
  read_frames [] w = read_all-none sha1 [] [] (decode-no_header sha1 [] (omega arith))
  read_frames (m ∷ ms) w =
      let rest = concat (map (frame sha1) ms) in
      read_all-some sha1 (frame sha1 m ++ rest) rest m
        (decode-frame sha1 m rest w.0.proto_id w.0.serial_no w.0.body)
      ∙ ap (push_front m) (read_frames ms w.1)

  -- Messages that are encoded one after the other are read back, all of them, in their order and
  -- with no error and nothing left over, however their bytes are cut into chunks on the way, if
  -- each has 32-bit ids and a body within the limit.
  pub read_chunks-encode_all :
      (ms : List FutuMessage) (chunks : List (List ℕ))
      → AllSendable ms
      → concat chunks ≡ encode_all ms []
      → read_chunks (waiting []) chunks ≡ record { messages = ms; error = none; buffer = [] }
  read_chunks-encode_all ms chunks w e =
      let same = chunks-SameOutput chunks in
      let whole = ap (read_all sha1) (e ∙ encode_all-eq-append ms []) ∙ read_frames ms w in
      let fine = same.1 ∙ ap (λ (d : Drained). d.error) whole in
      drained_eq (same.0 ∙ ap (λ (d : Drained). d.messages) whole) fine
        (same.2 fine ∙ ap (λ (d : Drained). d.buffer) whole)
