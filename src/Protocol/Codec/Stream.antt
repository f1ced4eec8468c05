-- ===== src/Protocol/Codec/Stream.antt =====
-- A stream of frames read through `decode` of codec.rs, as the framed reader of connection.rs calls
-- it: decode what the buffer holds until it asks for more bytes or fails; after an error the stream
-- is over.
pub mod Chunks
use nautilus_futu.Prelude.{
  ℕ, zero, suc, ◌+◌, ◌≤◌, ◌<◌, ◌≡◌, refl, sym, ap, ◌∙◌, List, [], ◌∷◌, ◌++◌, Option, some, none,
  Result, ok, err, arith, length, length-append,
}
use nautilus_futu.Protocol.Sha1.{Sha1}
use nautilus_futu.Protocol.Codec.{FutuMessage, CodecError, Decoded, decode}
use nautilus_futu.Protocol.Codec.Outcome.{
  Outcome, no_header, bad_magic, too_large, no_body, complete, decode-Outcome,
}
use nautilus_futu.Protocol.Codec.Sound.{decode-none, decode-Reads}

-- The messages read, the error that ended the stream, and the bytes not consumed.
pub record Drained : Type 0 where
  pub messages : List FutuMessage
  pub error : Option CodecError
  pub buffer : List ℕ

abbrev pub waiting : List ℕ → Drained
waiting buf = record { messages = []; error = none; buffer = buf }

abbrev pub failed : CodecError → List ℕ → Drained
failed e buf = record { messages = []; error = some e; buffer = buf }

abbrev pub push_front : FutuMessage → Drained → Drained
push_front m d = record d { messages = m ∷ d.messages }

module _ (sha1 : Sha1) where
  -- One step: what a decoded result means for the stream, with `rest` for the later steps.
  abbrev pub step : Decoded → (List ℕ → Drained) → Drained
  step (ok none, buf) rest = waiting buf
  step (ok (some m), buf) rest = push_front m (rest buf)
  step (err e, buf) rest = failed e buf

  pub drain : ℕ → List ℕ → Drained
  drain zero buf = waiting buf
  drain (suc fuel) buf = step (decode sha1 buf) (drain fuel)

  pub drain-suc :
      (fuel : ℕ) (buf : List ℕ) → drain (suc fuel) buf ≡ step (decode sha1 buf) (drain fuel)
  unfolding drain
  drain-suc fuel buf = refl

  -- Every frame has at least a header, so the bytes of the buffer bound the number of steps.
  abbrev pub read_all : List ℕ → Drained
  read_all buf = drain (suc (length buf)) buf

  same_step :
      (buf : List ℕ) (d : Decoded)
      → decode sha1 buf ≡ d
      → (f g : ℕ) → length buf < suc f
      → length buf < suc g
      → ((rest : List ℕ) → length rest < f → length rest < g → drain f rest ≡ drain g rest)
      → step d (drain f) ≡ step d (drain g)
  same_step buf (ok none, r) e f g hf hg ih = refl
  same_step buf (err x, r) e f g hf hg ih = refl
  same_step buf (ok (some m), r) e f g hf hg ih =
      let c = (decode-Reads sha1 buf m r e).consumed in
      ap (push_front m) (ih r (omega (arith, c)) (omega (arith, c)))

  -- More fuel than bytes is enough: the result no longer depends on it.
  pub drain_fuel :
      (f g : ℕ) (buf : List ℕ) → length buf < f → length buf < g → drain f buf ≡ drain g buf
  drain_fuel zero g buf hf hg = absurd (omega arith)
  drain_fuel (suc f) zero buf hf hg = absurd (omega arith)
  drain_fuel (suc f) (suc g) buf hf hg =
      drain-suc f buf
      ∙ same_step buf (decode sha1 buf) refl f g hf hg (λ rest a b. drain_fuel f g rest a b)
      ∙ sym (drain-suc g buf)

  read_all-step : (buf : List ℕ) → read_all buf ≡ step (decode sha1 buf) read_all
  read_all-step buf = drain-suc (length buf) buf ∙ go (decode sha1 buf) refl
    where
      go : (d : Decoded) → decode sha1 buf ≡ d → step d (drain (length buf)) ≡ step d read_all
      go (ok none, r) e = refl
      go (err x, r) e = refl
      go (ok (some m), r) e =
          let c = (decode-Reads sha1 buf m r e).consumed in
          ap (push_front m)
            (drain_fuel (length buf) (suc (length r)) r (omega (arith, c)) (omega arith))

  -- The steps of `read_all`, by what `decode` returns.
  pub read_all-none : (buf r : List ℕ) → decode sha1 buf ≡ (ok none, r) → read_all buf ≡ waiting r
  read_all-none buf r e = read_all-step buf ∙ ap (λ d. step d read_all) e

  pub read_all-some :
      (buf r : List ℕ) (m : FutuMessage)
      → decode sha1 buf ≡ (ok (some m), r)
      → read_all buf ≡ push_front m (read_all r)
  read_all-some buf r m e = read_all-step buf ∙ ap (λ d. step d read_all) e

  pub read_all-err :
      (buf r : List ℕ) (x : CodecError) → decode sha1 buf ≡ (err x, r) → read_all buf ≡ failed x r
  read_all-err buf r x e = read_all-step buf ∙ ap (λ d. step d read_all) e
