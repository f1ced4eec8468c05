-- ===== src/Client/Interleave/Runs.antt =====
-- Turns of callers, tasks and requests of client/mod.rs, and what the dispatcher waits for after
-- them.

use nautilus_futu.Prelude.{
  ℕ, ◌+◌, ◌%◌, ◌<◌, ◌≡◌, refl, sym, ap, subst, ◌∙◌, List, [], ◌∷◌, Bool, Option, none, some, arith,
  length,
}
use nautilus_futu.Prelude.Words.{ℤ, u32_mod}
use nautilus_futu.Prelude.Maps.{lookup}
use nautilus_futu.Protocol.Codec.{FutuMessage}
use nautilus_futu.Protocol.Encryption.{Aes128}
use nautilus_futu.Client.Connection.{Written, next_serial}
use nautilus_futu.Client.Dispatcher
use nautilus_futu.Client.Dispatcher.{Dispatcher, Effect, complete, dispatch, respond}
use nautilus_futu.Client.Session
use nautilus_futu.Client.Session.{
  FutuClient, Event, asks, sends, listens, yields, beats, notices, clears, disconnects, request,
}
use nautilus_futu.Client.Session.Calls.{asked, calls_of, step-view, registered-calls_of}
use nautilus_futu.Client.Interleave.{
  Stage, took, ready, sent, failed, settled, System, written_stage, take_number, register_from,
  write_from, noted_all, Turn, takes, registers, writes, others, stages_after, step, run, idle,
}
use nautilus_futu.Client.Interleave.Numbers.{Near, step-Near, next-Near}
use nautilus_futu.Client.Interleave.Pending.{
  holder, Matches, Below, insert-Matches, noted_all-Matches, insert-Below, noted_all-Below,
}
use nautilus_futu.Client.Interleave.Held.{
  Held, Below-mono, advance, answered, holder_written, take-Held, register-Held, write-Held,
}

module _ (aes : Aes128) (encode_request : ℤ → List ℕ) where
  noted-Held :
      (e : Event) (y : System)
      → asked (e ∷ []) ≡ []
      → y.client.conn.serial_counter + 1 < u32_mod
      → Held y
      → Matches
          (Session.step aes encode_request e y.client).0.dispatcher
          (noted_all (calls_of aes e y.client) y.stages)
        × Below
            (Session.step aes encode_request e y.client).0.conn.serial_counter
            (noted_all (calls_of aes e y.client) y.stages)
  unfolding Held
  noted-Held e y none_asked lt (h, b) =
      let c = y.client in
      let n = c.conn.serial_counter in
      let ks = calls_of aes e c in
      let m = (Session.step aes encode_request e c).0.conn.serial_counter in
      (
        subst (λ d. Matches d (noted_all ks y.stages))
            (sym (ap (λ (q : Dispatcher × List Effect). q.0) (step-view aes encode_request e c)))
            (noted_all-Matches ks c.dispatcher y.stages h),
        Below-mono n m (noted_all ks y.stages) (step-Near aes encode_request e c lt).0
            (noted_all-Below n ks y.stages (registered-calls_of aes e c ∙ none_asked) b),
      )

  asks-Held :
      (p : ℕ) (body : List ℕ) (tx : ℕ) (w : Written) (y : System)
      → y.client.conn.serial_counter + 1 < u32_mod
      → Held y
      → Held (step aes encode_request (others (asks p body tx w)) y).0
  unfolding step stages_after Session.step request next_serial Held
  asks-Held p body tx w y lt (h, b) =
      let n = y.client.conn.serial_counter in
      let m = (n + 1) % u32_mod in
      let ahead = advance n lt in
      let g = written_stage tx w in
      (
        insert-Matches n tx g y.client.dispatcher y.stages (holder_written tx w) h,
        insert-Below m n g y.stages ahead (Below-mono n m y.stages (omega arith) b),
      )

  others-Held :
      (e : Event) (y : System)
      → y.client.conn.serial_counter + 1 < u32_mod
      → Held y
      → Held (step aes encode_request (others e) y).0
  unfolding step stages_after Held
  others-Held (asks p body tx w) y lt h = asks-Held p body tx w y lt h
  others-Held (sends p body w) y lt h = noted-Held (sends p body w) y refl lt h
  others-Held (listens p tx) y lt h = noted-Held (listens p tx) y refl lt h
  others-Held (yields closed f) y lt h = noted-Held (yields closed f) y refl lt h
  others-Held (beats now w) y lt h = noted-Held (beats now w) y refl lt h
  others-Held notices y lt h = noted-Held notices y refl lt h
  others-Held clears y lt h = noted-Held clears y refl lt h
  others-Held disconnects y lt h = noted-Held disconnects y refl lt h

  step-Held :
      (t : Turn) (y : System)
      → y.client.conn.serial_counter + 1 < u32_mod
      → Held y
      → Held (step aes encode_request t y).0
  unfolding step
  step-Held (takes tx) y lt h = take-Held tx y lt h
  step-Held (registers s) y lt h = register-Held (lookup s y.stages) s y refl h
  step-Held (writes s w) y lt h = write-Held (lookup s y.stages) s w y refl h
  step-Held (others e) y lt h = others-Held e y lt h

  register-same :
      (o : Option Stage) (s : ℕ) (y : System)
      → (register_from o s y).0.client.conn.serial_counter ≡ y.client.conn.serial_counter
  unfolding register_from
  register-same none s y = refl
  register-same (some (took tx)) s y = refl
  register-same (some (ready tx)) s y = refl
  register-same (some (sent tx)) s y = refl
  register-same (some (failed tx)) s y = refl
  register-same (some settled) s y = refl

  write-same :
      (o : Option Stage) (s : ℕ) (w : Written) (y : System)
      → (write_from o s w y).client.conn.serial_counter ≡ y.client.conn.serial_counter
  unfolding write_from
  write-same none s w y = refl
  write-same (some (took tx)) s w y = refl
  write-same (some (ready tx)) s w y = refl
  write-same (some (sent tx)) s w y = refl
  write-same (some (failed tx)) s w y = refl
  write-same (some settled) s w y = refl

  turn-Near :
      (t : Turn) (y : System)
      → y.client.conn.serial_counter + 1 < u32_mod
      → Near y.client.conn.serial_counter (step aes encode_request t y).0.client.conn.serial_counter
  unfolding step
  turn-Near (takes tx) y lt =
      unfold take_number next_serial in next-Near y.client.conn.serial_counter lt
  turn-Near (registers s) y lt = omega (arith, register-same (lookup s y.stages) s y)
  turn-Near (writes s w) y lt = omega (arith, write-same (lookup s y.stages) s w y)
  turn-Near (others e) y lt = step-Near aes encode_request e y.client lt

  run-Held :
      (ts : List Turn) (y : System)
      → y.client.conn.serial_counter + length ts < u32_mod
      → Held y
      → Held (run aes encode_request ts y).0
  unfolding run
  run-Held [] y lt h = h
  run-Held (t ∷ ts) y lt h =
      let near = turn-Near t y (omega arith) in
      run-Held ts (step aes encode_request t y).0 (omega arith) (step-Held t y (omega arith) h)

  -- In a client whose dispatcher is new and whose counter does not wrap around in these turns:
  -- after any turns that the steps of requests, the receive loop, the heartbeat and the other calls
  -- take, in any order, the dispatcher waits under a number for exactly the channel of the request
  -- that was registered under it and that has neither got a message nor been dropped.
  pub run_pending :
      (ts : List Turn) (c : FutuClient) (s : ℕ)
      → c.dispatcher ≡ Dispatcher.init
      → c.conn.serial_counter + length ts < u32_mod
      → lookup s (run aes encode_request ts (idle c)).0.client.dispatcher.pending
        ≡ holder (lookup s (run aes encode_request ts (idle c)).0.stages)
  unfolding Held
  run_pending ts c s new lt = (run-Held ts (idle c) lt (start, λ j le. unfold lookup in refl)).0 s
    where
      start : Matches c.dispatcher []
      start j = ap (λ (d : Dispatcher). lookup j d.pending) new ∙ unfold lookup in refl

  -- After any turns in a client whose dispatcher is new and whose counter does not wrap around in
  -- them: a request that is written and still waits gets its response. A message with its number
  -- completes its channel with that message, and nothing else happens.
  pub sent_answered :
      (ts : List Turn) (c : FutuClient) (tx : ℕ) (closed : ℕ → Bool) (msg : FutuMessage)
      → c.dispatcher ≡ Dispatcher.init
      → c.conn.serial_counter + length ts < u32_mod
      → lookup msg.serial_no (run aes encode_request ts (idle c)).0.stages ≡ some (sent tx)
      → (dispatch closed msg (run aes encode_request ts (idle c)).0.client.dispatcher).1
        ≡ complete tx msg ∷ []
  sent_answered ts c tx closed msg new lt is_sent =
      let d = (run aes encode_request ts (idle c)).0.client.dispatcher in
      answered closed msg d tx (run_pending ts c msg.serial_no new lt ∙ ap holder is_sent)
