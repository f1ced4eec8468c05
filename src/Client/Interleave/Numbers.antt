-- ===== src/Client/Interleave/Numbers.antt =====
-- The serial counter of connection.rs over the events of a session of client/mod.rs.
use nautilus_futu.Prelude.{
  ℕ, ◌+◌, ◌%◌, ◌≤◌, ◌<◌, ◌≡◌, refl, ◌∙◌, List, [], Bool, true, false, Option, none, some, Result,
  ok, err, arith, length, ◌==◌, if◌then◌else◌,
}
use nautilus_futu.Prelude.Words.{ℤ, u32_mod}
use nautilus_futu.Protocol.Codec.{FutuMessage}
use nautilus_futu.Protocol.Encryption.{Aes128, AesEcbCipher, decrypt, is_empty}
use nautilus_futu.Client.Connection.{
  FutuConnection, ConnectionError, Written, Frame, next_serial, recv, decipher, send_next,
  with_text,
}
use nautilus_futu.Client.Keepalive.{Heart, beating, stopped, send_keepalive}
use nautilus_futu.Client.Session.{
  FutuClient, Event, asks, sends, listens, yields, beats, notices, clears, disconnects, request,
  send_only, subscribe_push, clear_pending, stop_receiving, received, recv_round, failure_round,
  heart_round, disconnect, step,
}

-- The counter after at most one number is taken.
abbrev pub Near : ℕ → ℕ → Type 0
Near n m = (n ≤ m) × (m ≤ n + 1)

same : {n m : ℕ} → m ≡ n → Near n m
same e = ground arith

pub next-Near : (n : ℕ) → n + 1 < u32_mod → Near n ((n + 1) % u32_mod)
next-Near n lt = omega arith

decipher-counter :
    (aes : Aes128) (k : Option AesEcbCipher) (m : FutuMessage) (c : FutuConnection)
    → (decipher aes k m c).1.serial_counter ≡ c.serial_counter
unfolding decipher
decipher-counter aes none m c = refl
decipher-counter aes (some k) m c = choose (is_empty m.body) (length m.body % 16 == 0)
  where
    counter_of : Result ConnectionError FutuMessage × FutuConnection → ℕ
    counter_of q = q.1.serial_counter

    choose :
        (a b : Bool)
        → counter_of (
            if a
            then (ok m, c)
            else if b
            then (with_text (decrypt aes k m.body) m, c)
            else (ok m, record c { cipher = none }))
          ≡ c.serial_counter
    choose true b = refl
    choose false true = refl
    choose false false = refl

recv-counter :
    (aes : Aes128) (f : Frame) (c : FutuConnection)
    → (recv aes f c).1.serial_counter ≡ c.serial_counter
unfolding recv
recv-counter aes (some (ok m)) c = decipher-counter aes c.cipher m c
recv-counter aes (some (err e)) c = refl
recv-counter aes none c = refl

received-counter :
    (closed : ℕ → Bool) (r : Result ConnectionError FutuMessage) (conn : FutuConnection)
    (c : FutuClient)
    → (received closed (r, conn) c).0.conn.serial_counter ≡ conn.serial_counter
unfolding received stop_receiving
received-counter closed (ok m) conn c = refl
received-counter closed (err e) conn c = refl

module _ (aes : Aes128) (encode_request : ℤ → List ℕ) where
  recv_round-counter :
      (closed : ℕ → Bool) (f : Frame) (c : FutuClient) (b : Bool)
      → (if b then received closed (recv aes f c.conn) c else (c, [])).0.conn.serial_counter
        ≡ c.conn.serial_counter
  recv_round-counter closed f c true =
      received-counter closed (recv aes f c.conn).0 (recv aes f c.conn).1 c
      ∙ recv-counter aes f c.conn
  recv_round-counter closed f c false = refl

  failure_round-counter :
      (c : FutuClient) (b s : Bool)
      → (if b then (if s then stop_receiving c else (c, [])) else (c, [])).0.conn.serial_counter
        ≡ c.conn.serial_counter
  unfolding stop_receiving
  failure_round-counter c false s = refl
  failure_round-counter c true false = refl
  failure_round-counter c true true = refl

  heart_round-Near :
      (now : ℤ) (w : Written) (h : Option Heart) (c : FutuClient)
      → c.conn.serial_counter + 1 < u32_mod
      → Near c.conn.serial_counter (heart_round aes encode_request now w h c).conn.serial_counter
  unfolding heart_round send_keepalive send_next next_serial
  heart_round-Near now w none c lt = same refl
  heart_round-Near now w (some stopped) c lt = same refl
  heart_round-Near now w (some (beating n)) c lt = next-Near c.conn.serial_counter lt

  pub step-Near :
      (e : Event) (c : FutuClient)
      → c.conn.serial_counter + 1 < u32_mod
      → Near c.conn.serial_counter (step aes encode_request e c).0.conn.serial_counter
  unfolding step
  step-Near (asks p body tx w) c lt =
      unfold request next_serial in next-Near c.conn.serial_counter lt
  step-Near (sends p body w) c lt =
      unfold send_only send_next next_serial in next-Near c.conn.serial_counter lt
  step-Near (listens p tx) c lt = unfold subscribe_push in same refl
  step-Near (yields closed f) c lt =
      unfold recv_round in same (recv_round-counter closed f c c.receiving)
  step-Near (beats now w) c lt = heart_round-Near now w c.heart c lt
  step-Near notices c lt =
      unfold failure_round in same (failure_round-counter c c.receiving c.signalled)
  step-Near clears c lt = unfold clear_pending in same refl
  step-Near disconnects c lt = unfold disconnect in same refl
