-- ===== src/Client/Interleave/Held.antt =====
-- Requests of client/mod.rs under way, as the dispatcher knows them after any turns.

use nautilus_futu.Prelude.{
  ℕ, ◌+◌, ◌%◌, ◌≤◌, ◌<◌, ◌≡◌, refl, sym, ap, ◌∙◌, [], ◌∷◌, Bool, Option, none, some, arith,
}
use nautilus_futu.Prelude.Words.{u32_mod}
use nautilus_futu.Prelude.Maps.{Map, lookup, insert, lookup-insert}
use nautilus_futu.Protocol.Codec.{FutuMessage}
use nautilus_futu.Client.Connection.{Written, next_serial}
use nautilus_futu.Client.Dispatcher.{Dispatcher, complete, dispatch, respond}
use nautilus_futu.Client.Interleave.{
  Stage, took, ready, sent, failed, settled, System, written_stage, take_number, register_from,
  write_from,
}
use nautilus_futu.Client.Interleave.Pending.{holder, Matches, Below, insert-Matches, insert-Below}

-- The pending map is that of the requests under way, and their numbers are behind the counter.
unfoldable pub Held : System → Type 0
Held y = Matches y.client.dispatcher y.stages × Below y.client.conn.serial_counter y.stages

pub Below-mono : (n m : ℕ) (st : Map Stage) → n ≤ m → Below n st → Below m st
Below-mono n m st le b j lj = b j (omega arith)

-- A number that is taken is behind the counter from then on.
pub advance : (n : ℕ) → n + 1 < u32_mod → n < (n + 1) % u32_mod
advance n lt = omega arith

below : (n s : ℕ) (g : Stage) (st : Map Stage) → lookup s st ≡ some g → Below n st → s < n
below n s g st e b = ground (arith, b s)

pub answered :
    (closed : ℕ → Bool) (m : FutuMessage) (d : Dispatcher) (tx : ℕ)
    → lookup m.serial_no d.pending ≡ some tx
    → (dispatch closed m d).1 ≡ complete tx m ∷ []
unfolding dispatch respond
answered closed m d tx e = ap (λ o. (respond closed m o d).1) e ∙ unfold respond in refl

pub holder_written : (tx : ℕ) (w : Written) → holder (some (written_stage tx w)) ≡ some tx
holder_written tx none = refl
holder_written tx (some e) = refl

-- A stage with the same channel takes the place of another.
swap-Matches :
    (s : ℕ) (g : Stage) (d : Dispatcher) (st : Map Stage)
    → holder (lookup s st) ≡ holder (some g)
    → Matches d st
    → Matches d (insert s g st)
swap-Matches s g d st e h j = ground (arith, h j, lookup-insert s j g st)

pub take-Held :
    (tx : ℕ) (y : System)
    → y.client.conn.serial_counter + 1 < u32_mod
    → Held y
    → Held (take_number tx y)
unfolding take_number next_serial Held
take-Held tx y lt (h, b) =
    let n = y.client.conn.serial_counter in
    let m = (n + 1) % u32_mod in
    let ahead = advance n lt in
    (
      swap-Matches n (took tx) y.client.dispatcher y.stages (ap holder (b n (omega arith))) h,
      insert-Below m n (took tx) y.stages ahead (Below-mono n m y.stages (omega arith) b),
    )

pub register-Held :
    (o : Option Stage) (s : ℕ) (y : System)
    → lookup s y.stages ≡ o
    → Held y
    → Held (register_from o s y).0
unfolding register_from Held
register-Held none s y e h = h
register-Held (some (took tx)) s y e (h, b) =
    let n = y.client.conn.serial_counter in
    (
      insert-Matches s tx (ready tx) y.client.dispatcher y.stages refl h,
      insert-Below n s (ready tx) y.stages (below n s (took tx) y.stages e b) b,
    )
register-Held (some (ready tx)) s y e h = h
register-Held (some (sent tx)) s y e h = h
register-Held (some (failed tx)) s y e h = h
register-Held (some settled) s y e h = h

pub write-Held :
    (o : Option Stage) (s : ℕ) (w : Written) (y : System)
    → lookup s y.stages ≡ o
    → Held y
    → Held (write_from o s w y)
unfolding write_from Held
write-Held none s w y e h = h
write-Held (some (took tx)) s w y e h = h
write-Held (some (ready tx)) s w y e (h, b) =
    let n = y.client.conn.serial_counter in
    (
      swap-Matches s (written_stage tx w) y.client.dispatcher y.stages
          (ap holder e ∙ sym (holder_written tx w)) h,
      insert-Below n s (written_stage tx w) y.stages (below n s (ready tx) y.stages e b) b,
    )
write-Held (some (sent tx)) s w y e h = h
write-Held (some (failed tx)) s w y e h = h
write-Held (some settled) s w y e h = h
