-- ===== src/Client/Interleave.antt =====
-- crates/futu/src/client/mod.rs: `request` in the steps between which other tasks run: it takes a
-- serial number, registers it under the dispatcher's lock, and writes the message. Callers are
-- many; each is known by its serial number. All other events are those of Client/Session.
pub mod Numbers
pub mod Pending
pub mod Held
pub mod Runs
use mathlib.Core.Option
use nautilus_futu.Prelude.{ℕ, List, [], ◌∷◌, ◌++◌, Option, none, some, ◌==◌, if◌then◌else◌}
use nautilus_futu.Prelude.Words.{ℤ}
use nautilus_futu.Prelude.Maps.{Map, lookup, insert}
use nautilus_futu.Protocol.Encryption.{Aes128}
use nautilus_futu.Client.Connection.{Written, next_serial}
use nautilus_futu.Client.Dispatcher.{
  Effect, Call, requests, listens, clears, receives, register_request,
}
use nautilus_futu.Client.Session
use nautilus_futu.Client.Session.{FutuClient, Event, asks}
use nautilus_futu.Client.Session.Calls.{calls_of}

-- How far a request is, with the sender of its channel: its number is taken, it is registered, it
-- is written, its write has failed; or its channel has got a message or was dropped.
pub data Stage : Type 0 where
  took ready sent failed : ℕ → Stage
  settled : Stage

-- The client, and the stages of its requests by their serial numbers: notes for the theorems, which
-- no state of the code holds.
pub record System : Type 0 where
  pub client : FutuClient
  pub stages : Map Stage

abbrev pub settle_stage : Stage → Stage
settle_stage (took tx) = took tx
settle_stage (ready tx) = settled
settle_stage (sent tx) = settled
settle_stage (failed tx) = settled
settle_stage settled = settled

unfoldable pub settle : ℕ → Map Stage → Map Stage
settle s [] = []
settle s ((k, g) ∷ m) = (k, if k == s then settle_stage g else g) ∷ settle s m

unfoldable pub settle_all : Map Stage → Map Stage
settle_all [] = []
settle_all ((k, g) ∷ m) = (k, settle_stage g) ∷ settle_all m

abbrev pub written_stage : ℕ → Written → Stage
written_stage tx none = sent tx
written_stage tx (some e) = failed tx

-- `let serial_no = self.conn.next_serial()`
unfoldable pub take_number : ℕ → System → System
take_number tx y =
    let (serial_no, conn) = next_serial y.client.conn in
    record {
      client = record y.client { conn = conn };
      stages = insert serial_no (took tx) y.stages;
    }

-- `let rx = self.dispatcher.register_request(serial_no).await`
unfoldable pub register_from : Option Stage → ℕ → System → System × List Effect
register_from (some (took tx)) s y =
    let (d, effects) = register_request s tx y.client.dispatcher in
    (
      record { client = record y.client { dispatcher = d }; stages = insert s (ready tx) y.stages },
      effects,
    )
register_from (some (ready tx)) s y = (y, [])
register_from (some (sent tx)) s y = (y, [])
register_from (some (failed tx)) s y = (y, [])
register_from (some settled) s y = (y, [])
register_from none s y = (y, [])

-- `self.conn.send_with_serial(…).await`: the client's state does not change.
unfoldable pub write_from : Option Stage → ℕ → Written → System → System
write_from (some (ready tx)) s written y = record y {
  stages = insert s (written_stage tx written) y.stages;
}
write_from (some (took tx)) s written y = y
write_from (some (sent tx)) s written y = y
write_from (some (failed tx)) s written y = y
write_from (some settled) s written y = y
write_from none s written y = y

-- What a call of the dispatcher does to the requests under way.
unfoldable pub noted : Call → Map Stage → Map Stage
noted (requests s tx) st = insert s (sent tx) st
noted (listens p tx) st = st
noted clears st = settle_all st
noted (receives is_closed msg) st = settle msg.serial_no st

unfoldable pub noted_all : List Call → Map Stage → Map Stage
noted_all [] st = st
noted_all (k ∷ ks) st = noted_all ks (noted k st)

pub data Turn : Type 0 where
  takes : ℕ → Turn
  registers : ℕ → Turn
  writes : ℕ → Written → Turn
  others : Event → Turn

module _ (aes : Aes128) (encode_request : ℤ → List ℕ) where
  unfoldable pub stages_after : Event → FutuClient → Map Stage → Map Stage
  unfolding calls_of
  stages_after (asks p body tx w) c st = insert c.conn.serial_counter (written_stage tx w) st
  stages_after e c st = noted_all (calls_of aes e c) st

  unfoldable pub step : Turn → System → System × List Effect
  step (takes tx) y = (take_number tx y, [])
  step (registers s) y = register_from (lookup s y.stages) s y
  step (writes s written) y = (write_from (lookup s y.stages) s written y, [])
  step (others e) y =
      let (c, effects) = Session.step aes encode_request e y.client in
      (record { client = c; stages = stages_after e y.client y.stages }, effects)

  unfoldable pub run : List Turn → System → System × List Effect
  run [] y = (y, [])
  run (t ∷ ts) y =
      let (y', effects) = step t y in let (last, more) = run ts y' in (last, effects ++ more)

-- No request is under way.
abbrev pub idle : FutuClient → System
idle c = record { client = c; stages = [] }
