-- ===== src/Client/Dispatcher.antt =====
-- crates/futu/src/client/dispatcher.rs: responses by serial number, pushes by protocol id. A
-- channel of tokio is known by a number, the one of its sender; what the dispatcher does to senders
-- is returned as a list of effects. A sender is dropped, without a message, where its map entry is
-- overwritten or cleared. Each method holds the lock of the map that it changes from its first read
-- to its write.
pub mod Settle
pub mod Routing
use nautilus_futu.Prelude.{
  ℕ, List, [], ◌∷◌, ◌++◌, Bool, Option, none, some, map, not, if◌then◌else◌,
}
use nautilus_futu.Prelude.Maps.{Map, lookup, insert, remove, values}
use nautilus_futu.Protocol.Codec.{FutuMessage}

pub record Dispatcher : Type 0 where
  pub pending : Map ℕ
  pub push_handlers : Map (List ℕ)

-- `complete` and `deliver` are sends; their results are ignored. `cancel` drops a oneshot sender.
pub data Effect : Type 0 where
  complete : ℕ → FutuMessage → Effect
  cancel : ℕ → Effect
  deliver : ℕ → FutuMessage → Effect

abbrev pub init : Dispatcher
init = record { pending = []; push_handlers = [] }

abbrev pub cancel_old : Option ℕ → List Effect
cancel_old none = []
cancel_old (some tx) = cancel tx ∷ []

-- `tx` is the sender of the new oneshot channel.
unfoldable pub register_request : ℕ → ℕ → Dispatcher → Dispatcher × List Effect
register_request serial_no tx d =
    (record d { pending = insert serial_no tx d.pending }, cancel_old (lookup serial_no d.pending))

abbrev pub or_default : Option (List ℕ) → List ℕ
or_default none = []
or_default (some senders) = senders

-- `tx` is the sender of the new unbounded channel.
unfoldable pub register_push : ℕ → ℕ → Dispatcher → Dispatcher
register_push proto_id tx d = record d {
  push_handlers =
      insert proto_id (or_default (lookup proto_id d.push_handlers) ++ tx ∷ []) d.push_handlers;
}

unfoldable pub clear_pending : Dispatcher → Dispatcher × List Effect
clear_pending d = (record d { pending = [] }, map cancel (values d.pending))

-- `senders.retain(|s| !s.is_closed())`
unfoldable pub retain_open : (ℕ → Bool) → List ℕ → List ℕ
retain_open is_closed [] = []
retain_open is_closed (tx ∷ senders) =
    let rest = retain_open is_closed senders in if is_closed tx then rest else tx ∷ rest

unfoldable pub push_to :
    (ℕ → Bool) → FutuMessage → Option (List ℕ) → Dispatcher → Dispatcher × List Effect
push_to is_closed msg none d = (d, [])
push_to is_closed msg (some senders) d =
    let left = retain_open is_closed senders in
    (
      record d { push_handlers = insert msg.proto_id left d.push_handlers },
      map (λ tx. deliver tx msg) left,
    )

unfoldable pub respond : (ℕ → Bool) → FutuMessage → Option ℕ → Dispatcher → Dispatcher × List Effect
unfolding push_to
respond is_closed msg (some tx) d =
    (record d { pending = remove msg.serial_no d.pending }, complete tx msg ∷ [])
respond is_closed msg none d = push_to is_closed msg (lookup msg.proto_id d.push_handlers) d

-- `is_closed` is the state of the push channels' receivers at the time of the call.
unfoldable pub dispatch : (ℕ → Bool) → FutuMessage → Dispatcher → Dispatcher × List Effect
unfolding respond
dispatch is_closed msg d = respond is_closed msg (lookup msg.serial_no d.pending) d

-- The calls that reach a dispatcher, in the order in which they take its locks.
pub data Call : Type 0 where
  requests : ℕ → ℕ → Call
  listens : ℕ → ℕ → Call
  clears : Call
  receives : (ℕ → Bool) → FutuMessage → Call

unfoldable pub step : Call → Dispatcher → Dispatcher × List Effect
step (requests serial_no tx) d = register_request serial_no tx d
step (listens proto_id tx) d = (register_push proto_id tx d, [])
step clears d = clear_pending d
step (receives is_closed msg) d = dispatch is_closed msg d

unfoldable pub run : List Call → Dispatcher → Dispatcher × List Effect
run [] d = (d, [])
run (c ∷ cs) d =
    let (d', effects) = step c d in let (last, more) = run cs d' in (last, effects ++ more)
