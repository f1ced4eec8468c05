-- ===== src/Client/Interleave/Pending.antt =====
-- The pending map of dispatcher.rs against the requests of client/mod.rs that are under way, while
-- callers, the receive loop and the heartbeat take turns.
use mathlib.Core.Option
use nautilus_futu.Prelude.{
  ℕ, ◌≤◌, ◌<◌, ◌≡◌, refl, sym, ap, ◌∙◌, List, [], ◌∷◌, Bool, Option, none, some, arith, ◌==◌,
  if◌then◌else◌,
}
use nautilus_futu.Prelude.Maps.{Map, lookup, insert, lookup-insert, lookup-remove}
use nautilus_futu.Protocol.Codec.{FutuMessage}
use nautilus_futu.Client.Dispatcher
use nautilus_futu.Client.Dispatcher.{
  Dispatcher, Effect, complete, Call, requests, listens, clears, receives, register_request,
  register_push, dispatch, respond, push_to,
}
use nautilus_futu.Client.Dispatcher.Settle.{registered}
use nautilus_futu.Client.Interleave.{
  Stage, took, ready, sent, failed, settled, settle_stage, settle, settle_all, noted, noted_all,
}

-- The channel that waits for a request's response.
abbrev pub holder : Option Stage → Option ℕ
holder none = none
holder (some (took tx)) = none
holder (some (ready tx)) = some tx
holder (some (sent tx)) = some tx
holder (some (failed tx)) = some tx
holder (some settled) = none

abbrev pub Matches : Dispatcher → Map Stage → Type 0
Matches d st = (s : ℕ) → lookup s d.pending ≡ holder (lookup s st)

holder-settle : (o : Option Stage) → holder (Option.map settle_stage o) ≡ none
holder-settle none = refl
holder-settle (some (took tx)) = refl
holder-settle (some (ready tx)) = refl
holder-settle (some (sent tx)) = refl
holder-settle (some (failed tx)) = refl
holder-settle (some settled) = refl

lookup-settle :
    (s j : ℕ) (m : Map Stage)
    → lookup j (settle s m) ≡ (if s == j then Option.map settle_stage (lookup j m) else lookup j m)
unfolding lookup settle
lookup-settle s j [] = ground arith
lookup-settle s j ((k, g) ∷ m) = ground (arith, lookup-settle s j m)

lookup-settle_all :
    (j : ℕ) (m : Map Stage) → lookup j (settle_all m) ≡ Option.map settle_stage (lookup j m)
unfolding lookup settle_all
lookup-settle_all j [] = refl
lookup-settle_all j ((k, g) ∷ m) = ground (arith, lookup-settle_all j m)

pending-push_to :
    (closed : ℕ → Bool) (m : FutuMessage) (o : Option (List ℕ)) (d : Dispatcher)
    → (push_to closed m o d).0.pending ≡ d.pending
unfolding push_to
pending-push_to closed m none d = refl
pending-push_to closed m (some txs) d = refl

-- A message leaves no request pending under its serial number, and the others as they were.
pending-respond :
    (closed : ℕ → Bool) (m : FutuMessage) (o : Option ℕ) (d : Dispatcher) (j : ℕ)
    → lookup m.serial_no d.pending ≡ o
    → lookup j (respond closed m o d).0.pending
      ≡ (if m.serial_no == j then none else lookup j d.pending)
unfolding respond
pending-respond closed m none d j e =
    ap (lookup j) (pending-push_to closed m (lookup m.proto_id d.push_handlers) d) ∙ ground arith
pending-respond closed m (some tx) d j e = lookup-remove m.serial_no j d.pending

receives-Matches :
    (closed : ℕ → Bool) (m : FutuMessage) (d : Dispatcher) (st : Map Stage)
    → Matches d st
    → Matches (dispatch closed m d).0 (settle m.serial_no st)
unfolding dispatch
receives-Matches closed m d st h j =
    pending-respond closed m (lookup m.serial_no d.pending) d j refl
    ∙ ground (arith, h j, lookup-settle m.serial_no j st, holder-settle (lookup j st))

-- A request that is registered holds its channel at once.
pub insert-Matches :
    (s tx : ℕ) (g : Stage) (d : Dispatcher) (st : Map Stage)
    → holder (some g) ≡ some tx
    → Matches d st
    → Matches (register_request s tx d).0 (insert s g st)
unfolding register_request
insert-Matches s tx g d st e h j =
    ground (arith, lookup-insert s j tx d.pending, lookup-insert s j g st, h j)

noted-Matches :
    (k : Call) (d : Dispatcher) (st : Map Stage)
    → Matches d st
    → Matches (Dispatcher.step k d).0 (noted k st)
unfolding Dispatcher.step noted
noted-Matches (requests s tx) d st h = insert-Matches s tx (sent tx) d st refl h
noted-Matches (listens p tx) d st h = unfold register_push in h
noted-Matches clears d st h = λ j.
    unfold Dispatcher.clear_pending lookup in
    sym (ap holder (lookup-settle_all j st) ∙ holder-settle (lookup j st))
noted-Matches (receives closed m) d st h = receives-Matches closed m d st h

pub noted_all-Matches :
    (ks : List Call) (d : Dispatcher) (st : Map Stage)
    → Matches d st
    → Matches (Dispatcher.run ks d).0 (noted_all ks st)
unfolding Dispatcher.run noted_all
noted_all-Matches [] d st h = h
noted_all-Matches (k ∷ ks) d st h =
    noted_all-Matches ks (Dispatcher.step k d).0 (noted k st) (noted-Matches k d st h)

-- No number from `n` on is under way.
abbrev pub Below : ℕ → Map Stage → Type 0
Below n st = (j : ℕ) → n ≤ j → lookup j st ≡ none

pub insert-Below :
    (n s : ℕ) (g : Stage) (st : Map Stage) → s < n → Below n st → Below n (insert s g st)
insert-Below n s g st h b j le = ground (arith, lookup-insert s j g st, b j le)

noted-Below :
    (n : ℕ) (k : Call) (st : Map Stage)
    → registered (k ∷ []) ≡ []
    → Below n st
    → Below n (noted k st)
unfolding noted
noted-Below n (requests s tx) st e b = grind arith
noted-Below n (listens p tx) st e b = b
noted-Below n clears st e b = λ j le. lookup-settle_all j st ∙ ground (arith, b j le)
noted-Below n (receives closed m) st e b =
    λ j le. ground (arith, lookup-settle m.serial_no j st, b j le)

registered_parts :
    (k : Call) (ks : List Call)
    → registered (k ∷ ks) ≡ []
    → (registered (k ∷ []) ≡ []) × (registered ks ≡ [])
registered_parts (requests s tx) ks e = grind arith
registered_parts (listens p tx) ks e = (refl, e)
registered_parts clears ks e = (refl, e)
registered_parts (receives closed m) ks e = (refl, e)

-- Calls that register no request take no number.
pub noted_all-Below :
    (n : ℕ) (ks : List Call) (st : Map Stage)
    → registered ks ≡ []
    → Below n st
    → Below n (noted_all ks st)
unfolding noted_all
noted_all-Below n [] st e b = b
noted_all-Below n (k ∷ ks) st e b =
    let parts = registered_parts k ks e in
    noted_all-Below n ks (noted k st) parts.1 (noted-Below n k st parts.0 b)
