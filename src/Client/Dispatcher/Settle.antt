-- ===== src/Client/Dispatcher/Settle.antt =====
-- What becomes of the senders that dispatcher.rs keeps for requests.
use nautilus_futu.Prelude.{
  ℕ, ◌+◌, ◌≡◌, refl, ap, List, [], ◌∷◌, ◌++◌, Bool, Option, none, some, map, arith,
}
use nautilus_futu.Prelude.Maps.{
  lookup, insert, values, UniqueKeys, remove-UniqueKeys, insert-UniqueKeys, count, count-append,
  count-remove, values_of,
}
use nautilus_futu.Protocol.Codec.{FutuMessage}
use nautilus_futu.Client.Dispatcher.{
  Dispatcher, Effect, complete, cancel, deliver, init, register_request, register_push,
  clear_pending, push_to, retain_open, respond, dispatch, cancel_old, Call, requests, listens,
  clears, receives, step, run,
}

-- The oneshot senders that the effects use up, with a message or without.
abbrev pub settled : List Effect → List ℕ
settled [] = []
settled (complete tx m ∷ es) = tx ∷ settled es
settled (cancel tx ∷ es) = tx ∷ settled es
settled (deliver tx m ∷ es) = settled es

abbrev pub registered : List Call → List ℕ
registered [] = []
registered (requests s tx ∷ cs) = tx ∷ registered cs
registered (listens p tx ∷ cs) = registered cs
registered (clears ∷ cs) = registered cs
registered (receives c m ∷ cs) = registered cs

abbrev pub waiting : Dispatcher → List ℕ
waiting d = values d.pending

abbrev pub IsValid : Dispatcher → Type 0
IsValid d = UniqueKeys d.pending

pub settled-append : (es fs : List Effect) → settled (es ++ fs) ≡ settled es ++ settled fs
settled-append [] fs = refl
settled-append (complete tx m ∷ es) fs = ap (λ l. tx ∷ l) (settled-append es fs)
settled-append (cancel tx ∷ es) fs = ap (λ l. tx ∷ l) (settled-append es fs)
settled-append (deliver tx m ∷ es) fs = settled-append es fs

pub settled-cancel : (txs : List ℕ) → settled (map cancel txs) ≡ txs
settled-cancel [] = refl
settled-cancel (tx ∷ txs) = ap (λ l. tx ∷ l) (settled-cancel txs)

settled-deliver : (m : FutuMessage) (txs : List ℕ) → settled (map (λ tx. deliver tx m) txs) ≡ []
settled-deliver m [] = refl
settled-deliver m (tx ∷ txs) = settled-deliver m txs

settled-cancel_old : (o : Option ℕ) → settled (cancel_old o) ≡ values_of o
settled-cancel_old none = refl
settled-cancel_old (some tx) = refl

-- The senders in and out of one call balance.
abbrev Balance : ℕ → List ℕ → Dispatcher → Dispatcher × List Effect → Type 0
Balance a news d (d', es) =
    count a (waiting d) + count a news ≡ count a (settled es) + count a (waiting d')

request-Balance :
    (a s tx : ℕ) (d : Dispatcher) → IsValid d → Balance a (tx ∷ []) d (register_request s tx d)
unfolding register_request insert
request-Balance a s tx d v =
    ground (arith, count-remove a s d.pending v, settled-cancel_old (lookup s d.pending))

clear-Balance : (a : ℕ) (d : Dispatcher) → Balance a [] d (clear_pending d)
unfolding clear_pending
clear-Balance a d = rw settled-cancel refl

push-Balance :
    (a : ℕ) (closed : ℕ → Bool) (m : FutuMessage) (o : Option (List ℕ)) (d : Dispatcher)
    → Balance a [] d (push_to closed m o d)
unfolding push_to
push-Balance a closed m none d = omega arith
push-Balance a closed m (some txs) d =
    omega (arith, ap (count a) (settled-deliver m (retain_open closed txs)))

dispatch-Balance :
    (a : ℕ) (closed : ℕ → Bool) (m : FutuMessage) (d : Dispatcher)
    → IsValid d
    → Balance a [] d (dispatch closed m d)
unfolding dispatch
dispatch-Balance a closed m d v = go (lookup m.serial_no d.pending) refl
  where
    go : (o : Option ℕ) → lookup m.serial_no d.pending ≡ o → Balance a [] d (respond closed m o d)
    go none e = push-Balance a closed m (lookup m.proto_id d.push_handlers) d
    go (some tx) e = ground (arith, count-remove a m.serial_no d.pending v, e)

step-Balance :
    (a : ℕ) (c : Call) (d : Dispatcher) → IsValid d → Balance a (registered (c ∷ [])) d (step c d)
unfolding step
step-Balance a (requests s tx) d v = request-Balance a s tx d v
step-Balance a (listens p tx) d v = unfold register_push in omega arith
step-Balance a clears d v = clear-Balance a d
step-Balance a (receives closed m) d v = dispatch-Balance a closed m d v

push-IsValid :
    (closed : ℕ → Bool) (m : FutuMessage) (o : Option (List ℕ)) (d : Dispatcher)
    → IsValid d
    → IsValid (push_to closed m o d).0
unfolding push_to
push-IsValid closed m none d v = v
push-IsValid closed m (some txs) d v = v

respond-IsValid :
    (closed : ℕ → Bool) (m : FutuMessage) (o : Option ℕ) (d : Dispatcher)
    → IsValid d
    → IsValid (respond closed m o d).0
unfolding respond
respond-IsValid closed m none d v = push-IsValid closed m (lookup m.proto_id d.push_handlers) d v
respond-IsValid closed m (some tx) d v = remove-UniqueKeys m.serial_no d.pending v

-- Every call keeps one entry for each serial number.
pub step-IsValid : (c : Call) (d : Dispatcher) → IsValid d → IsValid (step c d).0
unfolding step
step-IsValid (requests s tx) d v = unfold register_request in insert-UniqueKeys s tx d.pending v
step-IsValid (listens p tx) d v = unfold register_push in v
step-IsValid clears d v = unfold clear_pending in tt
step-IsValid (receives closed m) d v =
    unfold dispatch in respond-IsValid closed m (lookup m.serial_no d.pending) d v

count-registered :
    (a : ℕ) (c : Call) (cs : List Call)
    → count a (registered (c ∷ cs)) ≡ count a (registered (c ∷ [])) + count a (registered cs)
count-registered a (requests s tx) cs = ground arith
count-registered a (listens p tx) cs = omega arith
count-registered a clears cs = omega arith
count-registered a (receives closed m) cs = omega arith

run-Balance :
    (a : ℕ) (cs : List Call) (d : Dispatcher) → IsValid d → Balance a (registered cs) d (run cs d)
unfolding run
run-Balance a [] d v = omega arith
run-Balance a (c ∷ cs) d v =
    let (d', es) = step c d in
    let (last, fs) = run cs d' in
    omega (
      arith,
      count-registered a c cs,
      step-Balance a c d v,
      run-Balance a cs d' (step-IsValid c d v),
      ap (count a) (settled-append es fs),
      count-append a (settled es) (settled fs),
    )

-- Of a new dispatcher, after any calls in any order: each oneshot sender was registered exactly as
-- often as it was settled (completed with a message or dropped) or is still pending. So no request
-- is answered twice, and none is lost.
pub run_conserves :
    (calls : List Call) (tx : ℕ)
    → count tx (registered calls)
      ≡ count tx (settled (run calls init).1) + count tx (waiting (run calls init).0)
run_conserves calls tx = omega (arith, run-Balance tx calls init tt)
