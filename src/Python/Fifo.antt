-- ===== src/Python/Fifo.antt =====
-- The order of messages in the push channels of python/client.rs.
use nautilus_futu.Prelude.{
  ℕ, zero, suc, ◌+◌, ◌<◌, ◌≤◌, ◌≡◌, refl, sym, ap, ◌∙◌, List, [], ◌∷◌, ◌++◌, append-nil,
  append_assoc, Option, none, some, Result, arith, length, length-append, get_or, ◌==◌,
  if◌then◌else◌,
}
use nautilus_futu.Prelude.Maps.{lookup}
use nautilus_futu.Protocol.Codec.{FutuMessage}
use nautilus_futu.Client.Session.{FutuClient}
use nautilus_futu.Python.{
  PushError, PushMessage, PyFutuClient, new, forwarders, start_with, start_push, push_at,
  forward_to, forward, pop_at, poll_push,
}

-- Calls of `start_push`, rounds of the forwarders, and calls of `poll_push`.
pub data PushEvent : Type 0 where
  starts : List (ℕ × ℕ) → PushEvent
  forwards : ℕ → FutuMessage → PushEvent
  polls : ℕ → PushEvent

-- What is added behind a queue that gives its front away.
pub shift :
    {A : Type 0}
    → (a b c d e f g : List A) → a ++ b ≡ c ++ d
    → d ++ e ≡ f ++ g
    → a ++ (b ++ e) ≡ (c ++ f) ++ g
shift a b c d e f g first rest =
    sym (append_assoc a b e)
    ∙ ap (λ l. l ++ e) first
    ∙ append_assoc c d e
    ∙ ap (λ l. c ++ l) rest
    ∙ sym (append_assoc c f g)

abbrev pub queue : ℕ → PyFutuClient → List PushMessage
queue i p = get_or p.push_channels i []

abbrev pub to_channel : ℕ → Option ℕ → PushMessage → List PushMessage
to_channel i none m = []
to_channel i (some j) m = if j == i then m ∷ [] else []

abbrev pub taken : Option PushMessage → List PushMessage
taken none = []
taken (some m) = m ∷ []

-- What an event forwards into channel `i`, and what it takes out.
abbrev pub sent_by : ℕ → PushEvent → PyFutuClient → List PushMessage
sent_by i (starts subscriptions) p = []
sent_by i (forwards tx msg) p = to_channel i (lookup tx p.push_handles) (msg.proto_id, msg.body)
sent_by i (polls j) p = []

abbrev pub got_by : ℕ → PushEvent → PyFutuClient → List PushMessage
got_by i (starts subscriptions) p = []
got_by i (forwards tx msg) p = []
got_by i (polls j) p = if j == i then taken (pop_at j p.push_channels).0 else []

-- Every forwarder writes to a channel that is there.
abbrev AllBelow : ℕ → List (ℕ × ℕ) → Type 0
AllBelow n [] = Unit {0}
AllBelow n ((tx, j) ∷ hs) = (j < n) × AllBelow n hs

abbrev pub InRange : PyFutuClient → Type 0
InRange p = AllBelow (length p.push_channels) p.push_handles

AllBelow-mono : (n m : ℕ) (hs : List (ℕ × ℕ)) → n ≤ m → AllBelow n hs → AllBelow m hs
AllBelow-mono n m [] h a = tt
AllBelow-mono n m ((tx, j) ∷ hs) h a = (omega (arith, a.0), AllBelow-mono n m hs h a.1)

AllBelow-append :
    (n : ℕ) (hs gs : List (ℕ × ℕ)) → AllBelow n hs → AllBelow n gs → AllBelow n (hs ++ gs)
AllBelow-append n [] gs a b = b
AllBelow-append n ((tx, j) ∷ hs) gs a b = (a.0, AllBelow-append n hs gs a.1 b)

AllBelow-forwarders : (j n : ℕ) (s : List (ℕ × ℕ)) → j < n → AllBelow n (forwarders j s)
AllBelow-forwarders j n [] h = tt
AllBelow-forwarders j n ((proto_id, tx) ∷ s) h = (h, AllBelow-forwarders j n s h)

AllBelow-lookup : (n tx j : ℕ) (hs : List (ℕ × ℕ)) → AllBelow n hs → lookup tx hs ≡ some j → j < n
unfolding lookup
AllBelow-lookup n tx j [] a e = absurd (ground arith)
AllBelow-lookup n tx j ((tx', j') ∷ hs) a e = ground (arith, AllBelow-lookup n tx j hs a.1, a.0)

length-push_at :
    (i : ℕ) (m : PushMessage) (qs : List (List PushMessage)) → length (push_at i m qs) ≡ length qs
unfolding push_at
length-push_at i m [] = refl
length-push_at zero m (q ∷ qs) = refl
length-push_at (suc i) m (q ∷ qs) = ap suc (length-push_at i m qs)

length-pop_at : (i : ℕ) (qs : List (List PushMessage)) → length (pop_at i qs).1 ≡ length qs
unfolding pop_at
length-pop_at i [] = refl
length-pop_at zero ([] ∷ qs) = refl
length-pop_at zero ((m ∷ q) ∷ qs) = refl
length-pop_at (suc i) (q ∷ qs) = ap suc (length-pop_at i qs)

get_or-push_at :
    (i j : ℕ) (m : PushMessage) (qs : List (List PushMessage))
    → j < length qs
    → get_or qs i [] ++ to_channel i (some j) m ≡ get_or (push_at j m qs) i []
unfolding push_at
get_or-push_at i j m [] h = absurd (omega arith)
get_or-push_at zero zero m (q ∷ qs) h = refl
get_or-push_at (suc i) zero m (q ∷ qs) h = ground (arith, append-nil (get_or qs i []))
get_or-push_at zero (suc j) m (q ∷ qs) h = ground (arith, append-nil q)
get_or-push_at (suc i) (suc j) m (q ∷ qs) h =
    let tail = get_or-push_at i j m qs (omega arith) in ground arith

get_or-pop_at :
    (i j : ℕ) (qs : List (List PushMessage))
    → get_or qs i [] ≡ (if j == i then taken (pop_at j qs).0 else []) ++ get_or (pop_at j qs).1 i []
unfolding pop_at
get_or-pop_at i j [] = ground arith
get_or-pop_at zero zero ([] ∷ qs) = refl
get_or-pop_at zero zero ((m ∷ q) ∷ qs) = refl
get_or-pop_at (suc i) zero ([] ∷ qs) = ground arith
get_or-pop_at (suc i) zero ((m ∷ q) ∷ qs) = ground arith
get_or-pop_at zero (suc j) (q ∷ qs) = ground arith
get_or-pop_at (suc i) (suc j) (q ∷ qs) = let tail = get_or-pop_at i j qs in ground arith

get_or-snoc : (i : ℕ) (qs : List (List PushMessage)) → get_or (qs ++ [] ∷ []) i [] ≡ get_or qs i []
get_or-snoc zero [] = refl
get_or-snoc (suc i) [] = refl
get_or-snoc zero (q ∷ qs) = refl
get_or-snoc (suc i) (q ∷ qs) = get_or-snoc i qs

start_fifo :
    (i : ℕ) (o : Option FutuClient) (s : List (ℕ × ℕ)) (p : PyFutuClient)
    → queue i (start_with o s p).1 ≡ queue i p
unfolding start_with
start_fifo i none s p = refl
start_fifo i (some c) s p = get_or-snoc i p.push_channels

start-InRange :
    (o : Option FutuClient) (s : List (ℕ × ℕ)) (p : PyFutuClient)
    → InRange p
    → InRange (start_with o s p).1
unfolding start_with
start-InRange none s p r = r
start-InRange (some c) s p r =
    let n = length p.push_channels in
    let m = length (p.push_channels ++ [] ∷ []) in
    let more : m ≡ n + 1 = length-append p.push_channels ([] ∷ []) in
    AllBelow-append m p.push_handles (forwarders n s)
      (AllBelow-mono n m p.push_handles (omega (arith, more)) r)
      (AllBelow-forwarders n m s (omega (arith, more)))

forward_fifo :
    (i : ℕ) (o : Option ℕ) (msg : FutuMessage) (p : PyFutuClient)
    → ((j : ℕ) → o ≡ some j → j < length p.push_channels)
    → queue i p ++ to_channel i o (msg.proto_id, msg.body) ≡ queue i (forward_to o msg p)
unfolding forward_to
forward_fifo i none msg p r = append-nil (queue i p)
forward_fifo i (some j) msg p r =
    get_or-push_at i j (msg.proto_id, msg.body) p.push_channels (r j refl)

forward-InRange :
    (o : Option ℕ) (msg : FutuMessage) (p : PyFutuClient) → InRange p → InRange (forward_to o msg p)
unfolding forward_to
forward-InRange none msg p r = r
forward-InRange (some j) msg p r =
    let same = length-push_at j (msg.proto_id, msg.body) p.push_channels in
    AllBelow-mono (length p.push_channels) _ p.push_handles (omega (arith, same)) r

module _ {D : Type 0} (decode : ℕ → List ℕ → Result PushError D) where
  abbrev pub after : PushEvent → PyFutuClient → PyFutuClient
  after (starts subscriptions) p = (start_push subscriptions p).1
  after (forwards tx msg) p = forward tx msg p
  after (polls j) p = (poll_push decode j p).1

  abbrev pub run : List PushEvent → PyFutuClient → PyFutuClient
  run [] p = p
  run (e ∷ es) p = run es (after e p)

  abbrev pub sent : ℕ → List PushEvent → PyFutuClient → List PushMessage
  sent i [] p = []
  sent i (e ∷ es) p = sent_by i e p ++ sent i es (after e p)

  abbrev pub got : ℕ → List PushEvent → PyFutuClient → List PushMessage
  got i [] p = []
  got i (e ∷ es) p = got_by i e p ++ got i es (after e p)

  pub after_fifo :
      (i : ℕ) (e : PushEvent) (p : PyFutuClient)
      → InRange p
      → queue i p ++ sent_by i e p ≡ got_by i e p ++ queue i (after e p)
  unfolding start_push forward poll_push
  after_fifo i (starts s) p r = append-nil (queue i p) ∙ sym (start_fifo i p.client s p)
  after_fifo i (forwards tx msg) p r =
      forward_fifo i (lookup tx p.push_handles) msg p
        (λ j. AllBelow-lookup (length p.push_channels) tx j p.push_handles r)
  after_fifo i (polls j) p r = append-nil (queue i p) ∙ get_or-pop_at i j p.push_channels

  pub after-InRange : (e : PushEvent) (p : PyFutuClient) → InRange p → InRange (after e p)
  unfolding start_push forward poll_push
  after-InRange (starts s) p r = start-InRange p.client s p r
  after-InRange (forwards tx msg) p r = forward-InRange (lookup tx p.push_handles) msg p r
  after-InRange (polls j) p r =
      AllBelow-mono (length p.push_channels) _ p.push_handles
        (omega (arith, length-pop_at j p.push_channels)) r

  run_fifo :
      (i : ℕ) (es : List PushEvent) (p : PyFutuClient)
      → InRange p
      → queue i p ++ sent i es p ≡ got i es p ++ queue i (run es p)
  run_fifo i [] p r = append-nil (queue i p)
  run_fifo i (e ∷ es) p r =
      let p' = after e p in
      shift (queue i p) (sent_by i e p) (got_by i e p) (queue i p') (sent i es p') (got i es p')
        (queue i (run es p')) (after_fifo i e p r) (run_fifo i es p' (after-InRange e p r))

  -- On a newly connected client, after any calls of `start_push` and `poll_push` and any rounds of
  -- the forwarders: what was forwarded to a channel is what polls took from it followed by what is
  -- still in it, in the same order. So none is lost or doubled, and no channel takes from another.
  pub sent-eq-got :
      (i : ℕ) (es : List PushEvent) (c : FutuClient)
      → sent i es (record new { client = some c })
        ≡ got i es (record new { client = some c })
          ++ queue i (run es (record new { client = some c }))
  sent-eq-got i es c = run_fifo i es (record new { client = some c }) tt
