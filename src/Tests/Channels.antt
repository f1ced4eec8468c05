-- ===== src/Tests/Channels.antt =====
-- The push channels of the Python class at concrete inputs.
use nautilus_futu.Prelude.{map, ℕ, ◌≡◌, refl, List, [], ◌∷◌, ◌++◌, some, Result, ok}
use nautilus_futu.Prelude.Maps.{lookup}
use nautilus_futu.Python.{
  PushError, new, start_push, start_with, forward, forward_to, push_at, pop_at, poll_push,
}
use nautilus_futu.Python.Fifo.{
  PushEvent, starts, forwards, polls, run, sent, got, queue, sent-eq-got,
}
use nautilus_futu.Python.Pipeline
use nautilus_futu.Python.Pipeline.{PipeTurn, happens, subscribed}
use nautilus_futu.Python.Pipeline.Inbox.{pair}
use nautilus_futu.Python.Pipeline.Order.{arrived, taken, inbox, arrived-taken}
use nautilus_futu.Client.Session.{yields}
use nautilus_futu.Tests.Samples.{aes, encode_request, all_open, client, message}

abbrev count_bytes : ℕ → List ℕ → Result PushError (List ℕ)
count_bytes proto_id body = ok body

-- Two channels; the first listens to two protocols.
abbrev events : List PushEvent
events =
    starts ((3005, 50) ∷ (3007, 70) ∷ [])
    ∷ starts ((3007, 71) ∷ [])
    ∷ forwards 70 (message 3007 0 (1 ∷ []))
    ∷ forwards 71 (message 3007 0 (1 ∷ []))
    ∷ forwards 50 (message 3005 0 (2 ∷ []))
    ∷ polls 0
    ∷ []

sent_two :
    sent count_bytes 0 events (record new { client = some client })
    ≡ (3007, 1 ∷ []) ∷ (3005, 2 ∷ []) ∷ []
unfolding start_push start_with forward forward_to push_at pop_at poll_push lookup
sent_two = refl

sent-eq-got_example :
    sent count_bytes 0 events (record new { client = some client })
    ≡ got count_bytes 0 events (record new { client = some client })
      ++ queue 0 (run count_bytes events (record new { client = some client }))
sent-eq-got_example = sent-eq-got count_bytes 0 events client

-- Two pushes for the subscription and one for nobody, a round of the forwarder, and two polls.
abbrev pushes : List PipeTurn
pushes =
    happens (yields all_open (some (ok (message 3007 0 []))))
    ∷ happens (yields all_open (some (ok (message 3011 0 []))))
    ∷ Pipeline.forwards 70
    ∷ happens (yields all_open (some (ok (message 3007 1 []))))
    ∷ Pipeline.polls 0
    ∷ Pipeline.polls 0
    ∷ []

arrived-taken_example :
    map pair (arrived aes encode_request count_bytes 70 pushes (subscribed 3007 70 client))
    ≡ taken aes encode_request count_bytes 70 pushes (subscribed 3007 70 client)
      ++ (queue 0
            (Pipeline.run aes encode_request count_bytes pushes (subscribed 3007 70 client)).py
          ++ map pair (
              inbox aes encode_request count_bytes 70
                (Pipeline.run aes encode_request count_bytes pushes (subscribed 3007 70 client))))
arrived-taken_example = arrived-taken aes encode_request count_bytes 70 3007 client pushes
