-- ===== src/Tests/Turns.antt =====
-- Requests that overlap, step by step, at concrete inputs.
use nautilus_futu.Prelude.{◌≡◌, refl, List, [], ◌∷◌, none, some, ok, arith}
use nautilus_futu.Prelude.Words.{pos}
use nautilus_futu.Prelude.Text.{ascii}
use nautilus_futu.Prelude.Maps.{lookup, insert, remove}
use nautilus_futu.Client.Dispatcher.{complete, dispatch, respond, push_to, register_request}
use nautilus_futu.Client.Connection.{next_serial, send_next, recv, decipher}
use nautilus_futu.Client.Keepalive.{send_keepalive}
use nautilus_futu.Client.Session.Calls.{calls_of}
use nautilus_futu.Client.Session
use nautilus_futu.Client.Session.{
  heart_round, recv_round, received, asks, sends, yields, beats, request,
}
use nautilus_futu.Client.Interleave.{
  Turn, takes, registers, writes, others, sent, run, idle, step, take_number, register_from,
  write_from, stages_after, noted_all, noted, settle,
}
use nautilus_futu.Client.Interleave.Pending.{holder}
use nautilus_futu.Client.Interleave.Runs.{run_pending, sent_answered}
use nautilus_futu.Tests.Samples.{aes, encode_request, client, message, all_open}

-- Two requests take their numbers, 2 and 3; the later one is registered and written first, another
-- whole request fails, an answer comes for the later one, and the earlier one goes on.
abbrev turns : List Turn
turns =
    takes 10
    ∷ takes 11
    ∷ registers 3
    ∷ writes 3 none
    ∷ others (asks 3004 (2 ∷ []) 12 (some (ascii "broken pipe")))
    ∷ registers 2
    ∷ others (beats (pos 60) none)
    ∷ others (yields all_open (some (ok (message 3004 3 []))))
    ∷ writes 2 none
    ∷ []

run_pending_example :
    lookup 4 (run aes encode_request turns (idle client)).0.client.dispatcher.pending
    ≡ holder (lookup 4 (run aes encode_request turns (idle client)).0.stages)
run_pending_example = run_pending aes encode_request turns client 4 refl (omega arith)

written : lookup 2 (run aes encode_request turns (idle client)).0.stages ≡ some (sent 10)
unfolding run step take_number next_serial register_from register_request write_from stages_after
    Session.step request heart_round send_keepalive send_next recv_round received recv decipher
    calls_of noted_all noted settle insert remove lookup dispatch respond push_to
written = refl

sent_answered_example :
    (dispatch all_open
      (message 3004 2 (5 ∷ []))
      (run aes encode_request turns (idle client)).0.client.dispatcher).1
    ≡ complete 10 (message 3004 2 (5 ∷ [])) ∷ []
sent_answered_example =
    sent_answered aes encode_request turns client 10 all_open (message 3004 2 (5 ∷ [])) refl
      (omega arith) written
