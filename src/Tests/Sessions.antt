-- ===== src/Tests/Sessions.antt =====
-- Handshakes and sessions of a client at concrete inputs.
use nautilus_futu.Prelude.{
  arith, map, ◌+◌, ◌%◌, ◌≡◌, refl, List, [], ◌∷◌, true, none, some, ok, err,
}
use nautilus_futu.Prelude.Words.{pos, u32_mod}
use nautilus_futu.Prelude.Text.{ascii}
use nautilus_futu.Prelude.Maps.{lookup, count}
use nautilus_futu.Protocol.Codec.{FutuMessage}
use nautilus_futu.Client.Connection.{
  outgoing, disconnected, send, recv, decipher, send_next, send_with_serial, next_serial,
  set_cipher, set_conn_id,
}
use nautilus_futu.Client.Dispatcher
use nautilus_futu.Client.Dispatcher.Routing.{listeners}
use nautilus_futu.Client.Dispatcher.{
  Dispatcher, complete, deliver, retain_open, register_request, register_push, dispatch, respond,
}
use nautilus_futu.Client.Dispatcher.Settle.{settled, waiting}
use nautilus_futu.Client.Keepalive.{beating}
use nautilus_futu.Client.Init.{
  from_s2c, connection, init_connect, with_sent, with_message, with_response, with_s2c, accept,
  set_key, init_request,
}
use nautilus_futu.Client.Init.Handshake.{Accepted, init_connect-ok, init_connect-err}
use nautilus_futu.Client.Session.{
  FutuClient, new_client, Event, asks, disconnects, listens, yields, beats, init, started,
  init_with, request, step, run, subscribe_push, heart_round,
}
use nautilus_futu.Client.Session.Answer.{later, request_answered, push_delivered}
use nautilus_futu.Client.Session.Calls
use nautilus_futu.Client.Session.Calls.{view, trace, calls_of, run-refines, run_conserves_requests}
use nautilus_futu.Client.Session.Ends.{effects_through, asked-settled}
use nautilus_futu.Client.Session.Late.{afterwards, late_request_waits, request-send_failed}
use nautilus_futu.Client.Session.Downgrade.{run-downgraded}
use nautilus_futu.Client.Session.Life.{Ended, three_failures, step-Ended, heartbeats_end}
use nautilus_futu.Tests.Samples.{
  aes, cipher, ciphered, plain, s2c, codec, encode_request, client, message, all_open,
}

-- The server's answer to the handshake: success.
abbrev accepted : FutuMessage
accepted = message 1001 1 (0 ∷ [])

handshake :
    (init_connect codec aes none (some (ok accepted)) plain).0 ≡ (ok (from_s2c s2c), ciphered)
unfolding init_connect with_sent with_message with_response with_s2c accept set_key set_cipher
    set_conn_id send_next send_with_serial next_serial recv decipher init_request
handshake = refl

init_connect-ok_example : Accepted codec none (some (ok accepted)) plain (from_s2c s2c) ciphered
init_connect-ok_example =
    init_connect-ok codec aes none (some (ok accepted)) plain ciphered (from_s2c s2c) refl handshake

no_handshake :
    (init_connect codec aes none none plain).0
    ≡ (err (connection disconnected), record plain { serial_counter = 2 })
unfolding init_connect with_sent with_message send_next send_with_serial next_serial recv
    init_request
no_handshake = refl

init_connect-err_example :
    record plain { serial_counter = 2 }
    ≡ record plain { serial_counter = (plain.serial_counter + 1) % u32_mod }
init_connect-err_example =
    init_connect-err codec aes none none plain (record plain { serial_counter = 2 })
      (connection disconnected) refl no_handshake

running : FutuClient
running = record (new_client ciphered) {
  heart = some (beating 0);
  receiving = true;
  init_response = some (from_s2c s2c);
}

initialised :
    init codec aes none (some (ok accepted)) (new_client plain) ≡ (ok (from_s2c s2c), running)
unfolding running init init_with started init_connect with_sent with_message with_response with_s2c
    accept set_key set_cipher set_conn_id send_next send_with_serial next_serial recv decipher
    init_request
initialised = refl

-- A request, a push that nobody listens to, a failed request, and the end of the stream.
abbrev events : List Event
events =
    asks 3004 (1 ∷ []) 10 none
    ∷ yields all_open (some (ok (message 3007 0 [])))
    ∷ asks 3004 (2 ∷ []) 11 (some (ascii "broken pipe"))
    ∷ yields all_open none
    ∷ []

run-refines_example :
    view (run aes encode_request events client)
    ≡ Dispatcher.run (trace aes encode_request events client) client.dispatcher
run-refines_example = run-refines aes encode_request events client

run_conserves_requests_example :
    count 10 (Calls.asked events)
    ≡ count 10 (settled (run aes encode_request events client).1)
      + count 10 (waiting (run aes encode_request events client).0.dispatcher)
run_conserves_requests_example = run_conserves_requests aes encode_request events client 10 refl

-- The client listens for pushes, and a heartbeat is sent, before the answer comes.
abbrev meanwhile : List Event
meanwhile = listens 3007 70 ∷ beats (pos 60) none ∷ []

request_answered_example :
    (step aes encode_request
      (yields all_open (some (ok (message 3004 2 []))))
      (later aes encode_request 3004 (1 ∷ []) 10 none meanwhile client)).1
    ≡ complete 10 (message 3004 2 []) ∷ []
request_answered_example =
    request_answered aes encode_request 3004 (1 ∷ []) 10 none meanwhile client all_open
      (some (ok (message 3004 2 []))) (message 3004 2 []) (unfold trace calls_of in tt)
      (unfold run step request subscribe_push heart_round next_serial in refl)
      (unfold run step request subscribe_push heart_round next_serial recv decipher in refl) refl

-- Two requests wait when the stream ends.
abbrev waits : FutuClient
waits = record client {
  dispatcher = record { pending = (1, 10) ∷ (2, 20) ∷ []; push_handlers = [] };
}

step-Ended_example : Ended waits (step aes encode_request (yields all_open none) waits)
step-Ended_example =
    step-Ended aes encode_request (yields all_open none) waits
      (refl, (disconnected, (unfold recv in refl)))

abbrev beats_now : FutuClient
beats_now = record waits { heart = some (beating 0) }

heartbeats_end_example :
    Ended beats_now
      (run aes encode_request (three_failures (pos 1) (pos 2) (pos 3) [] [] []) beats_now)
heartbeats_end_example =
    heartbeats_end aes encode_request beats_now (pos 1) (pos 2) (pos 3) [] [] [] refl refl

-- The receive loop is over.
abbrev ended : FutuClient
ended = new_client ciphered

late_request_waits_example :
    ((request aes 3004 (1 ∷ []) 10 none ended).result ≡ ok tt)
    × (lookup 2
          (afterwards aes encode_request 3004
            (1 ∷ [])
            10
            (yields all_open (some (ok (message 3004 2 []))) ∷ [])
            ended).0.dispatcher.pending
        ≡ some 10)
    × ((afterwards aes encode_request 3004
          (1 ∷ [])
          10
          (yields all_open (some (ok (message 3004 2 []))) ∷ [])
          ended).1
        ≡ [])
late_request_waits_example =
    late_request_waits aes encode_request 3004 (1 ∷ []) 10
      (yields all_open (some (ok (message 3004 2 []))) ∷ []) ended refl tt

request-send_failed_example :
    ((request aes 3004 (1 ∷ []) 10 (some (ascii "broken pipe")) client).result
      ≡ err (send (ascii "broken pipe")))
    × (lookup 2
          (request aes 3004
            (1 ∷ [])
            10
            (some (ascii "broken pipe"))
            client).client.dispatcher.pending
        ≡ some 10)
request-send_failed_example = request-send_failed aes 3004 (1 ∷ []) 10 (ascii "broken pipe") client

asked-settled_example :
    count 10 (Calls.asked events)
    ≡ count 10 (settled (effects_through aes encode_request events disconnects client))
asked-settled_example = asked-settled aes encode_request events disconnects client 10 refl tt

push_delivered_example :
    (step aes encode_request
      (yields all_open (some (ok (message 3007 0 []))))
      (run aes encode_request meanwhile client).0).1
    ≡ map
        (λ tx. deliver tx (message 3007 0 []))
        (retain_open all_open (listeners 3007 (trace aes encode_request meanwhile client)))
push_delivered_example =
    push_delivered aes encode_request meanwhile client all_open (some (ok (message 3007 0 [])))
      (message 3007 0 []) refl (unfold trace calls_of in tt)
      (unfold run step subscribe_push heart_round in refl)
      (unfold run step subscribe_push heart_round recv decipher in refl)
      (unfold run step subscribe_push heart_round register_push lookup in refl)

-- Two bytes are no block.
run-downgraded_example :
    ((outgoing aes
        (run aes encode_request
          (yields all_open (some (ok (message 3001 1 (1 ∷ 2 ∷ [])))) ∷ events)
          running).0.conn
        3001
        (5 ∷ [])
        9).body
      ≡ 5 ∷ [])
    × ((recv aes
          (some (ok (message 3001 2 (6 ∷ []))))
          (run aes encode_request
            (yields all_open (some (ok (message 3001 1 (1 ∷ 2 ∷ [])))) ∷ events)
            running).0.conn).0
        ≡ ok (message 3001 2 (6 ∷ [])))
unfolding running
run-downgraded_example =
    run-downgraded aes encode_request all_open cipher (message 3001 1 (1 ∷ 2 ∷ [])) events running
      3001 9 (5 ∷ []) (message 3001 2 (6 ∷ [])) refl refl (λ e. cc) (λ e. omega arith)
