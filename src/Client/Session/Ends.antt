-- ===== src/Client/Session/Ends.antt =====
-- The requests of client/mod.rs when the receive loop ends.
use nautilus_futu.Prelude.{ℕ, ◌≡◌, ap, ◌∙◌, List, ◌++◌, arith}
use nautilus_futu.Prelude.Words.{ℤ}
use nautilus_futu.Prelude.Maps.{count, count-append}
use nautilus_futu.Protocol.Encryption.{Aes128}
use nautilus_futu.Client.Dispatcher
use nautilus_futu.Client.Dispatcher.{Effect}
use nautilus_futu.Client.Dispatcher.Settle.{settled, waiting, settled-append, settled-cancel}
use nautilus_futu.Client.Session.{FutuClient, Event, step, run}
use nautilus_futu.Client.Session.Calls.{asked, run_conserves_requests}
use nautilus_futu.Client.Session.Life.{Fatal, step-Ended}

module _ (aes : Aes128) (encode_request : ℤ → List ℕ) where
  -- The client after the events `es`, and the effects of a session through the event `e`.
  abbrev pub before : List Event → FutuClient → FutuClient
  before es c = (run aes encode_request es c).0

  abbrev pub effects_through : List Event → Event → FutuClient → List Effect
  effects_through es e c =
      (run aes encode_request es c).1 ++ (step aes encode_request e (before es c)).1

  -- When an event ends the receive loop in a session of a client whose dispatcher is new, as after
  -- `connect` and `init`, each request's channel has been settled exactly as often as it was
  -- opened: every request that was made has its response or was dropped, none twice, whatever
  -- happened before.
  pub asked-settled :
      (es : List Event) (e : Event) (c : FutuClient) (tx : ℕ)
      → c.dispatcher ≡ Dispatcher.init
      → Fatal aes e (before es c)
      → count tx (asked es) ≡ count tx (settled (effects_through es e c))
  asked-settled es e c tx new f =
      let (c', effects) = run aes encode_request es c in
      let last = (step aes encode_request e c').1 in
      let dropped : settled last ≡ waiting c'.dispatcher =
        ap settled (step-Ended aes encode_request e c' f).2
        ∙ settled-cancel (waiting c'.dispatcher) in
      omega (
        arith,
        run_conserves_requests aes encode_request es c tx new,
        ap (count tx) dropped,
        ap (count tx) (settled-append effects last),
        count-append tx (settled effects) (settled last),
      )
