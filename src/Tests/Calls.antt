-- ===== src/Tests/Calls.antt =====
-- The serial numbers and the heartbeat at concrete inputs.
use nautilus_futu.Prelude.{◌+◌, ◌≡◌, ◌%◌, ◌↔◌, List, [], ◌∷◌, Result, ok, err, arith}
use nautilus_futu.Prelude.Words.{u32_mod}
use nautilus_futu.Client.Connection.{ConnectionError, disconnected}
use nautilus_futu.Client.Connection.Serial.{serial_at, serial_at-eq_iff}
use nautilus_futu.Client.Keepalive.{stopped, start, beats}
use nautilus_futu.Client.Keepalive.Failures.{ThreeInARow, beats-stopped_iff}
use nautilus_futu.Tests.Samples.{plain}

serial_at-eq_iff_example : (serial_at 2 plain ≡ serial_at (2 + 5) plain) ↔ (5 % u32_mod ≡ 0)
serial_at-eq_iff_example = serial_at-eq_iff plain 2 5 (omega arith)

abbrev failure : Result ConnectionError (Unit {0})
failure = err disconnected

abbrev some_beats : List (Result ConnectionError (Unit {0}))
some_beats = failure ∷ failure ∷ ok tt ∷ failure ∷ failure ∷ failure ∷ []

beats-stopped_iff_example : (beats start some_beats ≡ stopped) ↔ ThreeInARow some_beats
beats-stopped_iff_example = beats-stopped_iff some_beats
