-- ===== src/GlobalState.antt =====
-- `get_global_state` of crates/futu/src/client/init.rs.
use nautilus_futu.Prelude.{ℕ, Result}
use nautilus_futu.Generated.Quote.{GetGlobalStateC2s}
use nautilus_futu.Generated.Common.{Response}
use nautilus_futu.Request.{Requester, Wire, Errors, exchange}
use nautilus_futu.Client.Init.{InitError, connection, decode, server_error}

abbrev pub init_errors : Errors InitError
init_errors = record { connection = connection; decode = decode; server = server_error }

abbrev pub proto_id_get_global_state : ℕ
proto_id_get_global_state = 1002

module _ {σ : Type 0} (t : Requester σ) where
  unfoldable pub get_global_state :
      {S : Type 0} → Wire GetGlobalStateC2s S → ℕ → σ → Result InitError (Response S) × σ
  get_global_state w user_id st =
      exchange t init_errors w proto_id_get_global_state (record { user_id = user_id }) st
