-- ===== src/Request.antt =====
-- How the functions under crates/futu/src/quote and crates/futu/src/trade use the client: they
-- encode a message, call `client.request`, decode the answer and look at its `ret_type`. This part
-- is the same in all of them, up to the error type, and is written once here. What `prost` derives
-- for the messages, an encoder and a decoder, is a parameter of each function.
pub mod Outcome
pub mod Session
use nautilus_futu.Prelude.{ℕ, List, Option, Result, ok, err, if◌then◌else◌}
use nautilus_futu.Prelude.Words.{ℤ, is_zero}
use nautilus_futu.Prelude.Text.{Text}
use nautilus_futu.Protocol.Codec.{FutuMessage}
use nautilus_futu.Client.Connection.{ConnectionError}
use nautilus_futu.Client.Init.{unwrap_or_default}
use nautilus_futu.Generated.Common.{Response}

-- The client as these functions see it: `request`, and the connection's `next_serial` and
-- `conn_id`.
pub record Requester (σ : Type 0) : Type 0 where
  pub request : ℕ → List ℕ → σ → Result ConnectionError FutuMessage × σ
  pub next_serial : σ → ℕ × σ
  pub conn_id : σ → ℕ

-- `Request::encode_to_vec` of a message's `C2s`, and `Response::decode` with the text of its error.
pub record Wire (C S : Type 0) : Type 0 where
  pub encode_to_vec : C → List ℕ
  pub decode : List ℕ → Result Text (Response S)

-- The three ways to fail, as constructors of an error type.
pub record Errors (E : Type 0) : Type 0 where
  pub connection : ConnectionError → E
  pub decode : Text → E
  pub server : ℤ → Text → E

module _ {E S : Type 0} (errors : Errors E) where
  unfoldable pub checked : Result Text (Response S) → Result E (Response S)
  checked (err e) = err (errors.decode e)
  checked (ok r) =
      if is_zero r.ret_type
      then ok r
      else err (errors.server r.ret_type (unwrap_or_default r.ret_msg))

  unfoldable pub answered :
      (List ℕ → Result Text (Response S))
      → Result ConnectionError FutuMessage
      → Result E (Response S)
  unfolding checked
  answered decode (err e) = err (errors.connection e)
  answered decode (ok msg) = checked (decode msg.body)

unfoldable pub exchange :
    {σ E C S : Type 0} → Requester σ → Errors E → Wire C S → ℕ → C → σ → Result E (Response S) × σ
unfolding answered
exchange t errors w proto_id c2s st =
    let (reply, st') = t.request proto_id (w.encode_to_vec c2s) st in
    (answered errors w.decode reply, st')

abbrev pub forget : {E S : Type 0} → Result E S → Result E (Unit {0})
forget (ok r) = ok tt
forget (err e) = err e

-- The functions that return nothing on success.
abbrev pub discard : {E S σ : Type 0} → Result E S × σ → Result E (Unit {0}) × σ
discard (r, st) = (forget r, st)
