-- ===== src/Python/Methods.antt =====
-- crates/futu/src/python/client.rs: what the methods of `PyFutuClient` that call a request function
-- share. `σ` is the state of the client, as the request functions see it.
pub mod Account
pub mod Orders
pub mod Quotes
pub mod Live
pub mod Filter
pub mod Securities
pub mod Derivatives
pub mod Events
pub mod Outcome
pub mod Listing
pub mod Types
use nautilus_futu.Prelude.{ℕ, Option, none, some, Result, ok, err}
use nautilus_futu.Client.Init.{InitConnectResponse}
use nautilus_futu.Python.{PyError, not_connected}

abbrev pub converted : {E A B : Type 0} → (E → PyError) → (A → B) → Result E A → Result PyError B
converted failed convert (ok a) = ok (convert a)
converted failed convert (err e) = err (failed e)

-- `get_client`, the request, and what becomes of its result.
unfoldable pub call :
    {σ E A B : Type 0}
    → (E → PyError)
    → (σ → Result E A × σ)
    → (A → B)
    → Option σ
    → Result PyError B × Option σ
call failed request convert none = (err not_connected, none)
call failed request convert (some st) =
    let (result, st') = request st in (converted failed convert result, some st')

abbrev login_of : Option InitConnectResponse → ℕ
login_of none = 0
login_of (some r) = r.login_user_id

-- `client.init_response().map(|r| r.login_user_id).unwrap_or(0)`
abbrev pub user_id : {σ : Type 0} → (σ → Option InitConnectResponse) → σ → ℕ
user_id init_response st = login_of (init_response st)
