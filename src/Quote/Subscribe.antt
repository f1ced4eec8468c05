-- ===== src/Quote/Subscribe.antt =====
-- crates/futu/src/quote/subscribe.rs
use nautilus_futu.Prelude.{ℕ, List, Bool, Result, true, none, some, map, []}
use nautilus_futu.Prelude.Words.{ℤ}
use nautilus_futu.Prelude.Text.{Text}
use nautilus_futu.Generated.Quote.{QotSubC2s, QotRegQotPushC2s}
use nautilus_futu.Generated.Common.{to_security}
use nautilus_futu.Request.{Requester, Wire, Errors, exchange, discard}
use nautilus_futu.Client.Connection.{ConnectionError}

pub data QuoteError : Type 0 where
  connection : ConnectionError → QuoteError
  decode : Text → QuoteError
  server : ℤ → Text → QuoteError

abbrev pub quote_errors : Errors QuoteError
quote_errors = record { connection = connection; decode = decode; server = server }

abbrev pub proto_qot_sub : ℕ
proto_qot_sub = 3001

abbrev pub proto_qot_reg_push : ℕ
proto_qot_reg_push = 3002

module _ {σ : Type 0} (t : Requester σ) where
  unfoldable pub subscribe :
      {S : Type 0}
      → Wire QotSubC2s S
      → List (ℤ × Text)
      → List ℤ
      → Bool
      → σ
      → Result QuoteError (Unit {0}) × σ
  subscribe w securities sub_types is_sub st = discard (
      exchange t quote_errors w proto_qot_sub
        (record {
          security_list = map to_security securities;
          sub_type_list = sub_types;
          is_sub_or_un_sub = is_sub;
          is_reg_or_un_reg_push = some true;
          reg_push_rehab_type_list = [];
          is_first_push = none;
          is_unsub_all = none;
          is_sub_order_book_detail = none;
          extended_time = none;
          session = none;
        })
        st)

  unfoldable pub reg_push :
      {S : Type 0}
      → Wire QotRegQotPushC2s S
      → List (ℤ × Text)
      → List ℤ
      → Bool
      → σ
      → Result QuoteError (Unit {0}) × σ
  reg_push w securities sub_types is_reg st = discard (
      exchange t quote_errors w proto_qot_reg_push
        (record {
          security_list = map to_security securities;
          sub_type_list = sub_types;
          rehab_type_list = [];
          is_reg_or_un_reg = is_reg;
          is_first_push = none;
        })
        st)
