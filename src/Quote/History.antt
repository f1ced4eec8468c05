-- ===== src/Quote/History.antt =====
-- crates/futu/src/quote/history.rs
use nautilus_futu.Prelude.{ℕ, Option, Result, none}
use nautilus_futu.Prelude.Words.{ℤ}
use nautilus_futu.Prelude.Text.{Text}
use nautilus_futu.Generated.Quote.{QotGetKlC2s, QotGetHistoryKlC2s}
use nautilus_futu.Generated.Common.{Response}
use nautilus_futu.Request.{Requester, Wire, exchange}
use nautilus_futu.Quote.Subscribe.{QuoteError, quote_errors}

abbrev pub proto_qot_get_kl : ℕ
proto_qot_get_kl = 3006

abbrev pub proto_qot_get_history_kl : ℕ
proto_qot_get_history_kl = 3103

module _ {σ : Type 0} (t : Requester σ) where
  unfoldable pub get_kl :
      {S : Type 0}
      → Wire QotGetKlC2s S
      → ℤ
      → Text
      → ℤ
      → ℤ
      → ℤ
      → σ
      → Result QuoteError (Response S) × σ
  get_kl w market code rehab_type kl_type req_count st =
      exchange t quote_errors w proto_qot_get_kl
        (record {
          rehab_type = rehab_type;
          kl_type = kl_type;
          security = record { market = market; code = code };
          req_num = req_count;
        })
        st

  unfoldable pub get_history_kl :
      {S : Type 0}
      → Wire QotGetHistoryKlC2s S
      → ℤ
      → Text
      → ℤ
      → ℤ
      → Text
      → Text
      → Option ℤ
      → σ
      → Result QuoteError (Response S) × σ
  get_history_kl w market code rehab_type kl_type begin_time end_time max_count st =
      exchange t quote_errors w proto_qot_get_history_kl
        (record {
          rehab_type = rehab_type;
          kl_type = kl_type;
          security = record { market = market; code = code };
          begin_time = begin_time;
          end_time = end_time;
          max_ack_kl_num = max_count;
          need_kl_fields_flag = none;
          next_req_key = none;
        })
        st
