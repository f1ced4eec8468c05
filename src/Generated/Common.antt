-- ===== src/Generated/Common.antt =====
-- crates/futu/src/generated: the messages that several requests share.
use nautilus_futu.Prelude.{ℕ, List, Option, none, some, []}
use nautilus_futu.Prelude.Words.{ℤ}
use nautilus_futu.Prelude.Text.{Text}

-- common.rs
pub record PacketId : Type 0 where
  pub conn_id : ℕ
  pub serial_no : ℕ

-- trd_common.rs
pub record TrdHeader : Type 0 where
  pub trd_env : ℤ
  pub acc_id : ℕ
  pub trd_market : ℤ

-- trd_common.rs
pub record TrdFilterConditions : Type 0 where
  pub code_list : List Text
  pub id_list : List ℕ
  pub begin_time : Option Text
  pub end_time : Option Text
  pub order_id_ex_list : List Text
  pub filter_market : Option ℤ

-- qot_common.rs
pub record Security : Type 0 where
  pub market : ℤ
  pub code : Text

-- The shape of every `Response`: `S` is its `S2c`.
pub record Response (S : Type 0) : Type 0 where
  pub ret_type : ℤ
  pub ret_msg : Option Text
  pub err_code : Option ℤ
  pub s2c : Option S

-- `|(market, code)| Security { market, code }`
abbrev pub to_security : ℤ × Text → Security
to_security (market, code) = record { market = market; code = code }

-- `filter.unwrap_or_default()`
abbrev pub filter_or_default : Option TrdFilterConditions → TrdFilterConditions
filter_or_default (some filter) = filter
filter_or_default none = record {
  code_list = [];
  id_list = [];
  begin_time = none;
  end_time = none;
  order_id_ex_list = [];
  filter_market = none;
}
