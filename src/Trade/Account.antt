-- ===== src/Trade/Account.antt =====
-- crates/futu/src/trade/account.rs
use nautilus_futu.Prelude.{ℕ, Bool, Option, Result, some}
use nautilus_futu.Prelude.Words.{ℤ}
use nautilus_futu.Prelude.Text.{Text}
use nautilus_futu.Generated.Trade.{TrdGetAccListC2s, TrdUnlockTradeC2s}
use nautilus_futu.Generated.Common.{Response}
use nautilus_futu.Request.{Requester, Wire, Errors, exchange, discard}
use nautilus_futu.Client.Connection.{ConnectionError}

pub data TradeError : Type 0 where
  connection : ConnectionError → TradeError
  decode : Text → TradeError
  server : ℤ → Text → TradeError

abbrev pub trade_errors : Errors TradeError
trade_errors = record { connection = connection; decode = decode; server = server }

abbrev pub proto_trd_get_acc_list : ℕ
proto_trd_get_acc_list = 2001

abbrev pub proto_trd_unlock_trade : ℕ
proto_trd_unlock_trade = 2005

module _ {σ : Type 0} (t : Requester σ) where
  unfoldable pub get_acc_list :
      {S : Type 0}
      → Wire TrdGetAccListC2s S
      → ℕ
      → Option ℤ
      → Option Bool
      → σ
      → Result TradeError (Response S) × σ
  get_acc_list w user_id trd_category need_general_sec_account st =
      exchange t trade_errors w proto_trd_get_acc_list
        (record {
          user_id = user_id;
          trd_category = trd_category;
          need_general_sec_account = need_general_sec_account;
        })
        st

  unfoldable pub unlock_trade :
      {S : Type 0}
      → Wire TrdUnlockTradeC2s S
      → Bool
      → Text
      → Option ℤ
      → σ
      → Result TradeError (Unit {0}) × σ
  unlock_trade w unlock pwd_md5 security_firm st = discard (
      exchange t trade_errors w proto_trd_unlock_trade
        (record { unlock = unlock; pwd_md5 = some pwd_md5; security_firm = security_firm }) st)
