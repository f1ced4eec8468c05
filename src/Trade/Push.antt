-- ===== src/Trade/Push.antt =====
-- crates/futu/src/trade/push.rs
use nautilus_futu.Prelude.{ℕ, List, Result}
use nautilus_futu.Generated.Trade.{TrdSubAccPushC2s}
use nautilus_futu.Request.{Requester, Wire, exchange, discard}
use nautilus_futu.Trade.Account.{TradeError, trade_errors}

abbrev pub proto_trd_sub_acc_push : ℕ
proto_trd_sub_acc_push = 2008

module _ {σ : Type 0} (t : Requester σ) where
  unfoldable pub sub_acc_push :
      {S : Type 0} → Wire TrdSubAccPushC2s S → List ℕ → σ → Result TradeError (Unit {0}) × σ
  sub_acc_push w acc_ids st =
      discard
        (exchange t trade_errors w proto_trd_sub_acc_push (record { acc_id_list = acc_ids }) st)
