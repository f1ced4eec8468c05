-- ===== src/Python/Methods/Account.antt =====
-- crates/futu/src/python/client.rs: the methods of `PyFutuClient` on the accounts of trade, and the
-- global state, and the dicts that they make. `F` is the type of `f64`.
use nautilus_futu.Prelude.{ℕ, Bool, Option, List, Result, map, none, some, [], ◌∷◌}
use nautilus_futu.Prelude.Words.{ℤ}
use nautilus_futu.Prelude.Text.{Text, ascii}
use nautilus_futu.Generated.Quote.{GetGlobalStateC2s}
use nautilus_futu.Generated.Trade.{
  TrdGetAccListC2s, TrdUnlockTradeC2s, TrdGetPositionListC2s, TrdGetFundsC2s, TrdGetMaxTrdQtysC2s,
  TrdGetMarginRatioC2s, TrdSubAccPushC2s,
}
use nautilus_futu.Generated.Answer.Account.{TrdAcc, Position}
use nautilus_futu.Generated.Answer.Trade.{
  TrdGetAccListS2c, TrdGetPositionListS2c, TrdGetFundsS2c, TrdGetMaxTrdQtysS2c, MarginRatioInfo,
  TrdGetMarginRatioS2c,
}
use nautilus_futu.Generated.Answer.Events.{GetGlobalStateS2c}
use nautilus_futu.Generated.Common.{Response}
use nautilus_futu.Request.{Requester, Wire}
use nautilus_futu.Client.Init.{InitConnectResponse}
use nautilus_futu.GlobalState
use nautilus_futu.Trade.Account
use nautilus_futu.Trade.Push
use nautilus_futu.Trade.Query
use nautilus_futu.Python.{PyError, trade_failed, state_failed}
use nautilus_futu.Python.Methods.{call, user_id}
use nautilus_futu.Python.Object.{Py, dict_of, list_of, opt, uint, when, int, float, bool, str}

module _ {F : Type 0} where
  abbrev pub get_acc_list_item : TrdAcc → Py F
  get_acc_list_item acc = dict_of (
      ("acc_id", uint acc.acc_id)
      ∷ ("trd_env", int acc.trd_env)
      ∷ ("trd_market_auth_list", list_of int acc.trd_market_auth_list)
      ∷ ("acc_type", opt int acc.acc_type)
      ∷ ("card_num", opt str acc.card_num)
      ∷ ("security_firm", opt int acc.security_firm)
      ∷ ("sim_acc_type", opt int acc.sim_acc_type)
      ∷ ("uni_card_num", opt str acc.uni_card_num)
      ∷ ("acc_status", opt int acc.acc_status)
      ∷ [])

  abbrev pub get_position_list_item : Position F → Py F
  get_position_list_item position = dict_of (
      ("position_id", uint position.position_id)
      ∷ ("position_side", int position.position_side)
      ∷ ("code", str position.code)
      ∷ ("name", str position.name)
      ∷ ("qty", float position.qty)
      ∷ ("can_sell_qty", float position.can_sell_qty)
      ∷ ("price", float position.price)
      ∷ ("cost_price", opt float position.cost_price)
      ∷ ("val", float position.val)
      ∷ ("pl_val", float position.pl_val)
      ∷ ("pl_ratio", opt float position.pl_ratio)
      ∷ ("sec_market", opt int position.sec_market)
      ∷ ("unrealized_pl", opt float position.unrealized_pl)
      ∷ ("realized_pl", opt float position.realized_pl)
      ∷ ("currency", opt int position.currency)
      ∷ [])

  abbrev pub get_funds_dict : Response (TrdGetFundsS2c F) → Py F
  get_funds_dict response = dict_of (
      when response.s2c (λ s2c. when s2c.funds (λ funds.
        ("power", float funds.power)
        ∷ ("total_assets", float funds.total_assets)
        ∷ ("cash", float funds.cash)
        ∷ ("market_val", float funds.market_val)
        ∷ ("frozen_cash", float funds.frozen_cash)
        ∷ ("debt_cash", float funds.debt_cash)
        ∷ ("avl_withdrawal_cash", float funds.avl_withdrawal_cash)
        ∷ ("currency", opt int funds.currency)
        ∷ ("available_funds", opt float funds.available_funds)
        ∷ ("unrealized_pl", opt float funds.unrealized_pl)
        ∷ ("realized_pl", opt float funds.realized_pl)
        ∷ ("risk_level", opt int funds.risk_level)
        ∷ ("initial_margin", opt float funds.initial_margin)
        ∷ ("maintenance_margin", opt float funds.maintenance_margin)
        ∷ ("max_withdrawal", opt float funds.max_withdrawal)
        ∷ [])))

  abbrev get_max_trd_qtys_dict : Response (TrdGetMaxTrdQtysS2c F) → Py F
  get_max_trd_qtys_dict response = dict_of (
      when response.s2c (λ s2c. when s2c.max_trd_qtys (λ qtys.
        ("max_cash_buy", float qtys.max_cash_buy)
        ∷ ("max_cash_and_margin_buy", opt float qtys.max_cash_and_margin_buy)
        ∷ ("max_position_sell", float qtys.max_position_sell)
        ∷ ("max_sell_short", opt float qtys.max_sell_short)
        ∷ ("max_buy_back", opt float qtys.max_buy_back)
        ∷ ("long_required_im", opt float qtys.long_required_im)
        ∷ ("short_required_im", opt float qtys.short_required_im)
        ∷ [])))

  abbrev get_margin_ratio_item : MarginRatioInfo F → Py F
  get_margin_ratio_item info = dict_of (
      ("market", int info.security.market)
      ∷ ("code", str info.security.code)
      ∷ ("is_long_permit", opt bool info.is_long_permit)
      ∷ ("is_short_permit", opt bool info.is_short_permit)
      ∷ ("short_pool_remain", opt float info.short_pool_remain)
      ∷ ("short_fee_rate", opt float info.short_fee_rate)
      ∷ ("im_long_ratio", opt float info.im_long_ratio)
      ∷ ("im_short_ratio", opt float info.im_short_ratio)
      ∷ ("mm_long_ratio", opt float info.mm_long_ratio)
      ∷ ("mm_short_ratio", opt float info.mm_short_ratio)
      ∷ [])

  abbrev pub get_global_state_dict : Response (GetGlobalStateS2c F) → Py F
  get_global_state_dict response = dict_of (
      when response.s2c (λ s2c.
        ("market_hk", int s2c.market_hk)
        ∷ ("market_us", int s2c.market_us)
        ∷ ("market_sh", int s2c.market_sh)
        ∷ ("market_sz", int s2c.market_sz)
        ∷ ("market_hk_future", int s2c.market_hk_future)
        ∷ ("market_us_future", opt int s2c.market_us_future)
        ∷ ("market_sg_future", opt int s2c.market_sg_future)
        ∷ ("market_jp_future", opt int s2c.market_jp_future)
        ∷ ("qot_logined", bool s2c.qot_logined)
        ∷ ("trd_logined", bool s2c.trd_logined)
        ∷ ("server_ver", int s2c.server_ver)
        ∷ ("server_build_no", int s2c.server_build_no)
        ∷ ("time", int s2c.time)
        ∷ ("local_time", opt float s2c.local_time)
        ∷ []))

module _ {σ : Type 0} (t : Requester σ) where
  unfoldable pub get_acc_list :
      {F : Type 0}
      → Wire TrdGetAccListC2s TrdGetAccListS2c
      → (σ → Option InitConnectResponse)
      → Option ℤ
      → Option Bool
      → Option σ
      → Result PyError (List (Py F)) × Option σ
  unfolding call
  get_acc_list w init_response trd_category need_general_sec_account client =
      call (trade_failed (ascii "Get acc list failed"))
        (λ st.
          Account.get_acc_list t w (user_id init_response st) trd_category need_general_sec_account
            st)
        (λ response. when response.s2c (λ s2c. map get_acc_list_item s2c.acc_list)) client

  unfoldable pub unlock_trade :
      {S : Type 0}
      → Wire TrdUnlockTradeC2s S
      → Bool
      → Text
      → ℤ
      → Option σ
      → Result PyError (Unit {0}) × Option σ
  unfolding call
  unlock_trade w unlock pwd_md5 security_firm client =
      call (trade_failed (ascii "Unlock trade failed"))
        (Account.unlock_trade t w unlock pwd_md5 (some security_firm)) (λ u. tt) client

  unfoldable pub get_position_list :
      {F : Type 0}
      → Wire (TrdGetPositionListC2s F) (TrdGetPositionListS2c F)
      → ℤ
      → ℕ
      → ℤ
      → Option σ
      → Result PyError (List (Py F)) × Option σ
  unfolding call
  get_position_list w trd_env acc_id trd_market client =
      call (trade_failed (ascii "Get position list failed"))
        (Query.get_position_list t w trd_env acc_id trd_market none)
        (λ response. when response.s2c (λ s2c. map get_position_list_item s2c.position_list)) client

  unfoldable pub get_funds :
      {F : Type 0}
      → Wire TrdGetFundsC2s (TrdGetFundsS2c F)
      → ℤ
      → ℕ
      → ℤ
      → Option ℤ
      → Option σ
      → Result PyError (Py F) × Option σ
  unfolding call
  get_funds w trd_env acc_id trd_market currency client =
      call (trade_failed (ascii "Get funds failed"))
        (Query.get_funds t w trd_env acc_id trd_market currency) get_funds_dict client

  unfoldable pub sub_acc_push :
      {S : Type 0}
      → Wire TrdSubAccPushC2s S
      → List ℕ
      → Option σ
      → Result PyError (Unit {0}) × Option σ
  unfolding call
  sub_acc_push w acc_ids client =
      call (trade_failed (ascii "Sub acc push failed")) (Push.sub_acc_push t w acc_ids) (λ u. tt)
        client

  unfoldable pub get_max_trd_qtys :
      {F : Type 0}
      → Wire (TrdGetMaxTrdQtysC2s F) (TrdGetMaxTrdQtysS2c F)
      → ℤ
      → ℕ
      → ℤ
      → ℤ
      → Text
      → F
      → Option ℤ
      → Option σ
      → Result PyError (Py F) × Option σ
  unfolding call
  get_max_trd_qtys w trd_env acc_id trd_market order_type code price sec_market client =
      call (trade_failed (ascii "Get max trd qtys failed"))
        (Query.get_max_trd_qtys t w trd_env acc_id trd_market order_type code price sec_market)
        get_max_trd_qtys_dict client

  unfoldable pub get_margin_ratio :
      {F : Type 0}
      → Wire TrdGetMarginRatioC2s (TrdGetMarginRatioS2c F)
      → ℤ
      → ℕ
      → ℤ
      → List (ℤ × Text)
      → Option σ
      → Result PyError (List (Py F)) × Option σ
  unfolding call
  get_margin_ratio w trd_env acc_id trd_market securities client =
      call (trade_failed (ascii "Get margin ratio failed"))
        (Query.get_margin_ratio t w trd_env acc_id trd_market securities)
        (λ response.
          when response.s2c (λ s2c. map get_margin_ratio_item s2c.margin_ratio_info_list))
        client

  unfoldable pub get_global_state :
      {F : Type 0}
      → Wire GetGlobalStateC2s (GetGlobalStateS2c F)
      → (σ → Option InitConnectResponse)
      → Option σ
      → Result PyError (Py F) × Option σ
  unfolding call
  get_global_state w init_response client =
      call (state_failed (ascii "Get global state failed"))
        (λ st. GlobalState.get_global_state t w (user_id init_response st) st) get_global_state_dict
        client
