-- ===== src/Python/Methods/Events.antt =====
-- crates/futu/src/python/client.rs: the methods of `PyFutuClient` on corporate events, capital and
-- trading days, and the dicts that they make. `F` is the type of `f64`.
use nautilus_futu.Prelude.{Option, List, Result, map, [], ◌∷◌, ◌++◌}
use nautilus_futu.Prelude.Words.{ℤ}
use nautilus_futu.Prelude.Text.{Text, ascii}
use nautilus_futu.Generated.Quote.{
  QotGetRehabC2s, QotGetSuspendC2s, QotGetCapitalFlowC2s, QotGetCapitalDistributionC2s,
  QotGetCodeChangeC2s, QotGetIpoListC2s, QotRequestTradeDateC2s,
}
use nautilus_futu.Generated.Answer.Market.{Rehab}
use nautilus_futu.Generated.Answer.Events.{
  SecurityRehab, QotGetRehabS2c, Suspend, SecuritySuspend, QotGetSuspendS2c, CapitalFlowItem,
  QotGetCapitalFlowS2c, QotGetCapitalDistributionS2c, CodeChangeInfo, QotGetCodeChangeS2c, IpoData,
  QotGetIpoListS2c, TradeDate, QotRequestTradeDateS2c,
}
use nautilus_futu.Generated.Common.{Response}
use nautilus_futu.Request.{Requester, Wire}
use nautilus_futu.Quote.Snapshot.Lists
use nautilus_futu.Quote.Snapshot.Reference
use nautilus_futu.Python.{PyError, quote_failed}
use nautilus_futu.Python.Methods.{call}
use nautilus_futu.Python.Object.{Py, dict_of, list_of, opt, when, unwrap_or, int, float, bool, str}

module _ {F : Type 0} where
  abbrev get_rehab_rehab_list : Rehab F → Py F
  get_rehab_rehab_list r = dict_of (
      ("time", str r.time)
      ∷ ("company_act_flag", int r.company_act_flag)
      ∷ ("fwd_factor_a", float r.fwd_factor_a)
      ∷ ("fwd_factor_b", float r.fwd_factor_b)
      ∷ ("bwd_factor_a", float r.bwd_factor_a)
      ∷ ("bwd_factor_b", float r.bwd_factor_b)
      ∷ ("split_base", opt int r.split_base)
      ∷ ("split_ert", opt int r.split_ert)
      ∷ ("join_base", opt int r.join_base)
      ∷ ("join_ert", opt int r.join_ert)
      ∷ [])

  abbrev get_rehab_item : SecurityRehab F → Py F
  get_rehab_item sec_rehab = dict_of (
      ("market", int sec_rehab.security.market)
      ∷ ("code", str sec_rehab.security.code)
      ∷ ("rehab_list", list_of get_rehab_rehab_list sec_rehab.rehab_list)
      ∷ [])

  abbrev get_suspend_suspend_list : Suspend F → Py F
  get_suspend_suspend_list s =
      dict_of (("time", str s.time) ∷ ("timestamp", opt float s.timestamp) ∷ [])

  abbrev get_suspend_item : SecuritySuspend F → Py F
  get_suspend_item sec_suspend = dict_of (
      ("market", int sec_suspend.security.market)
      ∷ ("code", str sec_suspend.security.code)
      ∷ ("suspend_list", list_of get_suspend_suspend_list sec_suspend.suspend_list)
      ∷ [])

  abbrev get_capital_flow_flow_list : CapitalFlowItem F → Py F
  get_capital_flow_flow_list item = dict_of (
      ("in_flow", float item.in_flow)
      ∷ ("time", opt str item.time)
      ∷ ("timestamp", opt float item.timestamp)
      ∷ ("main_in_flow", opt float item.main_in_flow)
      ∷ ("super_in_flow", opt float item.super_in_flow)
      ∷ ("big_in_flow", opt float item.big_in_flow)
      ∷ ("mid_in_flow", opt float item.mid_in_flow)
      ∷ ("sml_in_flow", opt float item.sml_in_flow)
      ∷ [])

  abbrev get_capital_flow_dict : Response (QotGetCapitalFlowS2c F) → Py F
  get_capital_flow_dict response = dict_of (
      when response.s2c (λ s2c.
        ("last_valid_time", opt str s2c.last_valid_time)
        ∷ ("last_valid_timestamp", opt float s2c.last_valid_timestamp)
        ∷ ("flow_item_list", list_of get_capital_flow_flow_list s2c.flow_item_list)
        ∷ []))

  abbrev get_capital_distribution_dict : Response (QotGetCapitalDistributionS2c F) → Py F
  get_capital_distribution_dict response = dict_of (
      when response.s2c (λ s2c.
        ("capital_in_big", float s2c.capital_in_big)
        ∷ ("capital_in_mid", float s2c.capital_in_mid)
        ∷ ("capital_in_small", float s2c.capital_in_small)
        ∷ ("capital_out_big", float s2c.capital_out_big)
        ∷ ("capital_out_mid", float s2c.capital_out_mid)
        ∷ ("capital_out_small", float s2c.capital_out_small)
        ∷ ("update_time", opt str s2c.update_time)
        ∷ ("update_timestamp", opt float s2c.update_timestamp)
        ∷ ("capital_in_super", opt float s2c.capital_in_super)
        ∷ ("capital_out_super", opt float s2c.capital_out_super)
        ∷ []))

  abbrev get_code_change_item : CodeChangeInfo F → Py F
  get_code_change_item info = dict_of (
      ("type", int info.type)
      ∷ ("market", int info.security.market)
      ∷ ("code", str info.security.code)
      ∷ ("related_market", int info.related_security.market)
      ∷ ("related_code", str info.related_security.code)
      ∷ ("public_time", opt str info.public_time)
      ∷ ("public_timestamp", opt float info.public_timestamp)
      ∷ ("effective_time", opt str info.effective_time)
      ∷ ("effective_timestamp", opt float info.effective_timestamp)
      ∷ ("end_time", opt str info.end_time)
      ∷ ("end_timestamp", opt float info.end_timestamp)
      ∷ [])

  abbrev pub get_ipo_list_item : IpoData F → Py F
  get_ipo_list_item ipo = dict_of (
      (("market", int ipo.basic.security.market)
        ∷ ("code", str ipo.basic.security.code)
        ∷ ("name", str ipo.basic.name)
        ∷ ("list_time", opt str ipo.basic.list_time)
        ∷ ("list_timestamp", opt float ipo.basic.list_timestamp)
        ∷ [])
      ++ when ipo.hk_ex_data (λ hk.
        ("ipo_price_min", float hk.ipo_price_min)
        ∷ ("ipo_price_max", float hk.ipo_price_max)
        ∷ ("list_price", float hk.list_price)
        ∷ ("lot_size", int hk.lot_size)
        ∷ ("entrance_price", float hk.entrance_price)
        ∷ ("is_subscribe_status", bool hk.is_subscribe_status)
        ∷ [])
      ++ when ipo.us_ex_data (λ us.
        ("ipo_price_min", float us.ipo_price_min)
        ∷ ("ipo_price_max", float us.ipo_price_max)
        ∷ ("issue_size", int us.issue_size)
        ∷ [])
      ++ when ipo.cn_ex_data (λ cn.
        ("apply_code", str cn.apply_code)
        ∷ ("issue_size", int cn.issue_size)
        ∷ ("ipo_price", float cn.ipo_price)
        ∷ ("winning_ratio", float cn.winning_ratio)
        ∷ []))

  abbrev request_trade_date_item : TradeDate F → Py F
  request_trade_date_item td = dict_of (
      ("time", str td.time)
      ∷ ("timestamp", opt float td.timestamp)
      ∷ ("trade_date_type", opt int td.trade_date_type)
      ∷ [])

module _ {σ : Type 0} (t : Requester σ) where
  unfoldable pub get_rehab :
      {F : Type 0}
      → Wire QotGetRehabC2s (QotGetRehabS2c F)
      → List (ℤ × Text)
      → Option σ
      → Result PyError (List (Py F)) × Option σ
  unfolding call
  get_rehab w securities client =
      call (quote_failed (ascii "Get rehab failed")) (Reference.get_rehab t w securities)
        (λ response. when response.s2c (λ s2c. map get_rehab_item s2c.security_rehab_list)) client

  unfoldable pub get_suspend :
      {F : Type 0}
      → Wire QotGetSuspendC2s (QotGetSuspendS2c F)
      → List (ℤ × Text)
      → Text
      → Text
      → Option σ
      → Result PyError (List (Py F)) × Option σ
  unfolding call
  get_suspend w securities begin_time end_time client =
      call (quote_failed (ascii "Get suspend failed"))
        (Reference.get_suspend t w securities begin_time end_time)
        (λ response. when response.s2c (λ s2c. map get_suspend_item s2c.security_suspend_list))
        client

  unfoldable pub get_capital_flow :
      {F : Type 0}
      → Wire QotGetCapitalFlowC2s (QotGetCapitalFlowS2c F)
      → ℤ
      → Text
      → Option ℤ
      → Option σ
      → Result PyError (Py F) × Option σ
  unfolding call
  get_capital_flow w market code period_type client =
      call (quote_failed (ascii "Get capital flow failed"))
        (Lists.get_capital_flow t w market code period_type) get_capital_flow_dict client

  unfoldable pub get_capital_distribution :
      {F : Type 0}
      → Wire QotGetCapitalDistributionC2s (QotGetCapitalDistributionS2c F)
      → ℤ
      → Text
      → Option σ
      → Result PyError (Py F) × Option σ
  unfolding call
  get_capital_distribution w market code client =
      call (quote_failed (ascii "Get capital distribution failed"))
        (Lists.get_capital_distribution t w market code) get_capital_distribution_dict client

  unfoldable pub get_code_change :
      {F : Type 0}
      → Wire QotGetCodeChangeC2s (QotGetCodeChangeS2c F)
      → List (ℤ × Text)
      → Option (List ℤ)
      → Option σ
      → Result PyError (List (Py F)) × Option σ
  unfolding call
  get_code_change w securities type_list client =
      call (quote_failed (ascii "Get code change failed"))
        (Lists.get_code_change t w securities (unwrap_or [] type_list))
        (λ response. when response.s2c (λ s2c. map get_code_change_item s2c.code_change_list))
        client

  unfoldable pub get_ipo_list :
      {F : Type 0}
      → Wire QotGetIpoListC2s (QotGetIpoListS2c F)
      → ℤ
      → Option σ
      → Result PyError (List (Py F)) × Option σ
  unfolding call
  get_ipo_list w market client =
      call (quote_failed (ascii "Get IPO list failed")) (Lists.get_ipo_list t w market)
        (λ response. when response.s2c (λ s2c. map get_ipo_list_item s2c.ipo_list)) client

  unfoldable pub request_trade_date :
      {F : Type 0}
      → Wire QotRequestTradeDateC2s (QotRequestTradeDateS2c F)
      → ℤ
      → Text
      → Text
      → Option (ℤ × Text)
      → Option σ
      → Result PyError (List (Py F)) × Option σ
  unfolding call
  request_trade_date w market begin_time end_time security client =
      call (quote_failed (ascii "Request trade date failed"))
        (Lists.request_trade_date t w market begin_time end_time security)
        (λ response. when response.s2c (λ s2c. map request_trade_date_item s2c.trade_date_list))
        client
