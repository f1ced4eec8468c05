-- ===== src/Python/Methods/Derivatives.antt =====
-- crates/futu/src/python/client.rs: the methods of `PyFutuClient` on options, warrants and futures,
-- and the dicts that they make. `F` is the type of `f64`.
use nautilus_futu.Prelude.{Bool, Option, List, Result, map, none, [], ◌∷◌, ◌++◌}
use nautilus_futu.Prelude.Words.{ℤ}
use nautilus_futu.Prelude.Text.{Text, ascii}
use nautilus_futu.Generated.Quote.{QotGetFutureInfoC2s, QotGetOptionExpirationDateC2s}
use nautilus_futu.Generated.Screening.{QotGetOptionChainC2s, QotGetWarrantC2s}
use nautilus_futu.Generated.Answer.Derivatives.{
  OptionItem, OptionChain, QotGetOptionChainS2c, WarrantData, QotGetWarrantS2c, TradeTime,
  FutureInfo, QotGetFutureInfoS2c, OptionExpirationDate, QotGetOptionExpirationDateS2c,
}
use nautilus_futu.Generated.Common.{Response}
use nautilus_futu.Request.{Requester, Wire}
use nautilus_futu.Quote.Snapshot.Lists
use nautilus_futu.Quote.Snapshot.Reference
use nautilus_futu.Python.{PyError, quote_failed}
use nautilus_futu.Python.Methods.{call}
use nautilus_futu.Python.Object.{Py, dict_of, list_of, opt, when, unwrap_or, int, float, bool, str}

module _ {F : Type 0} where
  abbrev get_option_chain_options : OptionItem F → Py F
  get_option_chain_options item = dict_of (
      when item.call (λ call_info.
        (
          "call",
          dict_of (
              (("market", int call_info.basic.security.market)
                ∷ ("code", str call_info.basic.security.code)
                ∷ ("name", str call_info.basic.name)
                ∷ ("lot_size", int call_info.basic.lot_size)
                ∷ ("sec_type", int call_info.basic.sec_type)
                ∷ [])
              ++ when call_info.option_ex_data (λ opt.
                ("strike_price", float opt.strike_price)
                ∷ ("strike_time", str opt.strike_time)
                ∷ ("option_type", int opt.type)
                ∷ [])),
        )
        ∷ [])
      ++ when item.put (λ put_info.
        (
          "put",
          dict_of (
              (("market", int put_info.basic.security.market)
                ∷ ("code", str put_info.basic.security.code)
                ∷ ("name", str put_info.basic.name)
                ∷ ("lot_size", int put_info.basic.lot_size)
                ∷ ("sec_type", int put_info.basic.sec_type)
                ∷ [])
              ++ when put_info.option_ex_data (λ opt.
                ("strike_price", float opt.strike_price)
                ∷ ("strike_time", str opt.strike_time)
                ∷ ("option_type", int opt.type)
                ∷ [])),
        )
        ∷ []))

  abbrev get_option_chain_item : OptionChain F → Py F
  get_option_chain_item chain = dict_of (
      ("strike_time", str chain.strike_time)
      ∷ ("strike_timestamp", opt float chain.strike_timestamp)
      ∷ ("option_list", list_of get_option_chain_options chain.option)
      ∷ [])

  abbrev get_warrant_data_list : WarrantData F → Py F
  get_warrant_data_list warrant = dict_of (
      ("stock_market", int warrant.stock.market)
      ∷ ("stock_code", str warrant.stock.code)
      ∷ ("owner_market", int warrant.owner.market)
      ∷ ("owner_code", str warrant.owner.code)
      ∷ ("type", int warrant.type)
      ∷ ("issuer", int warrant.issuer)
      ∷ ("name", str warrant.name)
      ∷ ("maturity_time", str warrant.maturity_time)
      ∷ ("maturity_timestamp", opt float warrant.maturity_timestamp)
      ∷ ("list_time", str warrant.list_time)
      ∷ ("list_timestamp", opt float warrant.list_timestamp)
      ∷ ("last_trade_time", str warrant.last_trade_time)
      ∷ ("last_trade_timestamp", opt float warrant.last_trade_timestamp)
      ∷ ("recovery_price", opt float warrant.recovery_price)
      ∷ ("strike_price", float warrant.strike_price)
      ∷ ("cur_price", float warrant.cur_price)
      ∷ ("last_close_price", float warrant.last_close_price)
      ∷ ("price_change_val", float warrant.price_change_val)
      ∷ ("change_rate", float warrant.change_rate)
      ∷ ("volume", int warrant.volume)
      ∷ ("turnover", float warrant.turnover)
      ∷ ("premium", float warrant.premium)
      ∷ ("break_even_point", float warrant.break_even_point)
      ∷ ("conversion_ratio", float warrant.conversion_ratio)
      ∷ ("conversion_price", float warrant.conversion_price)
      ∷ ("lot_size", int warrant.lot_size)
      ∷ ("leverage", float warrant.leverage)
      ∷ ("ipop", float warrant.ipop)
      ∷ ("effective_leverage", float warrant.effective_leverage)
      ∷ ("score", float warrant.score)
      ∷ ("status", int warrant.status)
      ∷ ("bid_price", float warrant.bid_price)
      ∷ ("ask_price", float warrant.ask_price)
      ∷ ("bid_vol", int warrant.bid_vol)
      ∷ ("ask_vol", int warrant.ask_vol)
      ∷ ("high_price", float warrant.high_price)
      ∷ ("low_price", float warrant.low_price)
      ∷ ("implied_volatility", opt float warrant.implied_volatility)
      ∷ ("delta", opt float warrant.delta)
      ∷ ("street_rate", float warrant.street_rate)
      ∷ ("street_vol", int warrant.street_vol)
      ∷ ("amplitude", float warrant.amplitude)
      ∷ ("issue_size", int warrant.issue_size)
      ∷ ("upper_strike_price", opt float warrant.upper_strike_price)
      ∷ ("lower_strike_price", opt float warrant.lower_strike_price)
      ∷ ("in_line_price_status", opt int warrant.in_line_price_status)
      ∷ ("price_recovery_ratio", opt float warrant.price_recovery_ratio)
      ∷ [])

  abbrev get_warrant_dict : Response (QotGetWarrantS2c F) → Py F
  get_warrant_dict response = dict_of (
      when response.s2c (λ s2c.
        ("last_page", bool s2c.last_page)
        ∷ ("all_count", int s2c.all_count)
        ∷ ("data", list_of get_warrant_data_list s2c.warrant_data_list)
        ∷ []))

  abbrev get_future_info_times : TradeTime F → Py F
  get_future_info_times trade =
      dict_of (("begin", opt float trade.begin) ∷ ("end", opt float trade.end) ∷ [])

  abbrev get_future_info_item : FutureInfo F → Py F
  get_future_info_item info = dict_of (
      (("name", str info.name)
        ∷ ("market", int info.security.market)
        ∷ ("code", str info.security.code)
        ∷ ("last_trade_time", str info.last_trade_time)
        ∷ ("last_trade_timestamp", opt float info.last_trade_timestamp)
        ∷ [])
      ++ when info.owner
          (λ owner. ("owner_market", int owner.market) ∷ ("owner_code", str owner.code) ∷ [])
      ++ (("owner_other", str info.owner_other)
          ∷ ("exchange", str info.exchange)
          ∷ ("contract_type", str info.contract_type)
          ∷ ("contract_size", float info.contract_size)
          ∷ ("contract_size_unit", str info.contract_size_unit)
          ∷ ("quote_currency", str info.quote_currency)
          ∷ ("min_var", float info.min_var)
          ∷ ("min_var_unit", str info.min_var_unit)
          ∷ ("quote_unit", opt str info.quote_unit)
          ∷ ("time_zone", str info.time_zone)
          ∷ ("exchange_format_url", str info.exchange_format_url)
          ∷ [])
      ++ when info.origin
          (λ origin. ("origin_market", int origin.market) ∷ ("origin_code", str origin.code) ∷ [])
      ++ (("trade_time", list_of get_future_info_times info.trade_time) ∷ []))

  abbrev get_option_expiration_date_item : OptionExpirationDate F → Py F
  get_option_expiration_date_item date = dict_of (
      ("strike_time", opt str date.strike_time)
      ∷ ("strike_timestamp", opt float date.strike_timestamp)
      ∷ ("option_expiry_date_distance", int date.option_expiry_date_distance)
      ∷ ("cycle", opt int date.cycle)
      ∷ [])

module _ {σ : Type 0} (t : Requester σ) where
  unfoldable pub get_option_chain :
      {F : Type 0}
      → Wire (QotGetOptionChainC2s F) (QotGetOptionChainS2c F)
      → ℤ
      → Text
      → Text
      → Text
      → Option ℤ
      → Option ℤ
      → Option ℤ
      → Option σ
      → Result PyError (List (Py F)) × Option σ
  unfolding call
  get_option_chain w owner_market owner_code begin_time end_time option_type condition
        index_option_type client =
      call (quote_failed (ascii "Get option chain failed"))
        (Reference.get_option_chain t w owner_market owner_code begin_time end_time option_type
          condition index_option_type none)
        (λ response. when response.s2c (λ s2c. map get_option_chain_item s2c.option_chain)) client

  unfoldable pub get_warrant :
      {F : Type 0}
      → Wire (QotGetWarrantC2s F) (QotGetWarrantS2c F)
      → ℤ
      → ℤ
      → ℤ
      → Bool
      → Option (ℤ × Text)
      → Option (List ℤ)
      → Option (List ℤ)
      → Option σ
      → Result PyError (Py F) × Option σ
  unfolding call
  get_warrant w begin num sort_field ascend owner type_list issuer_list client =
      call (quote_failed (ascii "Get warrant failed"))
        (Reference.get_warrant t w begin num sort_field ascend owner (unwrap_or [] type_list)
          (unwrap_or [] issuer_list))
        get_warrant_dict client

  unfoldable pub get_future_info :
      {F : Type 0}
      → Wire QotGetFutureInfoC2s (QotGetFutureInfoS2c F)
      → List (ℤ × Text)
      → Option σ
      → Result PyError (List (Py F)) × Option σ
  unfolding call
  get_future_info w securities client =
      call (quote_failed (ascii "Get future info failed")) (Lists.get_future_info t w securities)
        (λ response. when response.s2c (λ s2c. map get_future_info_item s2c.future_info_list))
        client

  unfoldable pub get_option_expiration_date :
      {F : Type 0}
      → Wire QotGetOptionExpirationDateC2s (QotGetOptionExpirationDateS2c F)
      → ℤ
      → Text
      → Option ℤ
      → Option σ
      → Result PyError (List (Py F)) × Option σ
  unfolding call
  get_option_expiration_date w owner_market owner_code index_option_type client =
      call (quote_failed (ascii "Get option expiration date failed"))
        (Lists.get_option_expiration_date t w owner_market owner_code index_option_type)
        (λ response. when response.s2c (λ s2c. map get_option_expiration_date_item s2c.date_list))
        client
