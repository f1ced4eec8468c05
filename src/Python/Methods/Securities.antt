-- ===== src/Python/Methods/Securities.antt =====
-- crates/futu/src/python/client.rs: the methods of `PyFutuClient` on securities and plates, and the
-- dicts that they make. `F` is the type of `f64`.
use nautilus_futu.Prelude.{Bool, Option, List, Result, map, [], ◌∷◌, ◌++◌}
use nautilus_futu.Prelude.Words.{ℤ}
use nautilus_futu.Prelude.Text.{Text, ascii}
use nautilus_futu.Generated.Quote.{
  QotGetStaticInfoC2s, QotGetPlateSecurityC2s, QotGetPlateSetC2s, QotGetReferenceC2s,
  QotGetOwnerPlateC2s, QotGetUserSecurityC2s, QotModifyUserSecurityC2s,
}
use nautilus_futu.Generated.Answer.Market.{SecurityStaticInfo, PlateInfo}
use nautilus_futu.Generated.Answer.Quotes.{
  QotGetStaticInfoS2c, QotGetPlateSecurityS2c, QotGetPlateSetS2c, QotGetReferenceS2c,
  SecurityOwnerPlate, QotGetOwnerPlateS2c, QotGetUserSecurityS2c,
}
use nautilus_futu.Request.{Requester, Wire}
use nautilus_futu.Quote.Snapshot.Lists
use nautilus_futu.Quote.Snapshot.Market
use nautilus_futu.Quote.Snapshot.Reference
use nautilus_futu.Python.{PyError, quote_failed}
use nautilus_futu.Python.Methods.{call}
use nautilus_futu.Python.Object.{Py, dict_of, list_of, opt, when, int, float, bool, str}

module _ {F : Type 0} where
  abbrev get_static_info_item : SecurityStaticInfo F → Py F
  get_static_info_item info = dict_of (
      (("market", int info.basic.security.market)
        ∷ ("code", str info.basic.security.code)
        ∷ ("name", str info.basic.name)
        ∷ ("lot_size", int info.basic.lot_size)
        ∷ ("sec_type", int info.basic.sec_type)
        ∷ ("list_time", str info.basic.list_time)
        ∷ [])
      ++ when info.basic.exch_type (λ exch_type. ("exch_type", int exch_type) ∷ [])
      ++ when info.option_ex_data (λ opt.
        (("option_type", int opt.type)
          ∷ ("option_owner_market", int opt.owner.market)
          ∷ ("option_owner_code", str opt.owner.code)
          ∷ ("strike_price", float opt.strike_price)
          ∷ ("strike_time", str opt.strike_time)
          ∷ [])
        ++ when opt.strike_timestamp (λ ts. ("strike_timestamp", float ts) ∷ []))
      ++ when info.future_ex_data (λ fut.
        (("last_trade_time", str fut.last_trade_time) ∷ [])
        ++ when fut.last_trade_timestamp (λ ts. ("last_trade_timestamp", float ts) ∷ [])
        ++ (("is_main_contract", bool fut.is_main_contract) ∷ [])))

  abbrev get_plate_security_item : SecurityStaticInfo F → Py F
  get_plate_security_item info = dict_of (
      (("market", int info.basic.security.market)
        ∷ ("code", str info.basic.security.code)
        ∷ ("name", str info.basic.name)
        ∷ ("lot_size", int info.basic.lot_size)
        ∷ ("sec_type", int info.basic.sec_type)
        ∷ ("list_time", str info.basic.list_time)
        ∷ [])
      ++ when info.basic.exch_type (λ exch_type. ("exch_type", int exch_type) ∷ [])
      ++ when info.option_ex_data (λ opt.
        (("option_type", int opt.type)
          ∷ ("option_owner_market", int opt.owner.market)
          ∷ ("option_owner_code", str opt.owner.code)
          ∷ ("strike_price", float opt.strike_price)
          ∷ ("strike_time", str opt.strike_time)
          ∷ [])
        ++ when opt.strike_timestamp (λ ts. ("strike_timestamp", float ts) ∷ []))
      ++ when info.future_ex_data (λ fut.
        (("last_trade_time", str fut.last_trade_time) ∷ [])
        ++ when fut.last_trade_timestamp (λ ts. ("last_trade_timestamp", float ts) ∷ [])
        ++ (("is_main_contract", bool fut.is_main_contract) ∷ [])))

  abbrev get_plate_set_item : PlateInfo → Py F
  get_plate_set_item plate = dict_of (
      ("plate_market", int plate.plate.market)
      ∷ ("plate_code", str plate.plate.code)
      ∷ ("name", str plate.name)
      ∷ ("plate_type", opt int plate.plate_type)
      ∷ [])

  abbrev get_reference_item : SecurityStaticInfo F → Py F
  get_reference_item info = dict_of (
      (("market", int info.basic.security.market)
        ∷ ("code", str info.basic.security.code)
        ∷ ("name", str info.basic.name)
        ∷ ("lot_size", int info.basic.lot_size)
        ∷ ("sec_type", int info.basic.sec_type)
        ∷ ("list_time", str info.basic.list_time)
        ∷ [])
      ++ when info.basic.exch_type (λ exch_type. ("exch_type", int exch_type) ∷ [])
      ++ when info.option_ex_data (λ opt.
        (("option_type", int opt.type)
          ∷ ("option_owner_market", int opt.owner.market)
          ∷ ("option_owner_code", str opt.owner.code)
          ∷ ("strike_price", float opt.strike_price)
          ∷ ("strike_time", str opt.strike_time)
          ∷ [])
        ++ when opt.strike_timestamp (λ ts. ("strike_timestamp", float ts) ∷ []))
      ++ when info.future_ex_data (λ fut.
        (("last_trade_time", str fut.last_trade_time) ∷ [])
        ++ when fut.last_trade_timestamp (λ ts. ("last_trade_timestamp", float ts) ∷ [])
        ++ (("is_main_contract", bool fut.is_main_contract) ∷ [])))

  abbrev get_owner_plate_plates : PlateInfo → Py F
  get_owner_plate_plates plate = dict_of (
      ("plate_market", int plate.plate.market)
      ∷ ("plate_code", str plate.plate.code)
      ∷ ("plate_name", str plate.name)
      ∷ ("plate_type", opt int plate.plate_type)
      ∷ [])

  abbrev get_owner_plate_item : SecurityOwnerPlate → Py F
  get_owner_plate_item owner = dict_of (
      ("market", int owner.security.market)
      ∷ ("code", str owner.security.code)
      ∷ ("name", opt str owner.name)
      ∷ ("plate_info_list", list_of get_owner_plate_plates owner.plate_info_list)
      ∷ [])

  abbrev get_user_security_item : SecurityStaticInfo F → Py F
  get_user_security_item info = dict_of (
      (("market", int info.basic.security.market)
        ∷ ("code", str info.basic.security.code)
        ∷ ("name", str info.basic.name)
        ∷ ("lot_size", int info.basic.lot_size)
        ∷ ("sec_type", int info.basic.sec_type)
        ∷ ("list_time", str info.basic.list_time)
        ∷ [])
      ++ when info.basic.exch_type (λ exch_type. ("exch_type", int exch_type) ∷ []))

module _ {σ : Type 0} (t : Requester σ) where
  unfoldable pub get_static_info :
      {F : Type 0}
      → Wire QotGetStaticInfoC2s (QotGetStaticInfoS2c F)
      → List (ℤ × Text)
      → Option σ
      → Result PyError (List (Py F)) × Option σ
  unfolding call
  get_static_info w securities client =
      call (quote_failed (ascii "Get static info failed")) (Market.get_static_info t w securities)
        (λ response. when response.s2c (λ s2c. map get_static_info_item s2c.static_info_list))
        client

  unfoldable pub get_plate_security :
      {F : Type 0}
      → Wire QotGetPlateSecurityC2s (QotGetPlateSecurityS2c F)
      → ℤ
      → Text
      → Option ℤ
      → Option Bool
      → Option σ
      → Result PyError (List (Py F)) × Option σ
  unfolding call
  get_plate_security w plate_market plate_code sort_field ascend client =
      call (quote_failed (ascii "Get plate security failed"))
        (Market.get_plate_security t w plate_market plate_code sort_field ascend)
        (λ response. when response.s2c (λ s2c. map get_plate_security_item s2c.static_info_list))
        client

  unfoldable pub get_plate_set :
      {F : Type 0}
      → Wire QotGetPlateSetC2s QotGetPlateSetS2c
      → ℤ
      → ℤ
      → Option σ
      → Result PyError (List (Py F)) × Option σ
  unfolding call
  get_plate_set w market plate_set_type client =
      call (quote_failed (ascii "Get plate set failed"))
        (Reference.get_plate_set t w market plate_set_type)
        (λ response. when response.s2c (λ s2c. map get_plate_set_item s2c.plate_info_list)) client

  unfoldable pub get_reference :
      {F : Type 0}
      → Wire QotGetReferenceC2s (QotGetReferenceS2c F)
      → ℤ
      → Text
      → ℤ
      → Option σ
      → Result PyError (List (Py F)) × Option σ
  unfolding call
  get_reference w market code reference_type client =
      call (quote_failed (ascii "Get reference failed"))
        (Reference.get_reference t w market code reference_type)
        (λ response. when response.s2c (λ s2c. map get_reference_item s2c.static_info_list)) client

  unfoldable pub get_owner_plate :
      {F : Type 0}
      → Wire QotGetOwnerPlateC2s QotGetOwnerPlateS2c
      → List (ℤ × Text)
      → Option σ
      → Result PyError (List (Py F)) × Option σ
  unfolding call
  get_owner_plate w securities client =
      call (quote_failed (ascii "Get owner plate failed"))
        (Reference.get_owner_plate t w securities)
        (λ response. when response.s2c (λ s2c. map get_owner_plate_item s2c.owner_plate_list))
        client

  unfoldable pub get_user_security :
      {F : Type 0}
      → Wire QotGetUserSecurityC2s (QotGetUserSecurityS2c F)
      → Text
      → Option σ
      → Result PyError (List (Py F)) × Option σ
  unfolding call
  get_user_security w group_name client =
      call (quote_failed (ascii "Get user security failed"))
        (Lists.get_user_security t w group_name)
        (λ response. when response.s2c (λ s2c. map get_user_security_item s2c.static_info_list))
        client

  unfoldable pub modify_user_security :
      {F S : Type 0}
      → Wire QotModifyUserSecurityC2s S
      → Text
      → ℤ
      → List (ℤ × Text)
      → Option σ
      → Result PyError (Py F) × Option σ
  unfolding call
  modify_user_security w group_name op securities client =
      call (quote_failed (ascii "Modify user security failed"))
        (Lists.modify_user_security t w group_name op securities) (λ response. dict_of []) client
