-- ===== src/Python/Methods/Outcome.antt =====
-- What the trading methods of crates/futu/src/python/client.rs tell Python about a refusal, and when
-- they report success.
use nautilus_futu.Prelude.{ℕ, ◌≡◌, ◌≢◌, refl, Option, none, some, Result, ok, err}
use nautilus_futu.Prelude.Words.{ℤ}
use nautilus_futu.Prelude.Text.{Text, ascii}
use nautilus_futu.Client.Init.{unwrap_or_default}
use nautilus_futu.Generated.Common.{Response}
use nautilus_futu.Generated.Trade.{TrdPlaceOrderC2s, TrdModifyOrderC2s}
use nautilus_futu.Generated.Answer.Trade.{TrdPlaceOrderS2c}
use nautilus_futu.Request.{Requester, Wire, exchange}
use nautilus_futu.Request.Outcome.{Accepted, exchange-Accepted}
use nautilus_futu.Trade.Account.{TradeError, server, trade_errors}
use nautilus_futu.Trade.Account
use nautilus_futu.Trade.Order
use nautilus_futu.Trade.Query
use nautilus_futu.Python.{PyError, trade_failed}
use nautilus_futu.Python.Methods.{call, converted}
use nautilus_futu.Python.Methods.Orders.{place_order, modify_order, place_order_dict}

-- The error of a method with the server's code and text, behind the text of the method.
abbrev pub told : {S B : Type 0} → Text → Response S → Result PyError B
told text r = err (trade_failed text (server r.ret_type (unwrap_or_default r.ret_msg)))

-- If the method returns, it returns such a value.
abbrev pub Returns : {B : Type 0} → (B → Type 0) → Result PyError B → Type 0
Returns P (err e) = Unit {0}
Returns P (ok b) = P b

Returns-map :
    {B : Type 0} {P Q : B → Type 0}
    → ((b : B) → P b → Q b)
    → (d : Result PyError B) → Returns P d
    → Returns Q d
Returns-map f (err e) h = tt
Returns-map f (ok b) h = f b h

module _ {σ : Type 0} (t : Requester σ) where
  -- On a connected object, the conversion of a response that the server gave with ret_type 0.
  abbrev pub ReturnsBy : {C S B : Type 0} → Wire C S → ℕ → (Response S → B) → Option σ → B → Type 0
  ReturnsBy {C} {S} w proto_id convert client b =
      (client ≢ none) × ((r : Response S) × Accepted t w proto_id r × (b ≡ convert r))

  request-Returns :
      {C S B : Type 0} (w : Wire C S) (proto_id : ℕ) (c2s : C) (st : σ) (text : Text)
      (convert : Response S → B)
      → Returns
          (λ b. (r : Response S) × Accepted t w proto_id r × (b ≡ convert r))
          (converted (trade_failed text) convert (exchange t trade_errors w proto_id c2s st).0)
  request-Returns {S} w proto_id c2s st text convert =
      by_result (exchange t trade_errors w proto_id c2s st).0 refl
    where
      by_result :
          (d : Result TradeError (Response S))
          → (exchange t trade_errors w proto_id c2s st).0 ≡ d
          → Returns
              (λ b. (r : Response S) × Accepted t w proto_id r × (b ≡ convert r))
              (converted (trade_failed text) convert d)
      by_result (err x) e = tt
      by_result (ok r) e = (r, exchange-Accepted t trade_errors w proto_id c2s st r e, refl)

  module _ {F : Type 0} (place : Wire (TrdPlaceOrderC2s F) TrdPlaceOrderS2c) (trd_env : ℤ)
      (acc_id : ℕ) (trd_market trd_side order_type : ℤ) (code : Text) (qty : F) (price : Option F)
      (sec_market : Option ℤ) {S : Type 0} (modify : Wire (TrdModifyOrderC2s F) S) (order_id : ℕ)
      (modify_op : ℤ) (new_qty new_price : Option F) where
    -- If place_order or modify_order returns, the client is connected and got a reply, to a request
    -- with the protocol id of the method (2202 or 2205), that decodes to a response with ret_type 0;
    -- and the dict of place_order is the one of that response.
    pub orders-Accepted :
        (client : Option σ)
        → Returns
            (ReturnsBy place 2202 place_order_dict client)
            (place_order t place trd_env acc_id trd_market trd_side order_type code qty price
              sec_market client).0
          × Returns
              (ReturnsBy modify 2205 (λ u. tt) client)
              (modify_order t modify trd_env acc_id trd_market order_id modify_op new_qty new_price
                client).0
    unfolding place_order modify_order Order.place_order Order.modify_order call
    orders-Accepted none = (tt, tt)
    orders-Accepted (some st) = (
      Returns-map {Q = ReturnsBy place 2202 place_order_dict (some st)} (λ o h. ((λ e. cc), h)) _
          (request-Returns place _ _ _ (ascii "Place order failed") place_order_dict),
      Returns-map {Q = ReturnsBy modify 2205 (λ u. tt) (some st)} (λ u h. ((λ e. cc), h)) _
          (request-Returns modify _ _ _ (ascii "Modify order failed") (λ u. tt)),
    )
