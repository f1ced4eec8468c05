-- ===== src/Tests/Trading.antt =====
-- Orders and other trading methods of the Python class at concrete inputs. A float is a number here.
use nautilus_futu.Prelude.{ℕ, ◌+◌, List, [], ◌∷◌, none, some, Result, ok, err}
use nautilus_futu.Prelude.Words.{ℤ, pos}
use nautilus_futu.Prelude.Text.{Text, ascii}
use nautilus_futu.Generated.Common.{Response}
use nautilus_futu.Generated.Trade.{
  TrdPlaceOrderC2s, TrdModifyOrderC2s, TrdUnlockTradeC2s, TrdGetFundsC2s,
}
use nautilus_futu.Generated.Answer.Trade.{TrdPlaceOrderS2c, TrdGetFundsS2c}
use nautilus_futu.Request.{Requester, Wire}
use nautilus_futu.Python.Methods.Orders.{place_order, modify_order, place_order_dict}
use nautilus_futu.Python.Methods.Outcome.{Returns, ReturnsBy, orders-Accepted}
use nautilus_futu.Tests.Samples.{message}

-- A server that answers every request with the same bytes, and counts them.
abbrev answering : List ℕ → Requester ℕ
answering bytes = record {
  request = λ proto_id body n. (ok (message 2202 1 bytes), n + 1);
  next_serial = λ n. (n, n + 1);
  conn_id = λ n. 7;
}

-- A byte of 0 is success.
abbrev response : {S : Type 0} → S → ℤ → Response S
response s2c code = record {
  ret_type = code;
  ret_msg = some (ascii "locked");
  err_code = none;
  s2c = some s2c;
}

abbrev read : {S : Type 0} → S → List ℕ → Result Text (Response S)
read s2c [] = err (ascii "empty")
read s2c (b ∷ bytes) = ok (response s2c (pos b))

abbrev order_made : TrdPlaceOrderS2c
order_made = record {
  header = record { trd_env = pos 0; acc_id = 42; trd_market = pos 1 };
  order_id = some 5;
  order_id_ex = none;
}

abbrev no_funds : TrdGetFundsS2c ℕ
no_funds = record {
  header = record { trd_env = pos 0; acc_id = 42; trd_market = pos 1 };
  funds = none;
}

abbrev place : Wire (TrdPlaceOrderC2s ℕ) TrdPlaceOrderS2c
place = record { encode_to_vec = λ c. c.qty ∷ []; decode = read order_made }

abbrev modify : Wire (TrdModifyOrderC2s ℕ) ℕ
modify = record { encode_to_vec = λ c. c.order_id ∷ []; decode = read {S = ℕ} 5 }

abbrev unlocking : Wire TrdUnlockTradeC2s ℕ
unlocking = record { encode_to_vec = λ c. []; decode = read {S = ℕ} 5 }

abbrev funds : Wire TrdGetFundsC2s (TrdGetFundsS2c ℕ)
funds = record { encode_to_vec = λ c. []; decode = read no_funds }

orders-Accepted_example :
    Returns
      (ReturnsBy (answering (0 ∷ [])) place 2202 (place_order_dict {F = ℕ}) (some 1))
      (place_order
        (answering (0 ∷ []))
        place
        (pos 0)
        42
        (pos 1)
        (pos 1)
        (pos 1)
        (ascii "00700")
        100
        (some 350)
        none
        (some 1)).0
    × Returns
        (ReturnsBy (answering (0 ∷ [])) modify 2205 (λ u. tt) (some 1))
        (modify_order
          (answering (0 ∷ []))
          modify
          (pos 0)
          42
          (pos 1)
          77
          (pos 2)
          none
          (some 340)
          (some 1)).0
orders-Accepted_example =
    orders-Accepted (answering (0 ∷ [])) place (pos 0) 42 (pos 1) (pos 1) (pos 1) (ascii "00700")
      100 (some 350) none modify 77 (pos 2) none (some 340) (some 1)
