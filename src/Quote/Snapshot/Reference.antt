-- ===== src/Quote/Snapshot/Reference.antt =====
-- crates/futu/src/quote/snapshot.rs, from `get_broker` to `get_warrant`. `F` is the type of `f64`.
use mathlib.Core.Option
use nautilus_futu.Prelude.{ℕ, List, Bool, Option, Result, none, map}
use nautilus_futu.Prelude.Words.{ℤ}
use nautilus_futu.Prelude.Text.{Text}
use nautilus_futu.Generated.Quote.{
  QotGetBrokerC2s, QotGetRehabC2s, QotGetSuspendC2s, QotGetPlateSetC2s, QotGetReferenceC2s,
  QotGetOwnerPlateC2s,
}
use nautilus_futu.Generated.Screening.{DataFilter, QotGetOptionChainC2s, QotGetWarrantC2s}
use nautilus_futu.Generated.Common.{Response, to_security}
use nautilus_futu.Request.{Requester, Wire, exchange}
use nautilus_futu.Quote.Subscribe.{QuoteError, quote_errors}

abbrev pub proto_qot_get_broker : ℕ
proto_qot_get_broker = 3014

abbrev pub proto_qot_request_rehab : ℕ
proto_qot_request_rehab = 3105

abbrev pub proto_qot_get_suspend : ℕ
proto_qot_get_suspend = 3201

abbrev pub proto_qot_get_plate_set : ℕ
proto_qot_get_plate_set = 3204

abbrev pub proto_qot_get_reference : ℕ
proto_qot_get_reference = 3206

abbrev pub proto_qot_get_owner_plate : ℕ
proto_qot_get_owner_plate = 3207

abbrev pub proto_qot_get_option_chain : ℕ
proto_qot_get_option_chain = 3209

abbrev pub proto_qot_get_warrant : ℕ
proto_qot_get_warrant = 3210

module _ {σ : Type 0} (t : Requester σ) where
  unfoldable pub get_broker :
      {S : Type 0} → Wire QotGetBrokerC2s S → ℤ → Text → σ → Result QuoteError (Response S) × σ
  get_broker w market code st =
      exchange t quote_errors w proto_qot_get_broker
        (record { security = record { market = market; code = code } }) st

  unfoldable pub get_rehab :
      {S : Type 0}
      → Wire QotGetRehabC2s S
      → List (ℤ × Text)
      → σ
      → Result QuoteError (Response S) × σ
  get_rehab w securities st =
      exchange t quote_errors w proto_qot_request_rehab
        (record { security_list = map to_security securities }) st

  unfoldable pub get_suspend :
      {S : Type 0}
      → Wire QotGetSuspendC2s S
      → List (ℤ × Text)
      → Text
      → Text
      → σ
      → Result QuoteError (Response S) × σ
  get_suspend w securities begin_time end_time st =
      exchange t quote_errors w proto_qot_get_suspend
        (record {
          security_list = map to_security securities;
          begin_time = begin_time;
          end_time = end_time;
        })
        st

  unfoldable pub get_plate_set :
      {S : Type 0} → Wire QotGetPlateSetC2s S → ℤ → ℤ → σ → Result QuoteError (Response S) × σ
  get_plate_set w market plate_set_type st =
      exchange t quote_errors w proto_qot_get_plate_set
        (record { market = market; plate_set_type = plate_set_type }) st

  unfoldable pub get_reference :
      {S : Type 0}
      → Wire QotGetReferenceC2s S
      → ℤ
      → Text
      → ℤ
      → σ
      → Result QuoteError (Response S) × σ
  get_reference w market code reference_type st =
      exchange t quote_errors w proto_qot_get_reference
        (record {
          security = record { market = market; code = code };
          reference_type = reference_type;
        })
        st

  unfoldable pub get_owner_plate :
      {S : Type 0}
      → Wire QotGetOwnerPlateC2s S
      → List (ℤ × Text)
      → σ
      → Result QuoteError (Response S) × σ
  get_owner_plate w securities st =
      exchange t quote_errors w proto_qot_get_owner_plate
        (record { security_list = map to_security securities }) st

  unfoldable pub get_option_chain :
      {F S : Type 0}
      → Wire (QotGetOptionChainC2s F) S
      → ℤ
      → Text
      → Text
      → Text
      → Option ℤ
      → Option ℤ
      → Option ℤ
      → Option (DataFilter F)
      → σ
      → Result QuoteError (Response S) × σ
  get_option_chain w owner_market owner_code begin_time end_time option_type condition
        index_option_type data_filter st =
      exchange t quote_errors w proto_qot_get_option_chain
        (record {
          owner = record { market = owner_market; code = owner_code };
          type = option_type;
          condition = condition;
          begin_time = begin_time;
          end_time = end_time;
          index_option_type = index_option_type;
          data_filter = data_filter;
        })
        st

  unfoldable pub get_warrant :
      {F S : Type 0}
      → Wire (QotGetWarrantC2s F) S
      → ℤ
      → ℤ
      → ℤ
      → Bool
      → Option (ℤ × Text)
      → List ℤ
      → List ℤ
      → σ
      → Result QuoteError (Response S) × σ
  get_warrant w begin num sort_field ascend owner type_list issuer_list st =
      exchange t quote_errors w proto_qot_get_warrant
        (record {
          begin = begin;
          num = num;
          sort_field = sort_field;
          ascend = ascend;
          owner = Option.map to_security owner;
          type_list = type_list;
          issuer_list = issuer_list;
          maturity_time_min = none;
          maturity_time_max = none;
          ipo_period = none;
          price_type = none;
          status = none;
          cur_price_min = none;
          cur_price_max = none;
          strike_price_min = none;
          strike_price_max = none;
          street_min = none;
          street_max = none;
          conversion_min = none;
          conversion_max = none;
          vol_min = none;
          vol_max = none;
          premium_min = none;
          premium_max = none;
          leverage_ratio_min = none;
          leverage_ratio_max = none;
          delta_min = none;
          delta_max = none;
          implied_min = none;
          implied_max = none;
          recovery_price_min = none;
          recovery_price_max = none;
          price_recovery_ratio_min = none;
          price_recovery_ratio_max = none;
        })
        st
