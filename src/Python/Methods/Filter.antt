-- ===== src/Python/Methods/Filter.antt =====
-- crates/futu/src/python/client.rs: the methods of `PyFutuClient` on the stock filter, and the
-- dicts that they make. `F` is the type of `f64`.
use nautilus_futu.Prelude.{Option, List, Result, map, none, [], ◌∷◌}
use nautilus_futu.Prelude.Words.{ℤ}
use nautilus_futu.Prelude.Text.{ascii}
use nautilus_futu.Generated.Screening.{
  BaseFilter, AccumulateFilter, FinancialFilter, QotStockFilterC2s,
}
use nautilus_futu.Generated.Answer.Quotes.{
  BaseData, AccumulateData, FinancialData, StockData, QotStockFilterS2c,
}
use nautilus_futu.Generated.Common.{Response}
use nautilus_futu.Request.{Requester, Wire}
use nautilus_futu.Quote.Snapshot.Market
use nautilus_futu.Python.{PyError, quote_failed}
use nautilus_futu.Python.Methods.{call}
use nautilus_futu.Python.Object.{Py, dict_of, list_of, when, unwrap_or, int, float, bool, str}

module _ {F : Type 0} where
  abbrev base_filter : ℤ × Option F × Option F × Option ℤ → BaseFilter F
  base_filter (field, min, max, sort) = record {
    field_name = field;
    filter_min = min;
    filter_max = max;
    is_no_filter = none;
    sort_dir = sort;
  }

  abbrev accumulate_filter : ℤ × ℤ × Option F × Option F × Option ℤ → AccumulateFilter F
  accumulate_filter (field, days, min, max, sort) = record {
    field_name = field;
    filter_min = min;
    filter_max = max;
    is_no_filter = none;
    sort_dir = sort;
    days = days;
  }

  abbrev financial_filter : ℤ × ℤ × Option F × Option F × Option ℤ → FinancialFilter F
  financial_filter (field, quarter, min, max, sort) = record {
    field_name = field;
    filter_min = min;
    filter_max = max;
    is_no_filter = none;
    sort_dir = sort;
    quarter = quarter;
  }

  abbrev stock_filter_base_data : BaseData F → Py F
  stock_filter_base_data bd =
      dict_of (("field", int bd.field_name) ∷ ("value", float bd.value) ∷ [])

  abbrev stock_filter_acc_data : AccumulateData F → Py F
  stock_filter_acc_data ad =
      dict_of
        (("field", int ad.field_name) ∷ ("value", float ad.value) ∷ ("days", int ad.days) ∷ [])

  abbrev stock_filter_fin_data : FinancialData F → Py F
  stock_filter_fin_data fd =
      dict_of (
        ("field", int fd.field_name) ∷ ("value", float fd.value) ∷ ("quarter", int fd.quarter) ∷ [])

  abbrev stock_filter_data_list : StockData F → Py F
  stock_filter_data_list stock = dict_of (
      ("market", int stock.security.market)
      ∷ ("code", str stock.security.code)
      ∷ ("name", str stock.name)
      ∷ ("base_data", list_of stock_filter_base_data stock.base_data_list)
      ∷ ("accumulate_data", list_of stock_filter_acc_data stock.accumulate_data_list)
      ∷ ("financial_data", list_of stock_filter_fin_data stock.financial_data_list)
      ∷ [])

  abbrev stock_filter_dict : Response (QotStockFilterS2c F) → Py F
  stock_filter_dict response = dict_of (
      when response.s2c (λ s2c.
        ("last_page", bool s2c.last_page)
        ∷ ("all_count", int s2c.all_count)
        ∷ ("data", list_of stock_filter_data_list s2c.data_list)
        ∷ []))

module _ {σ : Type 0} (t : Requester σ) where
  unfoldable pub stock_filter :
      {F : Type 0}
      → Wire (QotStockFilterC2s F) (QotStockFilterS2c F)
      → ℤ
      → ℤ
      → ℤ
      → Option (List (ℤ × Option F × Option F × Option ℤ))
      → Option (List (ℤ × ℤ × Option F × Option F × Option ℤ))
      → Option (List (ℤ × ℤ × Option F × Option F × Option ℤ))
      → Option σ
      → Result PyError (Py F) × Option σ
  unfolding call
  stock_filter w market begin num base_filters accumulate_filters financial_filters client =
      call (quote_failed (ascii "Stock filter failed"))
        (Market.stock_filter t w begin num market none (map base_filter (unwrap_or [] base_filters))
          (map accumulate_filter (unwrap_or [] accumulate_filters))
          (map financial_filter (unwrap_or [] financial_filters)))
        stock_filter_dict client
