-- ===== src/Tests/Answers.antt =====
-- The dicts of answers at concrete inputs. A float is a number here.
use nautilus_futu.Prelude.{ℕ, [], ◌∷◌, false, none, some}
use nautilus_futu.Prelude.Words.{pos}
use nautilus_futu.Prelude.Text.{ascii}
use nautilus_futu.Generated.Answer.Account.{Order, OrderFill, TrdAcc, Position}
use nautilus_futu.Generated.Answer.Market.{BasicQot, Ticker, KLine}
use nautilus_futu.Python.Contract.{
  QuoteData, TradeData, BarData, OrderData, FillData, PositionData, AccountData,
}
use nautilus_futu.Python.Methods.Account.{get_acc_list_item, get_position_list_item}
use nautilus_futu.Python.Methods.Orders.{get_order_list_item, get_order_fill_list_item}
use nautilus_futu.Python.Methods.Quotes.{get_ticker_item, get_basic_qot_item, get_history_kl_item}
use nautilus_futu.Python.Methods.Types.{answers_typed}

abbrev order : Order ℕ
order = record {
  trd_side = pos 1;
  order_type = pos 1;
  order_status = pos 1;
  order_id = 1;
  order_id_ex = [];
  code = ascii "00700";
  name = [];
  qty = 1;
  price = some 350;
  create_time = [];
  update_time = [];
  fill_qty = none;
  fill_avg_price = none;
  last_err_msg = none;
  sec_market = some (pos 1);
  create_timestamp = none;
  update_timestamp = none;
  remark = none;
  time_in_force = none;
  fill_outside_rth = none;
  aux_price = none;
  trail_type = none;
  trail_value = none;
  trail_spread = none;
  currency = none;
  trd_market = none;
  session = none;
}

abbrev order_fill : OrderFill ℕ
order_fill = record {
  trd_side = pos 1;
  fill_id = 1;
  fill_id_ex = [];
  order_id = some 7;
  order_id_ex = none;
  code = ascii "00700";
  name = [];
  qty = 1;
  price = 1;
  create_time = [];
  counter_broker_id = none;
  counter_broker_name = none;
  sec_market = none;
  create_timestamp = none;
  update_timestamp = none;
  status = none;
  trd_market = none;
}

abbrev position : Position ℕ
position = record {
  position_id = 1;
  position_side = pos 1;
  code = ascii "00700";
  name = [];
  qty = 1;
  can_sell_qty = 1;
  price = 1;
  cost_price = none;
  val = 1;
  pl_val = 1;
  pl_ratio = none;
  sec_market = none;
  td_pl_val = none;
  td_trd_val = none;
  td_buy_val = none;
  td_buy_qty = none;
  td_sell_val = none;
  td_sell_qty = none;
  unrealized_pl = none;
  realized_pl = none;
  currency = none;
  trd_market = none;
  diluted_cost_price = none;
  average_cost_price = none;
  average_pl_ratio = none;
}

abbrev acc : TrdAcc
acc = record {
  trd_env = pos 1;
  acc_id = 1;
  trd_market_auth_list = pos 1 ∷ pos 2 ∷ [];
  acc_type = none;
  card_num = none;
  security_firm = none;
  sim_acc_type = none;
  uni_card_num = none;
  acc_status = none;
}

abbrev qot : BasicQot ℕ
qot = record {
  security = record { market = pos 1; code = ascii "00700" };
  name = none;
  is_suspended = false;
  list_time = [];
  price_spread = 1;
  update_time = [];
  high_price = 1;
  open_price = 1;
  low_price = 1;
  cur_price = 1;
  last_close_price = 1;
  volume = pos 1;
  turnover = 1;
  turnover_rate = 1;
  amplitude = 1;
  dark_status = none;
  option_ex_data = none;
  list_timestamp = none;
  update_timestamp = none;
  pre_market = none;
  after_market = none;
  sec_status = none;
  future_ex_data = none;
  warrant_ex_data = none;
  overnight = none;
}

abbrev ticker : Ticker ℕ
ticker = record {
  time = [];
  sequence = pos 1;
  dir = pos 1;
  price = 1;
  volume = pos 1;
  turnover = 1;
  recv_time = none;
  type = none;
  type_sign = none;
  push_data_type = none;
  timestamp = some 9;
}

abbrev kline : KLine ℕ
kline = record {
  time = [];
  is_blank = false;
  high_price = none;
  open_price = none;
  low_price = none;
  close_price = none;
  last_close_price = none;
  volume = some (pos 5);
  turnover = none;
  turnover_rate = none;
  pe = none;
  change_rate = none;
  timestamp = none;
}

answers_typed_example :
    OrderData (get_order_list_item order)
    × FillData (get_order_fill_list_item order_fill)
    × PositionData (get_position_list_item position)
    × AccountData {F = ℕ} (get_acc_list_item acc)
    × QuoteData (get_basic_qot_item qot)
    × TradeData (get_ticker_item ticker)
    × BarData (get_history_kl_item kline)
answers_typed_example = answers_typed order order_fill position acc qot ticker kline
