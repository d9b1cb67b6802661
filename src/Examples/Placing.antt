-- ===== src/Examples/Placing.antt =====
-- The services of the trading slice at concrete stores, over the paper gateway.
use self_learning_trading_ag.Base.{
  ℕ, ◌≡◌, refl, ◌⊎◌, true, false, none, some, [], ◌∷◌, text, raise, ◌&&◌, text_eq, upper, ok,
  upper_code, lstrip, strip,
}
use self_learning_trading_ag.Int.{pos, negsuc, scale_ℤ}
use self_learning_trading_ag.Core.Result.{ok_result, err_result}
use self_learning_trading_ag.Decimal.{Decimal, of_int, zero_dec, lt}
use self_learning_trading_ag.Risk.Store.{get_profile, get_kill_switch}
use self_learning_trading_ag.Risk.Service.{kill_switch}
use self_learning_trading_ag.Trading.Order.{
  market, buy, filled, TradeOrder, create, new_order, fill, reject,
}
use self_learning_trading_ag.Trading.Position.{
  empty, extends, extend, reduce, realized, remaining_average, signed, apply_fill,
}
use self_learning_trading_ag.Trading.Gateways.Paper as Paper
use self_learning_trading_ag.Trading.Gateways.Risk.{position_pct, authorize}
use self_learning_trading_ag.Trading.Ports.{data_error, EventPublisher}
use self_learning_trading_ag.Trading.Repositories.{Columns, takes_text}
use self_learning_trading_ag.Trading.Repositories.Orders as Orders
use self_learning_trading_ag.Trading.Repositories.Orders.Laws.{Fits, order_repository}
use self_learning_trading_ag.Trading.Repositories.Orders.Laws as OrdersLaws
use self_learning_trading_ag.Trading.Repositories.Positions as Positions
use self_learning_trading_ag.Trading.PlaceOrder.{
  PlaceOrderCommand, risk_rejected, store_failed, publish_failed, Ports, World, position_before,
  save_fill, update_position, announce, finish, record_order, after_submit, submit, place, execute,
}
use self_learning_trading_ag.Trading.PlaceOrder.Outcomes.{SameBooks, Unapplied, Handled}
use self_learning_trading_ag.Trading.PlaceOrder.Laws.{execute-Handled, execute-idempotent}
use self_learning_trading_ag.Trading.PlaceOrder.Retry.{execute-retry}
use self_learning_trading_ag.Trading.PlaceOrder.Gate.{
  guarded, execute-kill_switch, execute-within, authorize-nonneg,
}
use self_learning_trading_ag.Examples.Risk.{
  risk_program, codecs, calm, dump_switch, validate_switch,
}

-- Named by what runs the services.
program : Unit {0}
unfolding risk_program lt scale_ℤ dump_switch validate_switch text_eq upper upper_code lstrip strip
    create new_order fill reject empty extends extend reduce realized remaining_average signed
    apply_fill Paper.submit_market_order position_pct authorize Orders.get_by_client_order_id
    Orders.save Orders.find_client Orders.find_id Orders.load Orders.is_taken Orders.takes
    Orders.kept takes_text Orders.to_row Orders.to_domain Orders.parse_side Orders.parse_type
    Orders.parse_status Orders.replace_row Orders.stored Positions.get Positions.save Positions.find
    Positions.put_row Positions.takes Positions.kept Positions.to_row Positions.to_domain
    position_before save_fill update_position announce finish record_order after_submit submit place
    execute
program = tt

abbrev pub dec : ℕ → Decimal
dec n = of_int (pos n)

-- Columns that keep every amount, below 10 ^ 20 in size.
abbrev exact : Columns
exact = record {
  takes_decimal =
      λ a. lt a (of_int (pos 100000000000000000000)) && lt (of_int (negsuc 99999999999999999999)) a;
  numeric = λ a. a;
  takes_time = λ t. true;
}

-- A publisher that never raises.
abbrev quiet : EventPublisher
quiet = record { raises = λ e es. none }

abbrev pub ports : Ports
ports =
    guarded codecs (order_repository exact) Paper.paper_gateway
      (Positions.position_repository exact) quiet

abbrev pub start : World ports
start = record { orders = []; exchange = tt; risk = calm; positions = []; events = [] }

-- tests/unit/test_trading_place_order.py
abbrev demo : PlaceOrderCommand
demo = record {
  symbol = text "btc/usdt";
  side = buy;
  quantity = record { coeff = pos 1; scale = 1 };
  price = dec 100;
  client_order_id = text "demo-1";
  equity = dec 10000;
}

abbrev demo_order : TradeOrder
demo_order = record {
  id = 7;
  symbol = text "BTC/USDT";
  side = buy;
  quantity = record { coeff = pos 1; scale = 1 };
  order_type = market;
  status = filled;
  requested_price = dec 100;
  executed_price = some (record { coeff = pos 10000000000; scale = 8 });
  client_order_id = text "demo-1";
  created_at = 5;
  rejection_reason = none;
}

placed_test : (execute ports 7 5 demo start).0 ≡ ok (ok_result demo_order)
unfolding program
placed_test = refl

-- The world after the order has been placed.
abbrev done_world : World ports
done_world = (execute ports 7 5 demo start).1

-- The same client's order id, with another amount.
abbrev again : PlaceOrderCommand
again = record demo { quantity = dec 3 }

execute-idempotent_example :
    (o' : TradeOrder) × (execute ports 8 6 again done_world ≡ (ok (ok_result o'), done_world))
    × ((o' ≡ demo_order) ⊎ (o' ≡ Orders.stored exact demo_order))
unfolding program
execute-idempotent_example =
    execute-idempotent ports 7 5 8 6 demo again start done_world demo_order refl refl

execute-Handled_example : Handled ports 7 5 demo start (execute ports 7 5 demo start)
unfolding program
execute-Handled_example = execute-Handled ports 7 5 demo start refl

-- The kill switch is set before the command arrives.
abbrev halted : World ports
halted = record start { risk = (kill_switch codecs true (some (text "halt")) calm).1 }

execute-kill_switch_example :
    execute ports 7 5 demo halted
    ≡ (ok (err_result (risk_rejected (text "kill_switch: halt"))), halted)
unfolding program
execute-kill_switch_example =
    execute-kill_switch codecs (order_repository exact) Paper.paper_gateway
      (Positions.position_repository exact) quiet 7 5 demo halted refl refl

execute-within_example :
    ((get_kill_switch codecs calm.redis).active ≡ false)
    × (lt (get_profile codecs calm.redis).max_position_pct (position_pct (dec 10) (dec 10000))
        ≡ false)
    × (((get_profile codecs calm.redis).allow_leverage ≡ true)
        ⊎ (lt (dec 1) (position_pct (dec 10) (dec 10000)) ≡ false))
unfolding program
execute-within_example =
    execute-within codecs (order_repository exact) Paper.paper_gateway
      (Positions.position_repository exact) quiet 7 5 demo start refl {o = demo_order}
      {w' = done_world} refl

authorize-nonneg_example :
    ((authorize codecs (text "BTC/USDT") (dec 2000) (dec 10000) calm).0.0 ≡ false)
    × ((authorize codecs (text "BTC/USDT") (dec 2000) (dec 10000) calm).1 ≡ calm)
unfolding program
authorize-nonneg_example =
    authorize-nonneg codecs (text "BTC/USDT") (dec 2000) (dec 10000) calm refl refl

get_by_client_order_id-save_example :
    Fits exact demo_order × OrdersLaws.Kept exact demo_order []
    ⊎ (¬ Fits exact demo_order) × (Orders.save exact demo_order [] ≡ raise data_error)
unfolding program
get_by_client_order_id-save_example =
    OrdersLaws.get_by_client_order_id-save exact demo_order [] refl

-- A position that the next purchase makes too large for its column.
abbrev full : World ports
full = record start {
  positions =
      (record {
        symbol = text "BTC/USDT";
        quantity = record { coeff = pos 9999999999999999999995; scale = 2 };
        average_entry_price = dec 100;
        realized_pnl = zero_dec;
      })
      ∷ [];
}

overflow_test : (execute ports 7 5 demo full).0 ≡ raise (store_failed data_error)
unfolding program
overflow_test = refl

-- The world after the position was too large.
abbrev stuck : World ports
stuck = (execute ports 7 5 demo full).1

execute-retry_example :
    SameBooks ports full stuck
    ⊎ ((o : TradeOrder) × Unapplied ports 7 5 demo full o data_error stuck
        × (execute ports 8 6 again stuck ≡ (ok (ok_result (Orders.stored exact o)), stuck)))
unfolding program
execute-retry_example = execute-retry ports 7 5 8 6 demo again full stuck data_error refl refl refl

-- A publisher that always raises.
abbrev unheard : Ports
unheard = record ports { publisher = record { raises = λ e es. some (text "down") } }

unheard_test :
    (execute unheard 7 5 demo
      (record { orders = []; exchange = tt; risk = calm; positions = []; events = [] })).0
    ≡ raise (publish_failed (text "down"))
unfolding program
unheard_test = refl

-- Columns that take no time of the clock.
abbrev timeless : Columns
timeless = record exact { takes_time = λ t. false }

refused_test : Orders.save timeless demo_order [] ≡ raise data_error
unfolding program
refused_test = refl
