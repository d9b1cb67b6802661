-- ===== src/Examples/Trading.antt =====
-- app/modules/trading at concrete orders, positions and commands.
use self_learning_trading_ag.Base.{
  ℕ, ◌≡◌, refl, ◌⊎◌, Bool, true, false, ◌&&◌, none, some, Text, text, text_eq, upper, Except, ok,
  raise, arith, upper_code, lstrip, strip,
}
use self_learning_trading_ag.Int.{pos}
use self_learning_trading_ag.Decimal.{Decimal, of_int, zero_dec, lt, eq, add, decimals}
use self_learning_trading_ag.Trading.Order.{
  market, buy, pending, filled, TradeOrder, create, new_order, fill, reject,
}
use self_learning_trading_ag.Trading.Order.Lifecycle.{
  IsWellFormed, SameOrder, here, next, Step, fills, create-lifecycle,
}
use self_learning_trading_ag.Trading.Position.{
  Position, FillError, empty, extends, extend, reduce, realized, remaining_average, signed,
  apply_fill,
}
use self_learning_trading_ag.Trading.Position.Laws.{IsValid, apply_fill-IsValid}
use self_learning_trading_ag.Trading.Position.Profit.{realized-sign, buy-sell}

-- Named by what runs the trading slice.
program : Unit {0}
unfolding decimals text_eq upper upper_code lstrip strip create new_order fill reject empty extends
    extend reduce realized remaining_average signed apply_fill
program = tt

abbrev dec : ℕ → Decimal
dec n = of_int (pos n)

abbrev btc : Text
btc = text "BTC/USDT"

-- tests/unit/test_position.py
abbrev held : Position
held = record {
  symbol = btc;
  quantity = dec 2;
  average_entry_price = dec 100;
  realized_pnl = zero_dec;
}

-- Whether a fill has led to a position, by the values of its amounts.
leads_to : Except FillError Position → Position → Bool
leads_to (ok p) q =
    eq p.quantity q.quantity
    && eq p.average_entry_price q.average_entry_price
    && eq p.realized_pnl q.realized_pnl
leads_to (raise e) q = false

buy_opens_test : leads_to (apply_fill (text "buy") (dec 2) (dec 100) (empty btc)) held ≡ true
unfolding program leads_to
buy_opens_test = refl

partial_sell_test :
    apply_fill (text "sell") (dec 1) (dec 120) held
    ≡ ok (record held { quantity = dec 1; realized_pnl = dec 20 })
unfolding program
partial_sell_test = refl

apply_fill-IsValid_example :
    (p' : Position) × (apply_fill (text "sell") (dec 3) (dec 120) held ≡ ok p')
    × (p'.quantity ≡ add (dec 2) (signed (text "sell") (dec 3)))
    × (p'.symbol ≡ btc)
    × (IsValid held → IsValid p')
unfolding program
apply_fill-IsValid_example = apply_fill-IsValid (text "sell") (dec 3) (dec 120) held refl refl

realized-sign_example :
    (lt zero_dec (realized (dec 1) (dec 120) held) ≡ true)
    × (lt (realized (dec 1) (dec 120) held) zero_dec ≡ false)
unfolding program
realized-sign_example = realized-sign (dec 1) (dec 120) held refl (λ e. cc)

buy-sell_example :
    (opened : Position) × (closed : Position) × (apply_fill
        (text "buy")
        (dec 2)
        (dec 100)
        (empty btc)
      ≡ ok opened)
    × (apply_fill (text "sell") (dec 2) (dec 95) opened ≡ ok closed)
    × (eq closed.quantity zero_dec ≡ true)
    × (closed.average_entry_price ≡ zero_dec)
    × (lt zero_dec closed.realized_pnl ≡ lt opened.average_entry_price (dec 95))
    × (lt closed.realized_pnl zero_dec ≡ lt (dec 95) opened.average_entry_price)
unfolding program
buy-sell_example = buy-sell btc (dec 2) (dec 100) (dec 95) refl refl refl (omega arith)

abbrev order : TradeOrder
order = record {
  id = 7;
  symbol = btc;
  side = buy;
  quantity = dec 2;
  order_type = market;
  status = pending;
  requested_price = dec 100;
  executed_price = none;
  client_order_id = text "demo-1";
  created_at = 5;
  rejection_reason = none;
}

abbrev filled_order : TradeOrder
filled_order = record order { status = filled; executed_price = some (dec 101) }

create-lifecycle_example :
    IsWellFormed filled_order
    × SameOrder order filled_order
    × ((filled_order ≡ order)
        ⊎ (Step order filled_order × ((q : TradeOrder) → ¬ Step filled_order q)))
unfolding program
create-lifecycle_example =
    create-lifecycle 7 (text "btc/usdt") buy (dec 2) (dec 100) (text "demo-1") 5 {o = order} refl
      (next here (fills (dec 101) refl))
