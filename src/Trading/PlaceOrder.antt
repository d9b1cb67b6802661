-- ===== src/Trading/PlaceOrder.antt =====
-- app/modules/trading/application/services/place_order.py and commands/place_order.py: the
-- service that places an order, over the ports.
--
-- One run of `execute` is modelled from its start to its end: between its awaits no other request
-- runs. `id` is what `uuid4()` returns, `now` what the clock returns.
pub mod Outcomes
pub mod Updates
pub mod Laws
pub mod Retry
pub mod Gate
use self_learning_trading_ag.Base.{
  ℕ, Bool, true, false, Option, none, some, List, [], ◌∷◌, ◌++◌, Text, text, text_eq, Except, ok,
  raise, if◌then◌else◌,
}
use self_learning_trading_ag.Core.Result.{Result, ok_result, err_result}
use self_learning_trading_ag.Decimal.{Decimal, mul}
use self_learning_trading_ag.Trading.Order.{
  OrderSide, OrderStatus, filled, TradeOrder, ValueError, create, side_value,
}
use self_learning_trading_ag.Trading.Position.{Position, FillError, empty, apply_fill}
use self_learning_trading_ag.Trading.Ports.{
  StoreError, OrderRepository, PositionRepository, GatewayError, value_error, runtime_error,
  invalid_operation, OrderGateway, RiskGate, OrderStateChanged, EventPublisher,
}

pub record PlaceOrderCommand : Type 0 where
  pub symbol : Text
  pub side : OrderSide
  pub quantity : Decimal
  pub price : Decimal
  pub client_order_id : Text
  pub equity : Decimal

-- The texts that `execute` returns as errors.
pub data Failure : Type 0 where
  risk_rejected : (reason : Text) → Failure
  invalid_order : ValueError → Failure
  exchange_failed : (message : Text) → Failure

-- The exceptions that leave `execute`.
pub data Escape : Type 0 where
  store_failed : StoreError → Escape
  decimal_failed : Escape
  fill_failed : FillError → Escape
  publish_failed : (message : Text) → Escape

-- The collaborators of the service.
pub record Ports : Type 1 where
  pub orders : OrderRepository
  pub gateway : OrderGateway
  pub risk : RiskGate
  pub positions : PositionRepository
  pub publisher : EventPublisher

-- Their states, and the events published so far, the newest last.
pub record World (p : Ports) : Type 0 where
  pub orders : p.orders.Table
  pub exchange : p.gateway.Exchange
  pub risk : p.risk.State
  pub positions : p.positions.Table
  pub events : List OrderStateChanged

abbrev pub is_filled : OrderStatus → Bool
is_filled filled = true
is_filled OrderStatus.pending = false
is_filled OrderStatus.rejected = false

-- The event for an order.
abbrev pub changed : TradeOrder → OrderStateChanged
changed o = record { order_id = o.id; status = o.status; symbol = o.symbol }

module _ (p : Ports) where
  abbrev pub Outcome : Type 0
  Outcome = Except Escape (Result TradeOrder Failure) × World p

  -- The position that a fill of the symbol starts from.
  unfoldable pub position_before : Text → p.positions.Table → Except Escape Position
  position_before symbol t = elim (p.positions.get symbol t) [
    | raise e ↦ raise (store_failed e)
    | ok found ↦ elim found [ none ↦ ok (empty symbol) | some position ↦ ok position ]
  ]

  -- The position after a fill, saved.
  unfoldable pub save_fill :
      TradeOrder → Decimal → Position → p.positions.Table → Except Escape p.positions.Table
  save_fill o price before t = elim (apply_fill (side_value o.side) o.quantity price before) [
    | raise e ↦ raise (fill_failed e)
    | ok position ↦ elim (p.positions.save position t) [
      | raise e ↦ raise (store_failed e)
      | ok t' ↦ ok t'
    ]
  ]

  -- The new table of positions after an order, if there is anything to apply.
  unfoldable pub update_position : TradeOrder → p.positions.Table → Except Escape p.positions.Table
  update_position o t = elim o.executed_price [
    | none ↦ ok t
    | some price ↦
        if is_filled o.status
        then elim (position_before o.symbol t) [
          | raise e ↦ raise e
          | ok before ↦ save_fill o price before t
        ]
        else ok t
  ]

  -- From the publication of the event to the return.
  unfoldable pub announce : TradeOrder → World p → Outcome
  announce submitted w = elim (p.publisher.raises (changed submitted) w.events) [
    | some message ↦ (raise (publish_failed message), w)
    | none ↦ (ok (ok_result submitted), record w { events = w.events ++ (changed submitted ∷ []) })
  ]

  -- From the update of the position to the return.
  unfoldable pub finish : TradeOrder → World p → Outcome
  finish submitted w = elim (update_position submitted w.positions) [
    | raise e ↦ (raise e, w)
    | ok positions ↦ announce submitted (record w { positions = positions })
  ]

  -- From the saving of the submitted order.
  unfoldable pub record_order : TradeOrder → World p → Outcome
  record_order submitted w = elim (p.orders.save submitted w.orders) [
    | raise e ↦ (raise (store_failed e), w)
    | ok orders ↦ finish submitted (record w { orders = orders })
  ]

  -- The `except (ValueError, RuntimeError)` round the submission, and what follows it.
  unfoldable pub after_submit : Except GatewayError TradeOrder → World p → Outcome
  after_submit (ok submitted) w = record_order submitted w
  after_submit (raise (value_error e)) w = (ok (err_result (invalid_order e)), w)
  after_submit (raise (runtime_error message)) w = (ok (err_result (exchange_failed message)), w)
  after_submit (raise invalid_operation) w = (raise decimal_failed, w)

  unfoldable pub submit : Except ValueError TradeOrder → World p → Outcome
  submit (raise e) w = (ok (err_result (invalid_order e)), w)
  submit (ok order) w =
      let (r, exchange) = p.gateway.submit_market_order order w.exchange in
      after_submit r (record w { exchange = exchange })

  -- A command whose client's order id is new.
  unfoldable pub place : (id now : ℕ) → PlaceOrderCommand → World p → Outcome
  place id now c w =
      let ((allowed, reason), risk) =
        p.risk.authorize c.symbol (mul c.quantity c.price) c.equity w.risk in
      let w' : World p = record w { risk = risk } in
      if allowed
      then submit (create id c.symbol c.side c.quantity c.price c.client_order_id now) w'
      else (ok (err_result (risk_rejected reason)), w')

  -- `PlaceOrderService.execute`
  unfoldable pub execute : (id now : ℕ) → PlaceOrderCommand → World p → Outcome
  execute id now c w = elim (p.orders.get_by_client_order_id c.client_order_id w.orders) [
    | raise e ↦ (raise (store_failed e), w)
    | ok existing ↦ elim existing [
      | some order ↦ (ok (ok_result order), w)
      | none ↦ place id now c w
    ]
  ]
