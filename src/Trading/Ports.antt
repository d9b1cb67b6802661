-- ===== src/Trading/Ports.antt =====
-- app/modules/trading/domain/ports.py, portfolio_ports.py and events/order.py: what the services
-- use, as interfaces. A port keeps its own state, and its laws are what the services rely on.
use self_learning_trading_ag.Base.{
  ℕ, ◌≡◌, ◌⊎◌, Bool, Option, none, some, List, Text, text_eq, upper, Except, ok, raise,
  if◌then◌else◌,
}
use self_learning_trading_ag.Decimal.{Decimal}
use self_learning_trading_ag.Trading.Order.{OrderStatus, TradeOrder, ValueError, fill}
use self_learning_trading_ag.Trading.Position.{Position}

-- What a repository raises: a stored value that does not parse, a value that a column does not
-- take, or a violated constraint.
pub data StoreError : Type 0 where
  bad_value data_error unique_violation : StoreError

pub record OrderRepository : Type 1 where
  pub Table : Type 0
  pub get_by_client_order_id : Text → Table → Except StoreError (Option TradeOrder)
  pub save : TradeOrder → Table → Except StoreError Table
  -- what the store keeps of an order
  pub stored : TradeOrder → TradeOrder
  pub get-save :
      (o : TradeOrder) (t : Table)
      → get_by_client_order_id o.client_order_id t ≡ ok none
      → ((t' : Table) × (save o t ≡ ok t')
          × (get_by_client_order_id o.client_order_id t' ≡ ok (some (stored o))))
        ⊎ (e : StoreError) × (save o t ≡ raise e)

pub record PositionRepository : Type 1 where
  pub Table : Type 0
  pub get : Text → Table → Except StoreError (Option Position)
  pub save : Position → Table → Except StoreError Table
  pub stored : Position → Position
  pub get-save :
      (s : Text) (p : Position) (t : Table) {t' : Table}
      → save p t ≡ ok t'
      → get s t' ≡ (if text_eq (upper s) (upper p.symbol) then ok (some (stored p)) else get s t)

-- What submitting an order raises; `invalid_operation` is the decimal exception, which is
-- neither a `ValueError` nor a `RuntimeError`.
pub data GatewayError : Type 0 where
  value_error : ValueError → GatewayError
  runtime_error : Text → GatewayError
  invalid_operation : GatewayError

pub record OrderGateway : Type 1 where
  pub Exchange : Type 0
  pub submit_market_order : TradeOrder → Exchange → Except GatewayError TradeOrder × Exchange
  -- a gateway returns the order as it is, or filled
  pub submit-fill :
      (o : TradeOrder) (x : Exchange) {o' : TradeOrder}
      → (submit_market_order o x).0 ≡ ok o'
      → (o' ≡ o) ⊎ ((price : Decimal) × (fill price o ≡ ok o'))

pub record RiskGate : Type 1 where
  pub State : Type 0
  -- symbol, notional, equity
  pub authorize : Text → Decimal → Decimal → State → (Bool × Text) × State

-- The event `OrderStateChanged`.
pub record OrderStateChanged : Type 0 where
  pub order_id : ℕ
  pub status : OrderStatus
  pub symbol : Text

-- `publish` of the publisher: what it raises for an event after those that are published already,
-- if it raises.
pub record EventPublisher : Type 0 where
  pub raises : OrderStateChanged → List OrderStateChanged → Option Text
