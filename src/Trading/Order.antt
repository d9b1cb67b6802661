-- ===== src/Trading/Order.antt =====
-- app/modules/trading/domain/entities/order.py and domain/value_objects/order.py: an order and
-- its state machine. An id and a time stamp are only stored and compared, so they are numbers.
pub mod Lifecycle
use self_learning_trading_ag.Base.{
  ℕ, Bool, true, false, Option, none, some, Text, text, upper, strip, is_empty, Except, ok, raise,
  if◌then◌else◌, ◌>>=◌, ◌>>◌,
}
use self_learning_trading_ag.Decimal.{Decimal, zero_dec, le}

pub data OrderSide : Type 0 where
  buy sell : OrderSide

pub data OrderType : Type 0 where
  market : OrderType

pub data OrderStatus : Type 0 where
  pending filled rejected : OrderStatus

-- `OrderSide.value`
abbrev pub side_value : OrderSide → Text
side_value buy = text "buy"
side_value sell = text "sell"

-- `OrderStatus.value`
abbrev pub status_value : OrderStatus → Text
status_value pending = text "pending"
status_value filled = text "filled"
status_value rejected = text "rejected"

-- The messages of the `ValueError`s that the trading domain raises.
pub data ValueError : Type 0 where
  quantity_not_positive price_not_positive symbol_empty client_order_id_empty : ValueError
  fill_not_pending executed_price_not_positive reject_not_pending : ValueError
  fill_not_positive : ValueError

pub record TradeOrder : Type 0 where
  pub id : ℕ
  pub symbol : Text
  pub side : OrderSide
  pub quantity : Decimal
  pub order_type : OrderType
  pub status : OrderStatus
  pub requested_price : Decimal
  pub executed_price : Option Decimal
  pub client_order_id : Text
  pub created_at : ℕ
  pub rejection_reason : Option Text

abbrev pub raise_if : Bool → ValueError → Except ValueError (Unit {0})
raise_if true e = raise e
raise_if false e = ok tt

abbrev pub is_pending : OrderStatus → Bool
is_pending pending = true
is_pending filled = false
is_pending rejected = false

-- The order that `create` builds once its arguments have passed.
unfoldable pub new_order : ℕ → Text → OrderSide → Decimal → Decimal → Text → ℕ → TradeOrder
new_order id symbol side quantity requested_price client_order_id now = record {
  id = id;
  symbol = upper symbol;
  side = side;
  quantity = quantity;
  order_type = market;
  status = pending;
  requested_price = requested_price;
  executed_price = none;
  client_order_id = client_order_id;
  created_at = now;
  rejection_reason = none;
}

-- `TradeOrder.create`; `id` is what `uuid4()` returned.
unfoldable pub create :
    ℕ → Text → OrderSide → Decimal → Decimal → Text → ℕ → Except ValueError TradeOrder
create id symbol side quantity requested_price client_order_id now = do
  raise_if (le quantity zero_dec) quantity_not_positive
  raise_if (le requested_price zero_dec) price_not_positive
  raise_if (is_empty (strip symbol)) symbol_empty
  raise_if (is_empty (strip client_order_id)) client_order_id_empty
  ok (new_order id symbol side quantity requested_price client_order_id now)

-- `TradeOrder.fill`
unfoldable pub fill : Decimal → TradeOrder → Except ValueError TradeOrder
fill executed_price order =
    if is_pending order.status
    then (if le executed_price zero_dec
        then raise executed_price_not_positive
        else ok (record order { status = filled; executed_price = some executed_price }))
    else raise fill_not_pending

-- `TradeOrder.reject`
unfoldable pub reject : Text → TradeOrder → Except ValueError TradeOrder
reject reason order =
    if is_pending order.status
    then ok (record order { status = rejected; rejection_reason = some reason })
    else raise reject_not_pending
