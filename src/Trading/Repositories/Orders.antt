-- ===== src/Trading/Repositories/Orders.antt =====
-- app/modules/trading/infrastructure/repositories/postgres_order.py
--
-- A table is the list of its rows. A call sees the table between the transactions of others, and
-- the database answers it. A text that is too long for its column is refused; PostgreSQL shortens
-- it instead if nothing but spaces is too much, which is not modelled.
pub mod Laws
use self_learning_trading_ag.Base.{
  ℕ, Bool, true, false, not, ◌&&◌, ◌||◌, Option, none, some, List, [], ◌∷◌, ◌++◌, Text, text,
  text_eq, Except, ok, raise, ◌>>=◌, ◌==◌, if◌then◌else◌,
}
use mathlib.Core.Option
use self_learning_trading_ag.Decimal.{Decimal}
use self_learning_trading_ag.Trading.Order.{
  OrderSide, buy, sell, OrderType, market, OrderStatus, pending, filled, rejected, side_value,
  status_value, TradeOrder,
}
use self_learning_trading_ag.Trading.Ports.{StoreError, bad_value, data_error, unique_violation}
use self_learning_trading_ag.Trading.Repositories.{Columns, takes_text, takes_null}

pub record TradeOrderRow : Type 0 where
  pub id : ℕ
  pub symbol : Text
  pub side : Text
  pub quantity : Decimal
  pub order_type : Text
  pub status : Text
  pub requested_price : Decimal
  pub executed_price : Option Decimal
  pub client_order_id : Text
  pub created_at : ℕ
  pub rejection_reason : Option Text

-- `OrderType.value`
abbrev pub type_value : OrderType → Text
type_value market = text "market"

-- `OrderSide(value)`, `OrderType(value)` and `OrderStatus(value)` raise on any other text.
unfoldable pub parse_side : Text → Except StoreError OrderSide
parse_side value =
    if text_eq value (text "buy")
    then ok buy
    else if text_eq value (text "sell")
    then ok sell
    else raise bad_value

unfoldable pub parse_type : Text → Except StoreError OrderType
parse_type value = if text_eq value (text "market") then ok market else raise bad_value

unfoldable pub parse_status : Text → Except StoreError OrderStatus
parse_status value =
    if text_eq value (text "pending")
    then ok pending
    else if text_eq value (text "filled")
    then ok filled
    else if text_eq value (text "rejected")
    then ok rejected
    else raise bad_value

-- `_to_domain`
unfoldable pub to_domain : TradeOrderRow → Except StoreError TradeOrder
to_domain row = do
  side ← parse_side row.side
  order_type ← parse_type row.order_type
  status ← parse_status row.status
  ok (record {
    id = row.id;
    symbol = row.symbol;
    side = side;
    quantity = row.quantity;
    order_type = order_type;
    status = status;
    requested_price = row.requested_price;
    executed_price = row.executed_price;
    client_order_id = row.client_order_id;
    created_at = row.created_at;
    rejection_reason = row.rejection_reason;
  })

abbrev pub Table : Type 0
Table = List TradeOrderRow

-- `session.get(TradeOrderRow, order_id)`
unfoldable pub find_id : ℕ → Table → Option TradeOrderRow
find_id id [] = none
find_id id (row ∷ t) = if row.id == id then some row else find_id id t

-- `select(TradeOrderRow).where(TradeOrderRow.client_order_id == client_order_id)`
unfoldable pub find_client : Text → Table → Option TradeOrderRow
find_client c [] = none
find_client c (row ∷ t) = if text_eq row.client_order_id c then some row else find_client c t

-- The row if there is one, as an order.
unfoldable pub load : Option TradeOrderRow → Except StoreError (Option TradeOrder)
load none = ok none
load (some row) = do order ← to_domain row; ok (some order)

unfoldable pub get : ℕ → Table → Except StoreError (Option TradeOrder)
get order_id t = load (find_id order_id t)

unfoldable pub get_by_client_order_id : Text → Table → Except StoreError (Option TradeOrder)
get_by_client_order_id client_order_id t = load (find_client client_order_id t)

-- The table with a new row at the id of an old one.
unfoldable pub replace_row : TradeOrderRow → Table → Table
replace_row new [] = []
replace_row new (row ∷ t) = (if row.id == new.id then new else row) ∷ replace_row new t

-- Whether a row of another id has the client's order id, which is unique.
unfoldable pub is_taken : TradeOrderRow → Table → Bool
is_taken new [] = false
is_taken new (row ∷ t) =
    (not (row.id == new.id) && text_eq row.client_order_id new.client_order_id) || is_taken new t

-- `_to_row`
unfoldable pub to_row : TradeOrder → TradeOrderRow
to_row order = record {
  id = order.id;
  symbol = order.symbol;
  side = side_value order.side;
  quantity = order.quantity;
  order_type = type_value order.order_type;
  status = status_value order.status;
  requested_price = order.requested_price;
  executed_price = order.executed_price;
  client_order_id = order.client_order_id;
  created_at = order.created_at;
  rejection_reason = order.rejection_reason;
}

module _ (c : Columns) where
  -- Whether every column takes its value; the texts of an enum are short.
  unfoldable pub takes : TradeOrderRow → Bool
  takes row =
      takes_text 32 row.symbol
      && c.takes_decimal row.quantity
      && c.takes_decimal row.requested_price
      && takes_null c.takes_decimal row.executed_price
      && takes_text 128 row.client_order_id
      && c.takes_time row.created_at
      && takes_null (takes_text 512) row.rejection_reason

  -- What the columns keep of a row that they take.
  unfoldable pub kept : TradeOrderRow → TradeOrderRow
  kept row = record row {
    quantity = c.numeric row.quantity;
    requested_price = c.numeric row.requested_price;
    executed_price = Option.map c.numeric row.executed_price;
  }

  -- `save`: inserts a row or updates the row of the id in each of its columns. The database raises
  -- for a value that a column does not take, and for a client's order id of another order.
  unfoldable pub save : TradeOrder → Table → Except StoreError Table
  save order t =
      let row = kept (to_row order) in
      if takes (to_row order)
      then if is_taken row t
        then raise unique_violation
        else ok (elim (find_id order.id t) [ none ↦ t ++ (row ∷ []) | some _ ↦ replace_row row t ])
      else raise data_error

  -- What a saved order is when it is read again.
  unfoldable pub stored : TradeOrder → TradeOrder
  stored order = record order {
    quantity = c.numeric order.quantity;
    requested_price = c.numeric order.requested_price;
    executed_price = Option.map c.numeric order.executed_price;
  }
