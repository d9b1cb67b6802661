-- ===== src/Trading/Gateways/Ccxt.antt =====
-- app/modules/trading/infrastructure/gateways/ccxt_order.py, and ccxt_gateway.py, which is the
-- same text: execution on an exchange through the library ccxt.
--
-- The exchange is a parameter: a state, and what `create_order` answers. `float(order.quantity)`
-- is the quantity here, and an amount in an answer is read as a decimal.
use self_learning_trading_ag.Base.{
  ◌≡◌, ◌⊎◌, inl, inr, Bool, ◌||◌, Option, none, some, [], Text, text, text_eq, lower, ◌++◌, Except,
  ok, raise, arith, if◌then◌else◌, Bool-cases,
}
use self_learning_trading_ag.Decimal.{Decimal, zero_dec, lt, is_zero}
use self_learning_trading_ag.Trading.Order.{TradeOrder, fill, side_value}
use self_learning_trading_ag.Trading.Ports.{GatewayError, runtime_error, OrderGateway}
use self_learning_trading_ag.Trading.Gateways.Paper.{lift, lift-ok}

-- The keys of an answer that the gateway reads.
pub record OrderAnswer : Type 0 where
  pub status : Option Text
  pub filled : Option Decimal
  pub average : Option Decimal
  pub price : Option Decimal

-- An exchange: `create_order(symbol, "market", side, amount)` answers, or raises an exception
-- with a type name.
pub record ExchangeClient : Type 1 where
  pub State : Type 0
  pub create_order : Text → Text → Text → Decimal → State → Except Text OrderAnswer × State

-- `first or second`, where a missing amount and zero both count as false.
abbrev pub amount_or : Option Decimal → Decimal → Decimal
amount_or none second = second
amount_or (some first) second = if is_zero first then second else first

-- `str(value or "").lower()`
abbrev pub status_text : Option Text → Text
status_text none = []
status_text (some status) = lower status

-- Whether the exchange says that the order has been executed.
unfoldable pub is_executed : OrderAnswer → Bool
is_executed answer =
    let status = status_text answer.status in
    text_eq status (text "closed")
    || text_eq status (text "filled")
    || lt zero_dec (amount_or answer.filled zero_dec)

-- The price of the execution.
unfoldable pub average_price : TradeOrder → OrderAnswer → Decimal
average_price order answer = amount_or answer.average (amount_or answer.price order.requested_price)

-- What the gateway does with an answer.
unfoldable pub settle : TradeOrder → OrderAnswer → Except GatewayError TradeOrder
settle order answer =
    if is_executed answer then lift (fill (average_price order answer) order) else ok order

-- The `try` round the call: any exception of the exchange becomes a `RuntimeError`.
abbrev pub answer_result : TradeOrder → Except Text OrderAnswer → Except GatewayError TradeOrder
answer_result order (raise name) = raise (runtime_error (text "exchange_order_failed:" ++ name))
answer_result order (ok result) = settle order result

module _ (client : ExchangeClient) where
  -- `CcxtOrderGateway.submit_market_order`
  unfoldable pub submit_market_order :
      TradeOrder → client.State → Except GatewayError TradeOrder × client.State
  submit_market_order order x =
      let (answer, x') =
        client.create_order order.symbol (text "market") (side_value order.side) order.quantity x in
      (answer_result order answer, x')

settle-fill :
    (o : TradeOrder) (answer : OrderAnswer) {o' : TradeOrder}
    → settle o answer ≡ ok o'
    → (o' ≡ o) ⊎ ((price : Decimal) × (fill price o ≡ ok o'))
unfolding settle
settle-fill o answer h = elim (Bool-cases (is_executed answer)) [
  | inl e ↦ inr (average_price o answer, lift-ok (rw (e, settle) at h))
  | inr e ↦ inl (ground arith)
]

module _ (client : ExchangeClient) where
  pub submit-fill :
      (o : TradeOrder) (x : client.State) {o' : TradeOrder}
      → (submit_market_order client o x).0 ≡ ok o'
      → (o' ≡ o) ⊎ ((price : Decimal) × (fill price o ≡ ok o'))
  unfolding submit_market_order
  submit-fill o x h =
      by_answer (client.create_order o.symbol (text "market") (side_value o.side) o.quantity x).0 h
    where
      by_answer :
          (answer : Except Text OrderAnswer) {o' : TradeOrder}
          → answer_result o answer ≡ ok o'
          → (o' ≡ o) ⊎ ((price : Decimal) × (fill price o ≡ ok o'))
      by_answer (raise name) h = cc
      by_answer (ok result) h = settle-fill o result h

  abbrev pub ccxt_gateway : OrderGateway
  ccxt_gateway = record {
    Exchange = client.State;
    submit_market_order = submit_market_order client;
    submit-fill = submit-fill;
  }
