-- ===== src/Trading/Gateways/Paper.antt =====
-- app/modules/trading/infrastructure/gateways/paper.py: execution at the requested price.
use self_learning_trading_ag.Base.{
  ◌≡◌, ◌⊎◌, inl, inr, none, some, Except, ok, raise, arith, Option-cases,
}
use self_learning_trading_ag.Decimal.{Decimal, quantize}
use self_learning_trading_ag.Trading.Order.{TradeOrder, ValueError, fill}
use self_learning_trading_ag.Trading.Ports.{
  GatewayError, value_error, invalid_operation, OrderGateway,
}

-- A `ValueError` of the order, as the gateway lets it through.
abbrev pub lift : Except ValueError TradeOrder → Except GatewayError TradeOrder
lift (ok o) = ok o
lift (raise e) = raise (value_error e)

pub lift-ok : {r : Except ValueError TradeOrder} {o : TradeOrder} → lift r ≡ ok o → r ≡ ok o
lift-ok {r} h = by_result r h
  where
    by_result : (r : Except ValueError TradeOrder) {o : TradeOrder} → lift r ≡ ok o → r ≡ ok o
    by_result (ok o) h = cc
    by_result (raise e) h = cc

-- `PaperOrderGateway.submit_market_order`
unfoldable pub submit_market_order :
    TradeOrder → Unit {0} → Except GatewayError TradeOrder × Unit {0}
submit_market_order order x = elim (quantize 8 order.requested_price) [
  | none ↦ (raise invalid_operation, x)
  | some executed_price ↦ (lift (fill executed_price order), x)
]

pub submit-fill :
    (o : TradeOrder) (x : Unit {0}) {o' : TradeOrder}
    → (submit_market_order o x).0 ≡ ok o'
    → (o' ≡ o) ⊎ ((price : Decimal) × (fill price o ≡ ok o'))
unfolding submit_market_order
submit-fill o x h = elim (Option-cases (quantize 8 o.requested_price)) [
  | inl e ↦ absurd (ground arith)
  | inr (price, e) ↦ inr (price, lift-ok (rw (e, submit_market_order) at h))
]

abbrev pub paper_gateway : OrderGateway
paper_gateway = record {
  Exchange = Unit;
  submit_market_order = submit_market_order;
  submit-fill = submit-fill;
}
