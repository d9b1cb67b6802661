-- ===== src/Trading/PlaceOrder/Outcomes.antt =====
-- How `execute` can end for a command with a new client's order id.
use self_learning_trading_ag.Base.{ℕ, ◌≡◌, ◌⊎◌, some, [], ◌∷◌, ◌++◌, Text, ok, raise}
use self_learning_trading_ag.Core.Result.{ok_result, err_result}
use self_learning_trading_ag.Decimal.{Decimal}
use self_learning_trading_ag.Trading.Order.{TradeOrder, create, fill}
use self_learning_trading_ag.Trading.Ports.{StoreError}
use self_learning_trading_ag.Trading.PlaceOrder.{
  PlaceOrderCommand, Failure, store_failed, decimal_failed, publish_failed, Ports, World, Outcome,
  changed, update_position,
}

module _ (p : Ports) where
  -- Nothing that the books hold has changed.
  abbrev pub SameBooks : World p → World p → Type 0
  SameBooks w w' = (w'.orders ≡ w.orders) × (w'.positions ≡ w.positions) × (w'.events ≡ w.events)

  -- A gateway has returned the created order as it was, or filled.
  abbrev pub Submitted : TradeOrder → TradeOrder → Type 0
  Submitted created o = (o ≡ created) ⊎ ((price : Decimal) × (fill price created ≡ ok o))

  -- The order o has been placed: it was created from the command and submitted, it is saved, its
  -- fill is in the positions, and one event tells of it.
  abbrev pub Placed : ℕ → ℕ → PlaceOrderCommand → World p → TradeOrder → World p → Type 0
  Placed id now c w o w' =
      (created : TradeOrder) × (create id c.symbol c.side c.quantity c.price c.client_order_id now
        ≡ ok created)
      × Submitted created o
      × (p.orders.save o w.orders ≡ ok w'.orders)
      × (update_position p o w.positions ≡ ok w'.positions)
      × (w'.events ≡ w.events ++ (changed o ∷ []))

  -- The order o is saved, but the store of the positions has raised e: its fill is in no position,
  -- and no event tells of it.
  abbrev pub Unapplied :
      ℕ → ℕ → PlaceOrderCommand → World p → TradeOrder → StoreError → World p → Type 0
  Unapplied id now c w o e w' =
      (created : TradeOrder) × (create id c.symbol c.side c.quantity c.price c.client_order_id now
        ≡ ok created)
      × Submitted created o
      × (p.orders.save o w.orders ≡ ok w'.orders)
      × (update_position p o w.positions ≡ raise (store_failed e))
      × (w'.positions ≡ w.positions)
      × (w'.events ≡ w.events)

  -- The order o is saved and its fill is in the positions, but publishing its event has raised.
  abbrev pub Untold : ℕ → ℕ → PlaceOrderCommand → World p → TradeOrder → Text → World p → Type 0
  Untold id now c w o message w' =
      (created : TradeOrder) × (create id c.symbol c.side c.quantity c.price c.client_order_id now
        ≡ ok created)
      × Submitted created o
      × (p.orders.save o w.orders ≡ ok w'.orders)
      × (update_position p o w.positions ≡ ok w'.positions)
      × (p.publisher.raises (changed o) w.events ≡ some message)
      × (w'.events ≡ w.events)

  -- The outcomes of a command with a new client's order id.
  pub data Handled (id now : ℕ) (c : PlaceOrderCommand) (w : World p) : Outcome p → Type 0 where
    placed :
        (o : TradeOrder) (w' : World p)
        → Placed id now c w o w'
        → Handled id now c w (ok (ok_result o), w')
    failed :
        (f : Failure) (w' : World p) → SameBooks w w' → Handled id now c w (ok (err_result f), w')
    escaped : (w' : World p) → SameBooks w w' → Handled id now c w (raise decimal_failed, w')
    unsaved :
        (o : TradeOrder) (e : StoreError) (w' : World p)
        → p.orders.save o w.orders ≡ raise e
        → SameBooks w w'
        → Handled id now c w (raise (store_failed e), w')
    unapplied :
        (o : TradeOrder) (e : StoreError) (w' : World p)
        → Unapplied id now c w o e w'
        → Handled id now c w (raise (store_failed e), w')
    untold :
        (o : TradeOrder) (message : Text) (w' : World p)
        → Untold id now c w o message w'
        → Handled id now c w (raise (publish_failed message), w')
