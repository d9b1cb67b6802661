-- ===== src/Trading/PlaceOrder/Retry.antt =====
-- What a command leaves behind when a store fails, and what sending it again does.
use self_learning_trading_ag.Base.{ℕ, ◌≡◌, ◌⊎◌, inl, inr, none, ok, raise}
use self_learning_trading_ag.Core.Result.{ok_result}
use self_learning_trading_ag.Trading.Order.{TradeOrder}
use self_learning_trading_ag.Trading.Ports.{StoreError}
use self_learning_trading_ag.Trading.PlaceOrder.{
  PlaceOrderCommand, store_failed, Ports, World, Outcome, execute,
}
use self_learning_trading_ag.Trading.PlaceOrder.Outcomes.{
  SameBooks, Unapplied, Handled, placed, failed, escaped, unsaved, unapplied, untold,
}
use self_learning_trading_ag.Trading.PlaceOrder.Laws.{
  Submitted-IsWellFormed, execute-Handled, execute-found,
}

module _ (p : Ports) where
  -- A command with a new client's order id from which an exception of a store escapes leaves the
  -- orders, the positions and the events as they were; or it leaves an order saved whose fill is in
  -- no position and of which no event tells, and then every command that is sent again under the
  -- same client's order id returns that order, and changes nothing: its fill is never applied.
  pub execute-retry :
      (id now id' now' : ℕ) (c c' : PlaceOrderCommand) (w w' : World p) (e : StoreError)
      → p.orders.get_by_client_order_id c.client_order_id w.orders ≡ ok none
      → execute p id now c w ≡ (raise (store_failed e), w')
      → c'.client_order_id ≡ c.client_order_id
      → SameBooks p w w'
        ⊎ ((o : TradeOrder) × Unapplied p id now c w o e w'
            × (execute p id' now' c' w' ≡ (ok (ok_result (p.orders.stored o)), w')))
  execute-retry id now id' now' c c' w w' e fresh failed_with same =
      by_outcome (execute-Handled p id now c w fresh) failed_with
    where
      again :
          (o : TradeOrder)
          → Unapplied p id now c w o e w'
          → execute p id' now' c' w' ≡ (ok (ok_result (p.orders.stored o)), w')
      again o (created, h, s, kept, _, _, _) =
          let (_, client) = Submitted-IsWellFormed p id now c w fresh created o h s in
          let absent : p.orders.get_by_client_order_id o.client_order_id w.orders ≡ ok none =
            rw client fresh in
          elim (p.orders.get-save o w.orders absent) [
            | inl (orders, saved, found) ↦
                let same_orders : orders ≡ w'.orders = cc in
                execute-found p id' now' c' w' (p.orders.stored o)
                  (rw (same, ← client, ← same_orders) found)
            | inr (x, lost) ↦ cc
          ]

      by_outcome :
          {r : Outcome p}
          → Handled p id now c w r
          → r ≡ (raise (store_failed e), w')
          → SameBooks p w w'
            ⊎ ((o : TradeOrder) × Unapplied p id now c w o e w'
                × (execute p id' now' c' w' ≡ (ok (ok_result (p.orders.stored o)), w')))
      by_outcome (placed o v h) q = cc
      by_outcome (failed f v h) q = cc
      by_outcome (escaped v h) q = cc
      by_outcome (unsaved o x v h books) q =
          let same_world : v ≡ w' = cc in inl (rw (← same_world) books)
      by_outcome (untold o m v h) q = cc
      by_outcome (unapplied o x v h) q =
          let same_world : v ≡ w' = cc in
          let same_error : x ≡ e = cc in
          let left : Unapplied p id now c w o e w' = rw (← same_world, ← same_error) h in
          inr (o, left, again o left)
