-- ===== src/Trading/PlaceOrder/Laws.antt =====
-- What `execute` does to the books: the tables of orders and positions, and the events.
use self_learning_trading_ag.Base.{
  ℕ, ◌≡◌, refl, sym, ap, ◌∙◌, ◌⊎◌, inl, inr, Option, none, some, [], ◌∷◌, ◌++◌, Text, Except, ok,
  raise, Bool-cases,
}
use self_learning_trading_ag.Core.Result.{ok_result}
use self_learning_trading_ag.Decimal.{mul}
use self_learning_trading_ag.Trading.Order.{TradeOrder, ValueError, create, new_order}
use self_learning_trading_ag.Trading.Order.Lifecycle.{
  IsWellFormed, create-new_order, fills, Step-IsWellFormed,
}
use self_learning_trading_ag.Trading.Ports.{
  StoreError, GatewayError, value_error, runtime_error, invalid_operation,
}
use self_learning_trading_ag.Trading.PlaceOrder.{
  PlaceOrderCommand, Escape, store_failed, decimal_failed, fill_failed, publish_failed, announce,
  Ports, World, Outcome, changed, update_position, finish, record_order, after_submit, submit,
  place, execute,
}
use self_learning_trading_ag.Trading.PlaceOrder.Updates.{Updates, update_position-Updates}
use self_learning_trading_ag.Trading.PlaceOrder.Outcomes.{
  Submitted, Handled, placed, failed, escaped, unsaved, unapplied, untold,
}

module _ (p : Ports) where
  module _ (id now : ℕ) (c : PlaceOrderCommand) (w : World p)
      (fresh : p.orders.get_by_client_order_id c.client_order_id w.orders ≡ ok none) where
    pub Submitted-IsWellFormed :
        (created o : TradeOrder)
        → create id c.symbol c.side c.quantity c.price c.client_order_id now ≡ ok created
        → Submitted p created o
        → IsWellFormed o × (o.client_order_id ≡ c.client_order_id)
    unfolding new_order
    Submitted-IsWellFormed created o h s =
        let (wf, e) =
          create-new_order id c.symbol c.side c.quantity c.price c.client_order_id now h in
        let same : created.client_order_id ≡ c.client_order_id = rw (← e) in
        elim s [
          | inl q ↦ (rw q wf, rw q same)
          | inr (price, q) ↦
              let (wf', keeps) = Step-IsWellFormed (fills price q) wf in (wf', keeps.5 ∙ same)
        ]

    -- The world in which only the exchange and the risk gate have moved.
    moved : p.gateway.Exchange → p.risk.State → World p
    moved x r = record w { exchange = x; risk = r }

    record_order-Handled :
        (created o : TradeOrder) (x : p.gateway.Exchange) (r : p.risk.State)
        → create id c.symbol c.side c.quantity c.price c.client_order_id now ≡ ok created
        → Submitted p created o
        → Handled p id now c w (record_order p o (moved x r))
    unfolding record_order finish announce moved
    record_order-Handled created o x r h s = by_save (p.orders.save o w.orders) refl
      where
        -- The world in which the order is saved.
        with_orders : p.orders.Table → World p
        with_orders orders = record w { exchange = x; risk = r; orders = orders }

        by_publish :
            (orders : p.orders.Table) (positions : p.positions.Table) (m : Option Text)
            → p.orders.save o w.orders ≡ ok orders
            → update_position p o w.positions ≡ ok positions
            → p.publisher.raises (changed o) w.events ≡ m
            → Handled p id now c w (elim m [
              | some message ↦ (
                raise (publish_failed message),
                record (with_orders orders) { positions = positions },
              )
              | none ↦ (
                ok (ok_result o),
                record (with_orders orders) {
                  positions = positions;
                  events = w.events ++ (changed o ∷ []);
                },
              )
            ])
        by_publish orders positions (some message) saved updated told =
            untold o message _ (created, h, s, saved, updated, told, refl)
        by_publish orders positions none saved updated told =
            placed o _ (created, h, s, saved, updated, refl)

        by_update :
            (orders : p.orders.Table) (u : Except Escape p.positions.Table)
            → p.orders.save o w.orders ≡ ok orders
            → update_position p o w.positions ≡ u
            → Updates p u
            → Handled p id now c w (elim u [
              | raise e ↦ (raise e, with_orders orders)
              | ok positions ↦ announce p o (record (with_orders orders) { positions = positions })
            ])
        by_update orders (ok positions) saved updated _ =
            by_publish orders positions (p.publisher.raises (changed o) w.events) saved updated refl
        by_update orders (raise (store_failed e)) saved updated _ =
            unapplied o e _ (created, h, s, saved, updated, refl, refl)
        by_update orders (raise decimal_failed) saved updated (inl (t', q)) = cc
        by_update orders (raise decimal_failed) saved updated (inr (e, q)) = cc
        by_update orders (raise (fill_failed f)) saved updated (inl (t', q)) = cc
        by_update orders (raise (fill_failed f)) saved updated (inr (e, q)) = cc
        by_update orders (raise (publish_failed m)) saved updated (inl (t', q)) = cc
        by_update orders (raise (publish_failed m)) saved updated (inr (e, q)) = cc

        by_save :
            (a : Except StoreError p.orders.Table)
            → p.orders.save o w.orders ≡ a
            → Handled p id now c w (elim a [
              | raise e ↦ (raise (store_failed e), moved x r)
              | ok orders ↦ finish p o (with_orders orders)
            ])
        by_save (raise e) failed_with = unsaved o e _ failed_with (refl, refl, refl)
        by_save (ok orders) saved =
            by_update orders (update_position p o w.positions) saved refl
              (update_position-Updates p o w.positions (Submitted-IsWellFormed created o h s).0)

    after_submit-Handled :
        (created : TradeOrder) (a : Except GatewayError TradeOrder) (x : p.gateway.Exchange)
        (r : p.risk.State)
        → create id c.symbol c.side c.quantity c.price c.client_order_id now ≡ ok created
        → ((o : TradeOrder) → a ≡ ok o → Submitted p created o)
        → Handled p id now c w (after_submit p a (moved x r))
    unfolding after_submit moved
    after_submit-Handled created (ok o) x r h s = record_order-Handled created o x r h (s o refl)
    after_submit-Handled created (raise (value_error e)) x r h s = failed _ _ (refl, refl, refl)
    after_submit-Handled created (raise (runtime_error m)) x r h s = failed _ _ (refl, refl, refl)
    after_submit-Handled created (raise invalid_operation) x r h s = escaped _ (refl, refl, refl)

    submit-Handled :
        (a : Except ValueError TradeOrder) (r : p.risk.State)
        → create id c.symbol c.side c.quantity c.price c.client_order_id now ≡ a
        → Handled p id now c w (submit p a (record w { risk = r }))
    unfolding submit moved
    submit-Handled (raise e) r h = failed _ _ (refl, refl, refl)
    submit-Handled (ok created) r h =
        let (a, x) = p.gateway.submit_market_order created w.exchange in
        after_submit-Handled created a x r h (λ o e. p.gateway.submit-fill created w.exchange e)

    place-Handled : Handled p id now c w (place p id now c w)
    unfolding place
    place-Handled =
        let ((allowed, reason), r) =
          p.risk.authorize c.symbol (mul c.quantity c.price) c.equity w.risk in
        elim (Bool-cases allowed) [
          | inl passed ↦ rw passed (submit-Handled _ r refl)
          | inr stopped ↦ rw stopped (failed _ _ (refl, refl, refl))
        ]

  -- A command whose client's order id is new ends in one of six ways. An order is placed: it comes
  -- from `create` and perhaps a fill at the gateway, it is saved, its fill is applied to the position
  -- of its symbol, and exactly one event is published. Or an error is returned, or the decimal
  -- exception of the gateway escapes, or the store of the orders raises on the save and its exception
  -- escapes; in these three the orders, the positions and the events are as before. Or the store of
  -- the positions raises after the order has been saved: its exception escapes, the saved order
  -- stays, and the positions and the events are as before. Or the publisher raises after both saves:
  -- its exception escapes, the order and the position stay saved, and the events are as before. The
  -- exceptions of `apply_fill` never escape.
  pub execute-Handled :
      (id now : ℕ) (c : PlaceOrderCommand) (w : World p)
      → p.orders.get_by_client_order_id c.client_order_id w.orders ≡ ok none
      → Handled p id now c w (execute p id now c w)
  unfolding execute
  execute-Handled id now c w fresh = rw (fresh, execute) (place-Handled id now c w fresh)

  -- Every world: a result that is an order.
  pub execute-found :
      (id now : ℕ) (c : PlaceOrderCommand) (w : World p) (o : TradeOrder)
      → p.orders.get_by_client_order_id c.client_order_id w.orders ≡ ok (some o)
      → execute p id now c w ≡ (ok (ok_result o), w)
  unfolding execute
  execute-found id now c w o h = rw (h, execute)

  execute-raise :
      (id now : ℕ) (c : PlaceOrderCommand) (w : World p) (x : StoreError)
      → p.orders.get_by_client_order_id c.client_order_id w.orders ≡ raise x
      → execute p id now c w ≡ (raise (store_failed x), w)
  unfolding execute
  execute-raise id now c w x h = rw (h, execute)

  escaped_not_ok :
      {x : Escape} {o : TradeOrder} {w w' : World p}
      → ¬ (◌≡◌ {A = Outcome p} (raise x, w) (ok (ok_result o), w'))
  escaped_not_ok e = cc

  -- The order of a command is found again under its client's order id.
  IsFound : PlaceOrderCommand → TradeOrder → World p → Type 0
  IsFound c o w =
      (o' : TradeOrder) × (p.orders.get_by_client_order_id c.client_order_id w.orders
        ≡ ok (some o'))
      × ((o' ≡ o) ⊎ (o' ≡ p.orders.stored o))

  Handled-IsFound :
      (id now : ℕ) (c : PlaceOrderCommand) (w : World p) {r : Outcome p} {o : TradeOrder}
      {w' : World p}
      → p.orders.get_by_client_order_id c.client_order_id w.orders ≡ ok none
      → Handled p id now c w r
      → r ≡ (ok (ok_result o), w')
      → IsFound c o w'
  unfolding IsFound
  Handled-IsFound id now c w {o = o1} {w' = w1} fresh (placed o w' (created, h, s, saved, _, _)) e =
      let same_order : o ≡ o1 = cc in
      let same_world : w' ≡ w1 = cc in
      let (_, client) = Submitted-IsWellFormed id now c w fresh created o h s in
      let absent : p.orders.get_by_client_order_id o.client_order_id w.orders ≡ ok none =
        rw client fresh in
      elim (p.orders.get-save o w.orders absent) [
        | inl (orders, kept, found) ↦
            let same_orders : orders ≡ w'.orders = cc in
            rw (← same_order, ← same_world)
              (p.orders.stored o, rw (← same_orders, ← client) found, inr refl)
        | inr (x, lost) ↦ cc
      ]
  Handled-IsFound id now c w fresh (failed f w' same) e = cc
  Handled-IsFound id now c w fresh (escaped w' same) e = cc
  Handled-IsFound id now c w fresh (unsaved o x w' h same) e = cc
  Handled-IsFound id now c w fresh (unapplied o x w' h) e = cc
  Handled-IsFound id now c w fresh (untold o m w' h) e = cc

  execute-IsFound :
      (id now : ℕ) (c : PlaceOrderCommand) (w w' : World p) (o : TradeOrder)
      → execute p id now c w ≡ (ok (ok_result o), w')
      → IsFound c o w'
  unfolding IsFound
  execute-IsFound id now c w w' o e =
      by_lookup (p.orders.get_by_client_order_id c.client_order_id w.orders) refl
    where
      found_again :
          (q : TradeOrder)
          → ◌≡◌ {A = Outcome p} (ok (ok_result q), w) (ok (ok_result o), w')
          → p.orders.get_by_client_order_id c.client_order_id w.orders ≡ ok (some q)
          → IsFound c o w'
      found_again q same h =
          let same_order : q ≡ o = cc in
          let same_world : w ≡ w' = cc in (q, rw (← same_world) h, inl same_order)

      by_lookup :
          (r : Except StoreError (Option TradeOrder))
          → p.orders.get_by_client_order_id c.client_order_id w.orders ≡ r
          → IsFound c o w'
      by_lookup (raise x) h = absurd (escaped_not_ok (sym (execute-raise id now c w x h) ∙ e))
      by_lookup (ok none) h = Handled-IsFound id now c w h (execute-Handled id now c w h) e
      by_lookup (ok (some q)) h =
          let same : ◌≡◌ {A = Outcome p} (ok (ok_result q), w) (ok (ok_result o), w') =
            sym (execute-found id now c w q h) ∙ e in
          found_again q same h

  -- A command that has returned an order can be sent again, with any other contents under the same
  -- client's order id: it returns the order again, as the repository has stored it, and changes
  -- nothing. The exchange sees no second order.
  pub execute-idempotent :
      (id now id' now' : ℕ) (c c' : PlaceOrderCommand) (w w' : World p) (o : TradeOrder)
      → execute p id now c w ≡ (ok (ok_result o), w')
      → c'.client_order_id ≡ c.client_order_id
      → (o' : TradeOrder) × (execute p id' now' c' w' ≡ (ok (ok_result o'), w'))
        × ((o' ≡ o) ⊎ (o' ≡ p.orders.stored o))
  unfolding IsFound
  execute-idempotent id now id' now' c c' w w' o e same =
      let (o', found, which) = execute-IsFound id now c w w' o e in
      (
        o',
        execute-found id' now' c' w' o'
            (ap (λ (t : Text). p.orders.get_by_client_order_id t w'.orders) same ∙ found),
        which,
      )
