-- ===== src/Trading/Routes/Laws.antt =====
-- What the routes do to the books.
use self_learning_trading_ag.Base.{
  ℕ, ◌≡◌, refl, inl, inr, Bool, true, false, Option, none, some, Text, Except, ok, raise, arith,
  Option-cases,
}
use self_learning_trading_ag.Auth.Entities.{User}
use self_learning_trading_ag.Auth.Routes.{Response, responded, http_exception, crashed}
use self_learning_trading_ag.Trading.Order.{TradeOrder}
use self_learning_trading_ag.Trading.PlaceOrder.{
  PlaceOrderCommand, store_failed, publish_failed, Ports, World, Outcome,
}
use self_learning_trading_ag.Trading.Ports.{StoreError}
use self_learning_trading_ag.Trading.PlaceOrder.Outcomes.{
  SameBooks, Placed, Unapplied, Untold, Handled, placed, failed, escaped, unsaved, unapplied,
  untold,
}
use self_learning_trading_ag.Trading.PlaceOrder.Laws.{execute-Handled}
use self_learning_trading_ag.Trading.Routes.{
  PlaceOrderRequest, in_bounds, command, from_domain, Crash, service_escape, RouteAnswer, created,
  conflict, unprocessable, unauthorized, internal, answer, LiveSettings,
  get_live_place_order_service, live_gateway, Service, run_service, place_paper_order, with_service,
  place_live_order,
}

-- An answer without an order.
abbrev pub IsRefusal : RouteAnswer → Type 0
IsRefusal (created o) = ⊥
IsRefusal (conflict f) = Unit {0}
IsRefusal unprocessable = Unit {0}
IsRefusal unauthorized = Unit {0}
IsRefusal (internal e) = Unit {0}

abbrev is_raise : {A : Type 0} → Except Crash A → Bool
is_raise (ok a) = false
is_raise (raise e) = true

raised : {A : Type 0} (r : Except Crash A) → is_raise r ≡ true → (e : Crash) × (r ≡ raise e)
raised (ok a) h = ground (arith, h)
raised (raise e) h = (e, refl)

-- The live service is never there.
get_live_place_order_service-raise :
    {G : Type 0} (A : Type 0) (build : Text → Text → Text → Option G) (s : LiveSettings)
    (kept : Option G)
    → is_raise (get_live_place_order_service {A = A} build s kept).0 ≡ true
unfolding get_live_place_order_service live_gateway
get_live_place_order_service-raise A build s kept = ground arith

module _ (p : Ports) where
  -- The answers to a body whose client's order id is new.
  pub data Answered (id now : ℕ) (b : PlaceOrderRequest) (w : World p)
      : RouteAnswer × World p → Type 0 where
    accepted :
        (c : PlaceOrderCommand) (o : TradeOrder) (w' : World p)
        → command b ≡ some c
        → in_bounds b ≡ true
        → Placed p id now c w o w'
        → Answered id now b w (created (from_domain o), w')
    interrupted :
        (c : PlaceOrderCommand) (o : TradeOrder) (e : StoreError) (w' : World p)
        → command b ≡ some c
        → in_bounds b ≡ true
        → Unapplied p id now c w o e w'
        → Answered id now b w (internal (service_escape (store_failed e)), w')
    unannounced :
        (c : PlaceOrderCommand) (o : TradeOrder) (message : Text) (w' : World p)
        → command b ≡ some c
        → in_bounds b ≡ true
        → Untold p id now c w o message w'
        → Answered id now b w (internal (service_escape (publish_failed message)), w')
    turned_down :
        (a : RouteAnswer) (w' : World p)
        → IsRefusal a
        → SameBooks p w w'
        → Answered id now b w (a, w')

  command-in_bounds :
      (b : PlaceOrderRequest) (c : PlaceOrderCommand)
      → command b ≡ some c
      → (in_bounds b ≡ true) × (c.client_order_id ≡ b.client_order_id)
  unfolding command
  command-in_bounds b c e = (ground (arith, e), ground (arith, e))

  answer-Answered :
      (id now : ℕ) (b : PlaceOrderRequest) (c : PlaceOrderCommand) (w : World p)
      → command b ≡ some c
      → {r : Outcome p} → Handled p id now c w r
      → Answered id now b w (answer r.0, r.1)
  unfolding answer
  answer-Answered id now b c w e (placed o w' h) = accepted c o w' e (command-in_bounds b c e).0 h
  answer-Answered id now b c w e (failed f w' same) = turned_down _ w' tt same
  answer-Answered id now b c w e (escaped w' same) = turned_down _ w' tt same
  answer-Answered id now b c w e (unsaved o x w' h same) = turned_down _ w' tt same
  answer-Answered id now b c w e (unapplied o x w' h) =
      interrupted c o x w' e (command-in_bounds b c e).0 h
  answer-Answered id now b c w e (untold o m w' h) =
      unannounced c o m w' e (command-in_bounds b c e).0 h

  -- A paper request under a new client's order id is answered with an order exactly after the order
  -- has been placed for a body in its bounds: saved, its fill applied to the position, with one
  -- event. If the store of the positions raises after the order has been saved, the answer is a
  -- crash, the order stays saved, and the positions and the events are as they were; if the
  -- publisher raises after both saves, the answer is a crash, both stay saved, and the events are as
  -- they were. Any other answer leaves the orders, the positions and the events as they are. A live
  -- request is never answered with an order, and leaves the whole world as it is, whoever asks and
  -- whatever the settings are.
  pub place_paper_order-Answered :
      {G : Type 0} (build : Text → Text → Text → Option G) (s : LiveSettings) (kept : Option G)
      → (user : Response User) (id now : ℕ) (b : PlaceOrderRequest) (w : World p)
      → p.orders.get_by_client_order_id b.client_order_id w.orders ≡ ok none
      → Answered id now b w (place_paper_order p id now b w)
        × IsRefusal (place_live_order p build s kept user b w).0
        × ((place_live_order p build s kept user b w).1 ≡ w)
  unfolding place_paper_order run_service place_live_order with_service
  place_paper_order-Answered build s kept user id now b w fresh =
      (paper, (live user).0, (live user).1)
    where
      paper : Answered id now b w (place_paper_order p id now b w)
      paper = elim (Option-cases (command b)) [
        | inl e ↦
            rw (e, place_paper_order, run_service)
              (turned_down unprocessable w tt (refl, refl, refl))
        | inr (c, e) ↦
            rw (e, place_paper_order, run_service)
              (answer-Answered id now b c w e
                (execute-Handled p id now c w (rw (command-in_bounds b c e).1 fresh)))
      ]

      live :
          (user : Response User)
          → IsRefusal (place_live_order p build s kept user b w).0
            × ((place_live_order p build s kept user b w).1 ≡ w)
      live (http_exception status detail) = (tt, refl)
      live (crashed e) = (tt, refl)
      live (responded u) =
          let (e, q) =
            raised (get_live_place_order_service build s kept).0
              (get_live_place_order_service-raise (Service p) build s kept) in
          (rw (q, place_live_order, with_service) tt, rw (q, place_live_order, with_service) refl)
