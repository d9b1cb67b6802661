-- ===== src/Trading/Routes.antt =====
-- app/modules/trading/presentation: the routes that place orders, the services that they depend
-- on, and the checks of a body. FastAPI asks for the dependencies of a route first and then checks
-- its body; a body that is refused is its answer 422. The live service names a variable that is
-- not defined.
pub mod Laws
use self_learning_trading_ag.Base.{
  ℕ, ◌≡◌, Bool, true, false, ◌&&◌, Option, none, some, Text, text, text_eq, is_empty, not, ◌||◌,
  length, Except, ok, raise, leb, if◌then◌else◌,
}
use self_learning_trading_ag.Core.Result.{Result}
use self_learning_trading_ag.Decimal.{Decimal, zero_dec, lt}
use self_learning_trading_ag.Auth.Entities.{User}
use self_learning_trading_ag.Auth.Tokens.{Manager}
use self_learning_trading_ag.Auth.Repositories.{StoreError}
use self_learning_trading_ag.Auth.Service.{PasswordHasher}
use self_learning_trading_ag.Auth.Routes.{
  Response, responded, http_exception, crashed, current_user,
}
use self_learning_trading_ag.Trading.Order.{OrderSide, buy, sell, OrderStatus, TradeOrder}
use self_learning_trading_ag.Trading.PlaceOrder.{
  PlaceOrderCommand, Failure, Escape, Ports, World, Outcome, execute,
}

-- A body whose amounts are read already; its side is a text.
pub record PlaceOrderRequest : Type 0 where
  pub symbol : Text
  pub side : Text
  pub quantity : Decimal
  pub price : Decimal
  pub client_order_id : Text
  pub equity : Decimal

-- `OrderSide(value)`
unfoldable pub order_side : Text → Option OrderSide
order_side s =
    if text_eq s (text "buy") then some buy else if text_eq s (text "sell") then some sell else none

-- The bounds of the fields.
unfoldable pub in_bounds : PlaceOrderRequest → Bool
in_bounds b =
    leb 1 (length b.symbol)
    && leb (length b.symbol) 30
    && lt zero_dec b.quantity
    && lt zero_dec b.price
    && leb 1 (length b.client_order_id)
    && leb (length b.client_order_id) 100
    && lt zero_dec b.equity

-- `_command`, for a body that passes the checks.
unfoldable pub command : PlaceOrderRequest → Option PlaceOrderCommand
command b = elim (order_side b.side) [
  | none ↦ none
  | some side ↦
      if in_bounds b
      then some (record {
        symbol = b.symbol;
        side = side;
        quantity = b.quantity;
        price = b.price;
        client_order_id = b.client_order_id;
        equity = b.equity;
      })
      else none
]

pub record OrderResponse : Type 0 where
  pub id : ℕ
  pub symbol : Text
  pub side : OrderSide
  pub quantity : Decimal
  pub status : OrderStatus
  pub requested_price : Decimal
  pub executed_price : Option Decimal
  pub client_order_id : Text
  pub rejection_reason : Option Text

-- `OrderResponse.from_domain`
unfoldable pub from_domain : TradeOrder → OrderResponse
from_domain o = record {
  id = o.id;
  symbol = o.symbol;
  side = o.side;
  quantity = o.quantity;
  status = o.status;
  requested_price = o.requested_price;
  executed_price = o.executed_price;
  client_order_id = o.client_order_id;
  rejection_reason = o.rejection_reason;
}

-- What leaves a route as an exception.
pub data Crash : Type 0 where
  service_escape : Escape → Crash
  live_trading_disabled trading_exchange_credentials_missing : Crash
  unknown_exchange name_error no_value user_lookup_failed : Crash

-- The answers of a route: 201 with an order, 409 with the error, 422, 401, or an exception.
pub data RouteAnswer : Type 0 where
  created : OrderResponse → RouteAnswer
  conflict : Failure → RouteAnswer
  unprocessable : RouteAnswer
  unauthorized : RouteAnswer
  internal : Crash → RouteAnswer

-- The answer for a result.
unfoldable pub answer : Except Escape (Result TradeOrder Failure) → RouteAnswer
answer (raise e) = internal (service_escape e)
answer (ok r) = elim r.error [
  | some f ↦ conflict f
  | none ↦ elim r.value [ some o ↦ created (from_domain o) | none ↦ internal no_value ]
]

-- The settings of live trading.
pub record LiveSettings : Type 0 where
  pub trading_execution_mode : Text
  pub trading_exchange : Text
  pub trading_api_key : Text
  pub trading_api_secret : Text

-- From the gateway on: `_repository` is not defined.
abbrev pub live_service_of : {G A : Type 0} → G → Except Crash A × Option G
live_service_of g = (raise name_error, some g)

-- The gateway that is kept, or a new one; `build` is `build_ccxt_exchange`.
unfoldable pub live_gateway :
    {G A : Type 0}
    → (build : Text → Text → Text → Option G) → LiveSettings
    → Option G
    → Except Crash A × Option G
live_gateway build s (some g) = live_service_of g
live_gateway build s none = elim (build s.trading_exchange s.trading_api_key s.trading_api_secret) [
  | none ↦ (raise unknown_exchange, none)
  | some g ↦ live_service_of g
]

-- `get_live_place_order_service`, and the gateway that is kept.
unfoldable pub get_live_place_order_service :
    {G A : Type 0}
    → (build : Text → Text → Text → Option G) → LiveSettings
    → Option G
    → Except Crash A × Option G
get_live_place_order_service build s kept =
    if not (text_eq s.trading_execution_mode (text "live"))
    then (raise live_trading_disabled, kept)
    else if is_empty s.trading_api_key || is_empty s.trading_api_secret
    then (raise trading_exchange_credentials_missing, kept)
    else live_gateway build s kept

-- `get_current_user` of these routes, which is that of the routes of the users.
unfoldable pub order_user :
    (h : PasswordHasher) (m : Manager)
    → (get_by_id : Text → Except StoreError (Option User)) (read : Text → m.jwt.Token) (now : ℕ)
    → (header : Text) → Response User
order_user h m = current_user h m

module _ (p : Ports) where
  -- `execute` of a service, with its ports.
  abbrev pub Service : Type 0
  Service = PlaceOrderCommand → World p → Outcome p

  -- The body of a route, once its service is there.
  unfoldable pub run_service : Service → PlaceOrderRequest → World p → RouteAnswer × World p
  run_service service b w = elim (command b) [
    | none ↦ (unprocessable, w)
    | some c ↦ let (r, w') = service c w in (answer r, w')
  ]

  -- `POST /trading/orders/paper`, where the ports are those of `get_place_order_service`.
  unfoldable pub place_paper_order :
      (id now : ℕ) → PlaceOrderRequest → World p → RouteAnswer × World p
  place_paper_order id now b w = run_service (execute p id now) b w

  unfoldable pub with_service :
      Except Crash Service → PlaceOrderRequest → World p → RouteAnswer × World p
  with_service (raise e) b w = (internal e, w)
  with_service (ok service) b w = run_service service b w

  -- `POST /trading/orders/live`, for what `get_current_user` answers, with the gateway that is kept.
  unfoldable pub place_live_order :
      {G : Type 0}
      → (build : Text → Text → Text → Option G) → LiveSettings
      → Option G
      → Response User
      → PlaceOrderRequest
      → World p
      → RouteAnswer × World p × Option G
  place_live_order build s kept (http_exception status detail) b w = (unauthorized, w, kept)
  place_live_order build s kept (crashed e) b w = (internal user_lookup_failed, w, kept)
  place_live_order build s kept (responded user) b w =
      let (service, kept') = get_live_place_order_service build s kept in
      let (a, w') = with_service service b w in (a, w', kept')
