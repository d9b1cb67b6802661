-- ===== src/Examples/Orders.antt =====
-- Tests and witnesses of the routes that place orders.
use self_learning_trading_ag.Base.{◌≡◌, refl, true, Option, none, some, Text, text}
use self_learning_trading_ag.Int.{scale_ℤ}
use self_learning_trading_ag.Decimal.{lt}
use self_learning_trading_ag.Auth.Entities.{viewer, new_user}
use self_learning_trading_ag.Auth.Routes.{responded}
use self_learning_trading_ag.Trading.Repositories.Orders as Orders
use self_learning_trading_ag.Trading.Routes.{
  PlaceOrderRequest, LiveSettings, in_bounds, place_paper_order, place_live_order,
}
use self_learning_trading_ag.Trading.Routes.Laws.{Answered, IsRefusal, place_paper_order-Answered}
use self_learning_trading_ag.Examples.Placing.{ports, start, dec}

abbrev request : PlaceOrderRequest
request = record {
  symbol = text "btc/usdt";
  side = text "buy";
  quantity = dec 1;
  price = dec 100;
  client_order_id = text "demo-1";
  equity = dec 10000;
}

in_bounds_test : in_bounds request ≡ true
unfolding in_bounds lt scale_ℤ
in_bounds_test = refl

-- Live trading with credentials, and a gateway for every exchange.
abbrev live : LiveSettings
live = record {
  trading_execution_mode = text "live";
  trading_exchange = text "binance";
  trading_api_key = text "key";
  trading_api_secret = text "secret";
}

abbrev build : Text → Text → Text → Option Text
build exchange key secret = some exchange

place_paper_order-Answered_example :
    Answered ports 7 5 request start (place_paper_order ports 7 5 request start)
    × IsRefusal
        (place_live_order ports build live none
          (responded (new_user 1 (text "alice") (text "hash") viewer))
          request
          start).0
    × ((place_live_order ports build live none
          (responded (new_user 1 (text "alice") (text "hash") viewer))
          request
          start).1
        ≡ start)
unfolding Orders.get_by_client_order_id Orders.find_client Orders.load
place_paper_order-Answered_example =
    place_paper_order-Answered ports build live none
      (responded (new_user 1 (text "alice") (text "hash") viewer)) 7 5 request start refl
