-- ===== src/Examples/Backtest.antt =====
-- Tests and witnesses of the backtest engine.
use self_learning_trading_ag.Base.{
  ℕ, ◌≡◌, refl, Bool, true, false, ◌&&◌, ◌==◌, none, some, List, [], ◌∷◌, text, Except, ok, raise,
  ◌>>=◌,
}
use self_learning_trading_ag.Int.{pos}
use self_learning_trading_ag.Decimal.{Decimal, of_int, zero_dec, eq, decimals}
use self_learning_trading_ag.Core.Result.{ok_result}
use self_learning_trading_ag.MarketData.Entities.{Candle, h1}
use self_learning_trading_ag.Strategies.{SignalDirection, buy, sell, hold}
use self_learning_trading_ag.Backtest.Entities.{BacktestConfig, BacktestResult, Ports}
use self_learning_trading_ag.Backtest.Engine.{
  Escape, begin, closing, gross, enter, leave, trade, mark, appraise, wins, win_rate, all_trades,
  final_capital, conclude, last_of, direction, step, loop, simulate, run, take,
}
use self_learning_trading_ag.Backtest.Engine.Laws.{Returns}
use self_learning_trading_ag.Backtest.Engine.Results.{
  IsSettled, simulate-IsSettled, Ended, run-Ended,
}
use self_learning_trading_ag.Backtest.Engine.Prefix.{loop-causal}

unfoldable engine : Unit {0}
unfolding begin closing gross enter leave trade mark appraise wins win_rate all_trades final_capital
    conclude last_of direction step loop simulate take decimals
engine = tt

abbrev candle : ℕ → ℕ → Candle
candle at price = record {
  symbol = record { code = text "BTC/USDT"; exchange = [] };
  timeframe = h1;
  opened_at = at;
  open_price = of_int (pos price);
  high = of_int (pos price);
  low = of_int (pos price);
  close = of_int (pos price);
  volume = of_int (pos 1);
  exchange = [];
}

abbrev config : BacktestConfig
config = record {
  symbol = text "btc/usdt";
  timeframe = text "1h";
  strategy_id = text "first";
  start = 0;
  end = 9;
  initial_capital = of_int (pos 100);
  fee_pct = zero_dec;
  seed = none;
}

-- A strategy that buys on the first candle and sells on the third.
abbrev signal : List Candle → SignalDirection
signal (_ ∷ []) = buy
signal (_ ∷ (_ ∷ (_ ∷ []))) = sell
signal _ = hold

abbrev ports : Ports ℕ
ports = record {
  query_range = λ s t a b. candle 1 10 ∷ [];
  compute = λ cs. [];
  get_strategy = λ id. some (record { strategy_id = id; name = id; evaluate = λ cs fs. signal cs });
  evaluate = λ id cs fs. ok_result (signal cs);
}

abbrev three : List Candle
three = candle 1 10 ∷ (candle 2 12 ∷ (candle 3 20 ∷ []))

-- Whether a backtest ends with this capital and this number of trades.
abbrev ends_with : Decimal → ℕ → Except Escape BacktestResult → Bool
ends_with capital n (ok r) = eq r.final_capital capital && (r.trade_count == n)
ends_with capital n (raise e) = false

round_trip : ends_with (of_int (pos 200)) 1 (simulate ports config three []) ≡ true
unfolding engine
round_trip = refl

-- A position that is never sold is counted twice: 100 at a constant price comes to 200.
never_sold :
    ends_with (of_int (pos 200)) 1 (simulate ports config (candle 1 10 ∷ (candle 2 10 ∷ [])) [])
    ≡ true
unfolding engine
never_sold = refl

simulate-IsSettled_example : Returns (IsSettled config 3) (simulate ports config three [])
simulate-IsSettled_example = simulate-IsSettled ports config three []

run-Ended_example : Ended ports config [] (run ports config [])
run-Ended_example = run-Ended ports config []

loop-causal_example : loop ports config three [] 0 three (begin config (candle 1 10)) ≡ (
    loop ports config (candle 1 10 ∷ []) [] 0 (candle 1 10 ∷ []) (begin config (candle 1 10))
    >>= λ s. loop ports config three [] 1 (candle 2 12 ∷ (candle 3 20 ∷ [])) s)
unfolding take
loop-causal_example =
    loop-causal ports config (candle 1 10 ∷ []) (candle 2 12 ∷ (candle 3 20 ∷ [])) []
      (begin config (candle 1 10))
