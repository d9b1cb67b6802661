-- ===== src/Backtest/Gateway.antt =====
-- app/modules/backtest/infrastructure/strategy_gateway.py: the strategies of a backtest are those
-- of the manager, as they are when the run starts.
use self_learning_trading_ag.Base.{ℕ, Option, List, Text}
use self_learning_trading_ag.Core.Result.{Result}
use self_learning_trading_ag.Core.Errors.{DomainError}
use self_learning_trading_ag.MarketData.Entities.{Symbol, Timeframe, Candle}
use self_learning_trading_ag.Strategies.{
  Strategy, SignalDirection, StrategyStore, State, get_strategy, evaluate,
}
use self_learning_trading_ag.Backtest.Entities.{Ports}

module _ {F : Type 0} (store : StrategyStore F) (s : State store) where
  -- `get_strategy`
  unfoldable pub gateway_strategy : Text → Option (Strategy F)
  gateway_strategy id = get_strategy store id s

  -- `evaluate`
  unfoldable pub gateway_evaluate : Text → List Candle → List F → Result SignalDirection DomainError
  gateway_evaluate id candles features = evaluate store id candles features s

  -- The ports of the engine over the manager.
  abbrev pub manager_ports :
      (query_range : Symbol → Timeframe → ℕ → ℕ → List Candle) (compute : List Candle → List F)
      → Ports F
  manager_ports query_range compute = record {
    query_range = query_range;
    compute = compute;
    get_strategy = gateway_strategy;
    evaluate = gateway_evaluate;
  }
