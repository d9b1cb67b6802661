-- ===== src/Strategies/Routes.antt =====
-- app/modules/strategies/presentation: the routes over the manager.
use self_learning_trading_ag.Base.{List, [], Text, text}
use self_learning_trading_ag.Core.Answers.{Reply, reply_result}
use self_learning_trading_ag.Strategies.{
  SignalDirection, buy, sell, hold, StrategyMeta, StrategyStore, State, list_meta, evaluate,
}

pub record EvaluateResponse : Type 0 where
  pub strategy_id : Text
  pub symbol : Text
  pub timeframe : Text
  pub signal : Text

-- `SignalDirection.value`
abbrev pub signal_value : SignalDirection → Text
signal_value buy = text "buy"
signal_value sell = text "sell"
signal_value hold = text "hold"

module _ {F : Type 0} (store : StrategyStore F) where
  -- `GET /strategies`
  unfoldable pub list_strategies : State store → List StrategyMeta
  list_strategies s = list_meta store s

  -- `POST /strategies/{strategy_id}/evaluate`: over no candles and no features.
  unfoldable pub evaluate_route :
      (strategy_id symbol timeframe : Text) → State store → Reply EvaluateResponse
  evaluate_route strategy_id symbol timeframe s =
      reply_result (evaluate store strategy_id [] [] s) (λ signal. record {
        strategy_id = strategy_id;
        symbol = symbol;
        timeframe = timeframe;
        signal = signal_value signal;
      })
