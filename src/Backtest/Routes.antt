-- ===== src/Backtest/Routes.antt =====
-- app/modules/backtest/presentation: the route over the engine. What `datetime.fromisoformat`
-- reads is a parameter, and so are the bounds of the folds. A number of folds is not negative. An
-- amount that is not finite is refused by the configuration.
use self_learning_trading_ag.Base.{
  ℕ, suc, Option, none, some, List, [], ◌∷◌, Text, Except, ok, raise,
}
use self_learning_trading_ag.Int.{ℤ}
use self_learning_trading_ag.Core.Answers.{Reply, replied, exception, reply_result}
use self_learning_trading_ag.Backtest.Entities.{
  BacktestConfig, BacktestResult, BacktestCompleted, Ports,
}
use self_learning_trading_ag.Backtest.Engine.{Outcome, Escape, run, walk_forward}
use self_learning_trading_ag.MarketData.Vendors.{decimal_of_text, ◌>>=◌}

pub record BacktestRunRequest : Type 0 where
  pub symbol : Text
  pub timeframe : Text
  pub strategy_id : Text
  pub start : Text
  pub end : Text
  pub initial_capital : Text
  pub fee_pct : Text
  pub seed : Option ℤ
  pub folds : Option ℕ

-- The configuration of a body; `none` is the exception of a time or an amount that is none.
unfoldable pub run_config :
    (fromisoformat : Text → Option ℕ) → BacktestRunRequest → Option BacktestConfig
run_config fromisoformat body = do
  start ← fromisoformat body.start
  end ← fromisoformat body.end
  initial_capital ← decimal_of_text body.initial_capital
  fee_pct ← decimal_of_text body.fee_pct
  some (record {
    symbol = body.symbol;
    timeframe = body.timeframe;
    strategy_id = body.strategy_id;
    start = start;
    end = end;
    initial_capital = initial_capital;
    fee_pct = fee_pct;
    seed = body.seed;
  })

module _ {F : Type 0} (p : Ports F) (bounds : ℕ → ℕ × ℕ) where
  -- The answer of a run over all the candles.
  unfoldable pub answer_run : Outcome p → Reply (List BacktestResult) × List BacktestCompleted
  answer_run (raise e, events) = (exception, events)
  answer_run (ok r, events) = (reply_result r (λ result. result ∷ []), events)

  unfoldable pub answer_folds :
      Except Escape (List BacktestResult) × List BacktestCompleted
      → Reply (List BacktestResult) × List BacktestCompleted
  answer_folds (raise e, events) = (exception, events)
  answer_folds (ok results, events) = (replied results, events)

  -- The choice between the two; no folds count as none asked for.
  unfoldable pub run_folds :
      Option ℕ
      → BacktestConfig
      → List BacktestCompleted
      → Reply (List BacktestResult) × List BacktestCompleted
  run_folds (some (suc folds)) config events =
      answer_folds (walk_forward p bounds config (suc folds) events)
  run_folds _ config events = answer_run (run p config events)

  -- `POST /backtest/run`
  unfoldable pub run_backtest :
      (fromisoformat : Text → Option ℕ)
      → BacktestRunRequest
      → List BacktestCompleted
      → Reply (List BacktestResult) × List BacktestCompleted
  run_backtest fromisoformat body events = elim (run_config fromisoformat body) [
    | none ↦ (exception, events)
    | some config ↦ run_folds body.folds config events
  ]
