-- ===== src/Backtest/Entities.antt =====
-- app/modules/backtest/domain: the configuration, the trades and the results of a backtest.
use self_learning_trading_ag.Base.{ℕ, Option, List, Text}
use self_learning_trading_ag.Int.{ℤ}
use self_learning_trading_ag.Decimal.{Decimal}
use self_learning_trading_ag.Core.Result.{Result}
use self_learning_trading_ag.Core.Errors.{DomainError}
use self_learning_trading_ag.MarketData.Entities.{Candle, Symbol, Timeframe}
use self_learning_trading_ag.Strategies.{Strategy, SignalDirection}

pub record BacktestConfig : Type 0 where
  pub symbol : Text
  pub timeframe : Text
  pub strategy_id : Text
  pub start : ℕ
  pub end : ℕ
  pub initial_capital : Decimal
  pub fee_pct : Decimal
  pub seed : Option ℤ

pub record BacktestTrade : Type 0 where
  pub symbol : Text
  pub opened_at : ℕ
  pub closed_at : Option ℕ
  pub side : Text
  pub entry : Decimal
  pub exit : Option Decimal
  pub quantity : Decimal
  pub pnl : Option Decimal

-- The result, without the time of its making.
pub record BacktestResult : Type 0 where
  pub config : BacktestConfig
  pub trades : List BacktestTrade
  pub initial_capital : Decimal
  pub final_capital : Decimal
  pub total_return_pct : Decimal
  pub max_drawdown_pct : Decimal
  pub win_rate_pct : Decimal
  pub trade_count : ℕ

-- The event; its total return is kept as the number.
pub record BacktestCompleted : Type 0 where
  pub symbol : Text
  pub strategy_id : Text
  pub trade_count : ℕ
  pub total_return_pct : Decimal

-- The ports: the candles of a range, the features of candles, and the strategies, which answer
-- the same all through a run.
pub record Ports (F : Type 0) : Type 0 where
  pub query_range : Symbol → Timeframe → ℕ → ℕ → List Candle
  pub compute : List Candle → List F
  pub get_strategy : Text → Option (Strategy F)
  pub evaluate : Text → List Candle → List F → Result SignalDirection DomainError
