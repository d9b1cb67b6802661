-- ===== src/Workers/Step.antt =====
-- app/workers/runner.py: `default_step`, the round that backtests a champion strategy.
use self_learning_trading_ag.Base.{ℕ, ◌-◌, ◌*◌, none, some, List, [], ◌∷◌, Text, Except, ok, raise}
use self_learning_trading_ag.Int.{pos}
use self_learning_trading_ag.Decimal.{Decimal, of_int}
use self_learning_trading_ag.MarketData.Entities.{Candle, symbol_of, parse_timeframe}
use self_learning_trading_ag.Strategies.{StrategyMeta}
use self_learning_trading_ag.Backtest.Entities.{BacktestConfig, BacktestCompleted, Ports}
use self_learning_trading_ag.Backtest.Engine.{run}
use self_learning_trading_ag.Workers.Loop.{Metric}

-- The fields of `LoopConfig` that the step reads.
pub record Target : Type 0 where
  pub symbol : Text
  pub timeframe : Text
  pub lookback_days : ℕ

module _ {F : Type 0} (p : Ports F) (m : Metric) (float : Decimal → m.Float)
    (metas : List StrategyMeta) where
  -- The backtest of the step: the champion with the defaults of `BacktestConfig`.
  abbrev pub champion_config : Target → (now start : ℕ) → Text → BacktestConfig
  champion_config target now start champion = record {
    symbol = target.symbol;
    timeframe = target.timeframe;
    strategy_id = champion;
    start = start;
    end = now;
    initial_capital = of_int (pos 10000);
    fee_pct = record { coeff = pos 1; scale = 3 };
    seed = none;
  }

  abbrev pub Scored : Type 0
  Scored = Except (Unit {0}) m.Float × List BacktestCompleted

  -- The score of a backtest.
  unfoldable pub score : BacktestConfig → List BacktestCompleted → Scored
  score config events =
      let (r, events') = run p config events in
      elim r [
        | raise _ ↦ (raise tt, events')
        | ok result ↦ elim result.error [
          | some _ ↦ (ok m.zero_float, events')
          | none ↦ elim result.value [
            | some found ↦ (ok (float found.win_rate_pct), events')
            | none ↦ (raise tt, events')
          ]
        ]
      ]

  -- From the candles on.
  unfoldable pub judge : Target → (now start : ℕ) → List Candle → List BacktestCompleted → Scored
  judge target now start [] events = (ok m.zero_float, events)
  judge target now start (_ ∷ _) events = elim metas [
    | [] ↦ (ok m.zero_float, events)
    | meta ∷ _ ↦ score (champion_config target now start meta.strategy_id) events
  ]

  -- `default_step`; a datetime is a number of microseconds.
  unfoldable pub default_step : Target → (now : ℕ) → List BacktestCompleted → Scored
  default_step target now events =
      let start = now - target.lookback_days * 86400000000 in
      elim (symbol_of target.symbol []) [
        | none ↦ (raise tt, events)
        | some symbol ↦ elim (parse_timeframe target.timeframe) [
          | none ↦ (raise tt, events)
          | some timeframe ↦
              judge target now start (p.query_range symbol timeframe start now) events
        ]
      ]
