-- ===== src/Backtest/Engine/Results.antt =====
-- What a finished backtest promises, and how a run ends.
use self_learning_trading_ag.Base.{
  ℕ, suc, ◌+◌, ◌*◌, ◌≤◌, ◌<◌, ◌≡◌, inl, inr, refl, subst, Bool, true, false, Option, none, some,
  List, [], ◌∷◌, ◌++◌, arith, Except, ok, raise, length, length-append, if◌then◌else◌, Bool-cases,
  Option-cases, ltb,
}
use self_learning_trading_ag.Int.{pos}
use self_learning_trading_ag.Decimal.{Decimal, of_int, zero_dec, sub, mul, div, lt, is_zero}
use self_learning_trading_ag.Core.Result.{Result, ok_result, err_result}
use self_learning_trading_ag.Core.Errors.{DomainError, insufficient_data}
use self_learning_trading_ag.MarketData.Entities.{
  Symbol, Timeframe, Candle, symbol_of, parse_timeframe,
}
use self_learning_trading_ag.Backtest.Entities.{
  BacktestConfig, BacktestTrade, BacktestResult, BacktestCompleted, Ports,
}
use self_learning_trading_ag.Backtest.Engine.{
  Escape, division_by_zero, Simulation, begin, closing, wins, win_rate, all_trades, final_capital,
  conclude, last_of, loop, simulate, run, run_over, completed,
}
use self_learning_trading_ag.Backtest.Engine.Laws.{
  AllClosed, AllClosed-append, closing-IsClosed, open_count, IsSimulation, Returns, bind-Returns,
  begin-IsSimulation, advance, advance-length, loop-IsSimulation,
}

-- What a result promises.
pub record IsSettled (config : BacktestConfig) (n : ℕ) (r : BacktestResult) : Type 0 where
  pub counted : r.trade_count ≡ length r.trades
  pub bounded : 2 * r.trade_count ≤ suc n
  pub won : wins r.trades ≤ r.trade_count
  pub settled : AllClosed config r.trades
  pub its_config : r.config ≡ config

wins-length : (ts : List BacktestTrade) → wins ts ≤ length ts
unfolding wins
wins-length [] = ground arith
wins-length (t ∷ ts) = elim (Option-cases t.pnl) [
  | inl e ↦ rw (e, wins) (omega (arith, wins-length ts))
  | inr (pnl, e) ↦
      rw (e, wins)
        (elim (Bool-cases (lt zero_dec pnl)) [
          | inl g ↦ rw g (omega (arith, wins-length ts))
          | inr g ↦ rw g (omega (arith, wins-length ts))
        ])
]

all_trades-AllClosed :
    (config : BacktestConfig) (n : ℕ) (c : Candle) (s : Simulation)
    → IsSimulation config n s
    → AllClosed config (all_trades config c s) × (2 * length (all_trades config c s) ≤ suc n)
unfolding all_trades
all_trades-AllClosed config n c s h = by_holds s.holds refl
  where
    trades : Bool → List BacktestTrade
    trades b = if b then s.trades ++ (closing config c s ∷ []) else s.trades

    by_holds :
        (b : Bool) → s.holds ≡ b → AllClosed config (trades b) × (2 * length (trades b) ≤ suc n)
    by_holds false e = (h.all_closed, omega (arith, h.few))
    by_holds true e = (
      AllClosed-append s.trades h.all_closed (closing-IsClosed config c s),
      omega (
        arith,
        length-append s.trades (closing config c s ∷ []),
        subst (λ b. 2 * length s.trades + open_count b ≤ n) e h.few,
      ),
    )

conclude-IsSettled :
    (config : BacktestConfig) (n : ℕ) (c : Candle) (s : Simulation)
    → IsSimulation config n s
    → Returns (IsSettled config n) (conclude config c s)
unfolding conclude
conclude-IsSettled config n c s h = by_return (div (sub final initial) base) (win_rate trades)
  where
    initial : Decimal
    initial = config.initial_capital

    final : Decimal
    final = final_capital config c s

    base : Decimal
    base = if is_zero initial then of_int (pos 1) else initial

    trades : List BacktestTrade
    trades = all_trades config c s

    by_return :
        (q : Option Decimal) (w : Except Escape Decimal)
        → Returns (IsSettled config n) (elim q [
          | none ↦ raise division_by_zero
          | some part ↦ elim w [
            | raise e ↦ raise e
            | ok rate ↦ ok (record {
              config = config;
              trades = trades;
              initial_capital = initial;
              final_capital = final;
              total_return_pct = mul part (of_int (pos 100));
              max_drawdown_pct = s.max_dd;
              win_rate_pct = rate;
              trade_count = length trades;
            })
          ]
        ])
    by_return none w = tt
    by_return (some q) (raise e) = tt
    by_return (some q) (ok w) =
        let (closed, few) = all_trades-AllClosed config n c s h in
        record {
          counted = refl;
          bounded = few;
          won = wins-length trades;
          settled = closed;
          its_config = refl;
        }

-- A simulation that returns counts its trades, which are all bought and sold, and at most one for
-- two candles (rounded up); the profitable ones are among them.
pub simulate-IsSettled :
    {F : Type 0} (p : Ports F) (config : BacktestConfig) (candles : List Candle) (feats : List F)
    → Returns (IsSettled config (length candles)) (simulate p config candles feats)
unfolding simulate
simulate-IsSettled p config [] feats = tt
simulate-IsSettled p config (c ∷ cs) feats =
    bind-Returns (IsSimulation config (advance 0 (c ∷ cs))) (IsSettled config (length (c ∷ cs)))
      (loop p config (c ∷ cs) feats 0 (c ∷ cs) (begin config c)) _
      (loop-IsSimulation p config (c ∷ cs) feats 0 0 (c ∷ cs) (begin config c)
        (begin-IsSimulation config c))
      (λ s h.
        conclude-IsSettled config (length (c ∷ cs)) (last_of c cs) s
          (subst (λ n. IsSimulation config n s) (omega (arith, advance-length 0 (c ∷ cs))) h))

-- The candles of a run.
abbrev pub asked : {F : Type 0} → Ports F → BacktestConfig → Symbol → Timeframe → List Candle
asked p config symbol timeframe = p.query_range symbol timeframe config.start config.end

-- How a run over the candles of its symbol and its timeframe ends.
pub data Ended {F : Type 0} (p : Ports F) (config : BacktestConfig)
    (events : List BacktestCompleted)
    : Except Escape (Result BacktestResult DomainError) × List BacktestCompleted → Type 0 where
  finished :
      (symbol : Symbol) (timeframe : Timeframe) (r : BacktestResult)
      → symbol_of config.symbol [] ≡ some symbol
      → parse_timeframe config.timeframe ≡ some timeframe
      → 30 ≤ length (asked p config symbol timeframe)
      → IsSettled config (length (asked p config symbol timeframe)) r
      → Ended p config events (ok (ok_result r), events ++ (completed p config r ∷ []))
  too_few :
      (symbol : Symbol) (timeframe : Timeframe) (e : DomainError)
      → symbol_of config.symbol [] ≡ some symbol
      → parse_timeframe config.timeframe ≡ some timeframe
      → length (asked p config symbol timeframe) < 30
      → e.class ≡ insufficient_data
      → Ended p config events (ok (err_result e), events)
  escaped : (e : Escape) → Ended p config events (raise e, events)

module _ {F : Type 0} (p : Ports F) (config : BacktestConfig) (events : List BacktestCompleted)
    (symbol : Symbol) (timeframe : Timeframe) (named : symbol_of config.symbol [] ≡ some symbol)
    (timed : parse_timeframe config.timeframe ≡ some timeframe) where
  by_result-Ended :
      (r : Except Escape BacktestResult)
      → 30 ≤ length (asked p config symbol timeframe)
      → Returns (IsSettled config (length (asked p config symbol timeframe))) r
      → Ended p config events (elim r [
        | raise e ↦ (raise e, events)
        | ok result ↦ (ok (ok_result result), events ++ (completed p config result ∷ []))
      ])
  by_result-Ended (raise e) many h = escaped e
  by_result-Ended (ok r) many h = finished symbol timeframe r named timed many h

  run_over-Ended :
      (candles : List Candle)
      → asked p config symbol timeframe ≡ candles
      → Ended p config events (run_over p config candles events)
  unfolding run_over
  run_over-Ended candles these = elim (Bool-cases (ltb (length candles) 30)) [
    | inl few ↦
        rw (few, run_over) (too_few symbol timeframe _ named timed (rw these (ground arith)) refl)
    | inr many ↦
        rw (many, run_over)
          (by_result-Ended (simulate p config candles (p.compute candles)) (rw these (ground arith))
            (rw these (simulate-IsSettled p config candles (p.compute candles))))
  ]

-- A run ends in one of three ways: with a result over the candles of its symbol and its timeframe
-- from its start to its end, which are at least 30, and then the result is settled over them, with
-- one event for it; with the error that the candles are too few, when they are fewer than 30, and
-- no event; or with an exception, and no event.
pub run-Ended :
    {F : Type 0} (p : Ports F) (config : BacktestConfig) (events : List BacktestCompleted)
    → Ended p config events (run p config events)
unfolding run
run-Ended p config events = elim (Option-cases (p.get_strategy config.strategy_id)) [
  | inl a ↦ rw (a, run) (escaped _)
  | inr (x, a) ↦
      rw (a, run)
        (elim (Option-cases (symbol_of config.symbol [])) [
          | inl b ↦ rw b (escaped _)
          | inr (symbol, b) ↦ rw b (elim (Option-cases (parse_timeframe config.timeframe)) [
            | inl c ↦ rw c (escaped _)
            | inr (timeframe, c) ↦ rw c (run_over-Ended p config events symbol timeframe b c _ refl)
          ])
        ])
]
