-- ===== src/Backtest/Engine.antt =====
-- app/modules/backtest/application/engine.py: the simulation loop and the run of a backtest.
pub mod Laws
pub mod Results
pub mod Prefix
use self_learning_trading_ag.Base.{
  ℕ, zero, suc, ◌≡◌, Bool, true, false, not, ◌&&◌, Option, none, some, List, [], ◌∷◌, ◌++◌, Text,
  text, Except, ok, raise, ◌>>=◌, length, ltb, if◌then◌else◌,
}
use self_learning_trading_ag.Int.{ℤ, pos, ◌+ℤ◌}
use self_learning_trading_ag.Decimal.{
  Decimal, of_int, zero_dec, add, sub, mul, div, lt, max_dec, is_zero,
}
use self_learning_trading_ag.Core.Result.{Result, ok_result, err_result}
use self_learning_trading_ag.Core.Errors.{DomainError, insufficient_data}
use self_learning_trading_ag.MarketData.Entities.{Candle, symbol_of, parse_timeframe}
use self_learning_trading_ag.Strategies.{SignalDirection, buy, sell, hold, unknown}
use self_learning_trading_ag.Backtest.Entities.{
  BacktestConfig, BacktestTrade, BacktestResult, BacktestCompleted, Ports,
}

-- What leaves the engine as an exception: an error of the taxonomy, a symbol or a timeframe that
-- is refused, a division by zero, or an index out of range.
pub data Escape : Type 0 where
  domain : DomainError → Escape
  invalid_value division_by_zero index_error : Escape

-- `xs[:n]`
unfoldable pub take {ℓ} : {A : Type ℓ} → ℕ → List A → List A
take zero xs = []
take (suc n) [] = []
take (suc n) (x ∷ xs) = x ∷ take n xs

-- The variables of `_simulate`; `holds` is `position == SignalDirection.BUY`.
pub record Simulation : Type 0 where
  pub holds : Bool
  pub entry_at : ℕ
  pub entry_price : Decimal
  pub capital : Decimal
  pub quantity : Decimal
  pub trades : List BacktestTrade
  pub peak : Decimal
  pub max_dd : Decimal

-- The variables before the loop.
unfoldable pub begin : BacktestConfig → Candle → Simulation
begin config first = record {
  holds = false;
  entry_at = first.opened_at;
  entry_price = zero_dec;
  capital = config.initial_capital;
  quantity = zero_dec;
  trades = [];
  peak = config.initial_capital;
  max_dd = zero_dec;
}

-- The trade that closes the position on a candle.
unfoldable pub closing : BacktestConfig → Candle → Simulation → BacktestTrade
closing config candle s = record {
  symbol = config.symbol;
  opened_at = s.entry_at;
  closed_at = some candle.opened_at;
  side = text "long";
  entry = s.entry_price;
  exit = some candle.close;
  quantity = s.quantity;
  pnl = some (
      sub (mul (sub candle.close s.entry_price) s.quantity)
        (mul (mul s.entry_price s.quantity) config.fee_pct));
}

-- What a sale brings in.
unfoldable pub gross : BacktestConfig → Candle → Simulation → Decimal
gross config candle s = mul (mul s.quantity candle.close) (sub (of_int (pos 1)) config.fee_pct)

-- All the capital into the position.
unfoldable pub enter : Candle → Simulation → Except Escape Simulation
enter candle s = elim (div s.capital candle.close) [
  | none ↦ raise division_by_zero
  | some quantity ↦ ok (record s {
    holds = true;
    entry_at = candle.opened_at;
    entry_price = candle.close;
    quantity = quantity;
    capital = zero_dec;
  })
]

-- The whole position sold.
unfoldable pub leave : BacktestConfig → Candle → Simulation → Simulation
leave config candle s = record s {
  trades = s.trades ++ (closing config candle s ∷ []);
  capital = gross config candle s;
  quantity = zero_dec;
  holds = false;
}

-- The branch on the position and the signal.
unfoldable pub trade :
    BacktestConfig → Candle → SignalDirection → Simulation → Except Escape Simulation
trade config candle buy s = if s.holds then ok s else enter candle s
trade config candle sell s = if s.holds then ok (leave config candle s) else ok s
trade config candle hold s = ok s

-- The value at a candle's close.
unfoldable pub mark : Candle → Simulation → Decimal
mark candle s = if s.holds then add s.capital (mul s.quantity candle.close) else s.capital

-- The peak and the drawdown after a candle.
unfoldable pub appraise : Candle → Simulation → Except Escape Simulation
appraise candle s =
    let value = mark candle s in
    let peak = max_dec s.peak value in
    if lt zero_dec peak
    then elim (div (sub peak value) peak) [
      | none ↦ raise division_by_zero
      | some part ↦
          ok (record s { peak = peak; max_dd = max_dec s.max_dd (mul part (of_int (pos 100))) })
    ]
    else ok (record s { peak = peak })

-- The trades that made a profit.
unfoldable pub wins : List BacktestTrade → ℕ
wins [] = 0
wins (t ∷ ts) = elim t.pnl [
  | none ↦ wins ts
  | some pnl ↦ if lt zero_dec pnl then suc (wins ts) else wins ts
]

-- The share of the trades that made a profit, in percent.
unfoldable pub win_rate : List BacktestTrade → Except Escape Decimal
win_rate [] = ok zero_dec
win_rate (t ∷ ts) = elim (div (of_int (pos (wins (t ∷ ts)))) (of_int (pos (length (t ∷ ts))))) [
  | none ↦ raise division_by_zero
  | some share ↦ ok (mul share (of_int (pos 100)))
]

-- The trades and the capital after the loop.
unfoldable pub all_trades : BacktestConfig → Candle → Simulation → List BacktestTrade
all_trades config last s = if s.holds then s.trades ++ (closing config last s ∷ []) else s.trades

unfoldable pub final_capital : BacktestConfig → Candle → Simulation → Decimal
final_capital config last s =
    if s.holds then add (gross config last s) (mul s.quantity last.close) else s.capital

-- From the end of the loop to the result.
unfoldable pub conclude : BacktestConfig → Candle → Simulation → Except Escape BacktestResult
conclude config last s =
    let initial = config.initial_capital in
    let final = final_capital config last s in
    let base = if is_zero initial then of_int (pos 1) else initial in
    let trades = all_trades config last s in
    elim (div (sub final initial) base) [
      | none ↦ raise division_by_zero
      | some part ↦ elim (win_rate trades) [
        | raise e ↦ raise e
        | ok rate ↦ ok (record {
          config = config;
          trades = trades;
          initial_capital = initial;
          final_capital = final;
          total_return_pct = mul part (of_int (pos 100));
          max_drawdown_pct = s.max_dd;
          win_rate_pct = rate;
          trade_count = length trades;
        })
      ]
    ]

-- The last of a candle and those after it.
unfoldable pub last_of : Candle → List Candle → Candle
last_of c [] = c
last_of c (d ∷ cs) = last_of d cs

module _ {F : Type 0} (p : Ports F) where
  -- `_direction`; the signal is a member of `SignalDirection` already.
  unfoldable pub direction : BacktestConfig → List Candle → List F → Except Escape SignalDirection
  direction config candles feats =
      let r = p.evaluate config.strategy_id candles feats in
      elim r.error [
        | some e ↦ raise (domain e)
        | none ↦ elim r.value [ some signal ↦ ok signal | none ↦ raise invalid_value ]
      ]

  -- One round of the loop, at index i.
  unfoldable pub step :
      BacktestConfig → List Candle → List F → ℕ → Candle → Simulation → Except Escape Simulation
  step config candles feats i candle s =
      direction config (take (suc i) candles) (take (suc i) feats) >>= λ signal.
      trade config candle signal s >>= λ s'. appraise candle s'

  -- The loop from index i, over the candles that are left.
  unfoldable pub loop :
      BacktestConfig
      → List Candle
      → List F
      → ℕ
      → List Candle
      → Simulation
      → Except Escape Simulation
  loop config candles feats i [] s = ok s
  loop config candles feats i (c ∷ rest) s =
      step config candles feats i c s >>= λ s'. loop config candles feats (suc i) rest s'

  -- `_simulate`
  unfoldable pub simulate : BacktestConfig → List Candle → List F → Except Escape BacktestResult
  simulate config [] feats = raise index_error
  simulate config (c ∷ cs) feats = loop config (c ∷ cs) feats 0 (c ∷ cs) (begin config c) >>= λ s.
      conclude config (last_of c cs) s

  -- The event for a result.
  abbrev pub completed : BacktestConfig → BacktestResult → BacktestCompleted
  completed config r = record {
    symbol = config.symbol;
    strategy_id = config.strategy_id;
    trade_count = r.trade_count;
    total_return_pct = r.total_return_pct;
  }

  abbrev pub Outcome : Type 0
  Outcome = Except Escape (Result BacktestResult DomainError) × List BacktestCompleted

  -- From the candles to the return.
  unfoldable pub run_over : BacktestConfig → List Candle → List BacktestCompleted → Outcome
  run_over config candles events =
      if ltb (length candles) 30
      then (
        ok (
            err_result (record {
              class = insufficient_data;
              message = text "not enough candles for backtest";
              provider = none;
            })),
        events,
      )
      else elim (simulate config candles (p.compute candles)) [
        | raise e ↦ (raise e, events)
        | ok result ↦ (ok (ok_result result), events ++ (completed config result ∷ []))
      ]

  -- `run`
  unfoldable pub run : BacktestConfig → List BacktestCompleted → Outcome
  run config events = elim (p.get_strategy config.strategy_id) [
    | none ↦ (raise (domain (unknown config.strategy_id)), events)
    | some _ ↦ elim (symbol_of config.symbol []) [
      | none ↦ (raise invalid_value, events)
      | some symbol ↦ elim (parse_timeframe config.timeframe) [
        | none ↦ (raise invalid_value, events)
        | some timeframe ↦
            run_over config (p.query_range symbol timeframe config.start config.end) events
      ]
    ]
  ]

  -- `walk_forward` over the folds that are left, from the fold k on; the bounds of a fold are
  -- floating-point shares of the range, a parameter.
  unfoldable pub walk :
      (bounds : ℕ → ℕ × ℕ)
      → BacktestConfig
      → (k left : ℕ) → List BacktestCompleted
      → Except Escape (List BacktestResult) × List BacktestCompleted
  walk bounds config k zero events = (ok [], events)
  walk bounds config k (suc left) events =
      let cfg : BacktestConfig = record config {
        start = (bounds k).0;
        end = (bounds k).1;
        seed = some (elim config.seed [ none ↦ pos k | some seed ↦ seed +ℤ pos k ]);
      } in
      let (r, events') = run cfg events in
      let (rest, events'') = walk bounds config (suc k) left events' in
      elim r [
        | raise e ↦ (raise e, events')
        | ok res ↦ elim rest [
          | raise e ↦ (raise e, events'')
          | ok results ↦ elim res.value [
            | none ↦ (ok results, events'')
            | some result ↦ (ok (result ∷ results), events'')
          ]
        ]
      ]

  -- `walk_forward`; no folds are a division by zero.
  unfoldable pub walk_forward :
      (bounds : ℕ → ℕ × ℕ)
      → BacktestConfig
      → ℕ
      → List BacktestCompleted
      → Except Escape (List BacktestResult) × List BacktestCompleted
  walk_forward bounds config zero events = (raise division_by_zero, events)
  walk_forward bounds config (suc folds) events = walk bounds config 0 (suc folds) events
