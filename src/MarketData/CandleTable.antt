-- ===== src/MarketData/CandleTable.antt =====
-- app/infrastructure/stores/clickhouse/candle_store.py: the candles as rows of a table. The
-- database is a parameter, with its queries; a float that a row is written with is one too. A
-- datetime is a number of microseconds and is one of UTC.
use self_learning_trading_ag.Base.{
  ℕ, ◌≡◌, refl, Bool, true, Option, some, List, [], ◌∷◌, Text, map, length, arith, if◌then◌else◌,
}
use self_learning_trading_ag.Decimal.{Decimal}
use self_learning_trading_ag.MarketData.Entities.{
  Symbol, symbol_of, Timeframe, timeframe_value, parse_timeframe, Candle,
}
use self_learning_trading_ag.MarketData.Vendors.{◌>>=◌}
use self_learning_trading_ag.MarketData.Ingest.{CandleStore}
use mathlib.Core.List.{reverse}

-- The columns, with the type of the amounts.
pub record CandleRow (A : Type 0) : Type 0 where
  pub symbol : Text
  pub timeframe : Text
  pub opened_at : ℕ
  pub open_price : A
  pub high : A
  pub low : A
  pub close : A
  pub volume : A
  pub exchange : Text

-- The database: the command `_DDL`, an insertion, and the queries `_SELECT` and `_SELECT_LATEST`.
pub record ClickHouse (F : Type 0) : Type 1 where
  pub Tables : Type 0
  pub ddl : Tables → Tables
  pub insert : List (CandleRow F) → Tables → Tables
  pub select : (symbol timeframe : Text) (start end : ℕ) → Tables → List (CandleRow Decimal)
  pub select_latest : (symbol timeframe : Text) (limit : ℕ) → Tables → List (CandleRow Decimal)

-- The row of a candle.
unfoldable pub candle_row : {F : Type 0} → (Decimal → F) → Candle → CandleRow F
candle_row float c = record {
  symbol = c.symbol.code;
  timeframe = timeframe_value c.timeframe;
  opened_at = c.opened_at;
  open_price = float c.open_price;
  high = float c.high;
  low = float c.low;
  close = float c.close;
  volume = float c.volume;
  exchange = c.exchange;
}

-- `_row_to_candle`; `none` is the exception of a code or a timeframe that is none.
unfoldable pub row_to_candle : CandleRow Decimal → Option Candle
row_to_candle r = do
  symbol ← symbol_of r.symbol []
  timeframe ← parse_timeframe r.timeframe
  some (record {
    symbol = symbol;
    timeframe = timeframe;
    opened_at = r.opened_at;
    open_price = r.open_price;
    high = r.high;
    low = r.low;
    close = r.close;
    volume = r.volume;
    exchange = r.exchange;
  })

unfoldable pub rows_to_candles : List (CandleRow Decimal) → Option (List Candle)
rows_to_candles [] = some []
rows_to_candles (r ∷ rs) = do
  candle ← row_to_candle r
  candles ← rows_to_candles rs
  some (candle ∷ candles)

module _ {F : Type 0} (db : ClickHouse F) (float : Decimal → F) where
  -- The tables, and whether the store has asked for its own.
  pub record StoreState : Type 0 where
    pub tables : db.Tables
    pub initialized : Bool

  -- `_ensure_table`
  unfoldable pub ensure_table : StoreState → StoreState
  ensure_table s =
      if s.initialized then s else record { tables = db.ddl s.tables; initialized = true }

  -- `append`
  unfoldable pub append_rows : List Candle → StoreState → ℕ × StoreState
  append_rows [] s = (0, s)
  append_rows (c ∷ cs) s =
      let s' = ensure_table s in
      let rows = map (candle_row float) (c ∷ cs) in
      (length rows, record s' { tables = db.insert rows s'.tables })

  -- `query_range`
  unfoldable pub query_range :
      Symbol → Timeframe → (start end : ℕ) → StoreState → Option (List Candle) × StoreState
  query_range symbol timeframe start end s =
      let s' = ensure_table s in
      (rows_to_candles (db.select symbol.code (timeframe_value timeframe) start end s'.tables), s')

  -- `latest`: the query gives the newest row first.
  unfoldable pub latest_rows :
      Symbol → Timeframe → (n : ℕ) → StoreState → Option (List Candle) × StoreState
  latest_rows symbol timeframe n s =
      let s' = ensure_table s in
      (
        rows_to_candles
            (reverse (db.select_latest symbol.code (timeframe_value timeframe) n s'.tables)),
        s',
      )

  -- The store as the port.
  abbrev pub clickhouse_store : CandleStore
  clickhouse_store = record {
    Table = StoreState;
    append = append_rows;
    query_range = query_range;
    latest = latest_rows;
  }

  length-map : (cs : List Candle) → length (map (candle_row float) cs) ≡ length cs
  length-map [] = refl
  length-map (c ∷ cs) = ground (arith, length-map cs)

  -- The count that `append` reports is that of the candles that it is given.
  pub append_rows-length : (cs : List Candle) (s : StoreState) → (append_rows cs s).0 ≡ length cs
  unfolding append_rows
  append_rows-length [] s = refl
  append_rows-length (c ∷ cs) s = length-map (c ∷ cs)
