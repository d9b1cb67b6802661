-- ===== src/MarketData/Routes.antt =====
-- app/modules/marketdata/presentation: the routes over the ingest and the queries. What
-- `datetime.fromisoformat` reads is a parameter; a datetime is a number of microseconds.
use self_learning_trading_ag.Base.{
  ℕ, ◌-◌, Option, none, some, List, [], Text, text, is_empty, Except, leb, if◌then◌else◌,
}
use self_learning_trading_ag.Core.Errors.{DomainError}
use self_learning_trading_ag.Core.Answers.{Reply, replied, http_error, exception, reply_result}
use self_learning_trading_ag.MarketData.Entities.{
  Symbol, symbol_of, Timeframe, timeframe_value, parse_timeframe, Candle,
}
use self_learning_trading_ag.MarketData.Ingest.{CandleStore, State, SyncSummary, sync, range}

pub record SyncRequest : Type 0 where
  pub symbol : Text
  pub timeframe : Text
  pub limit : ℕ

pub record CandleSummary : Type 0 where
  pub timeframe : Text
  pub symbol : Text
  pub appended : ℕ
  pub fetched : ℕ

abbrev pub candle_summary : Timeframe → SyncSummary → CandleSummary
candle_summary timeframe s = record {
  timeframe = timeframe_value timeframe;
  symbol = s.symbol.code;
  appended = s.appended;
  fetched = s.fetched;
}

-- A time that a query may leave out; the text that is empty counts as left out.
unfoldable pub time_or : (read : Text → Option ℕ) → (otherwise : ℕ) → Option Text → Option ℕ
time_or read otherwise none = some otherwise
time_or read otherwise (some s) = if is_empty s then some otherwise else read s

module _ (store : CandleStore) where
  -- `POST /market-data/sync`; `source` is `fetch_candles` of the source of the service.
  unfoldable pub sync_route :
      (source : Symbol → Timeframe → ℕ → Except DomainError (List Candle))
      → SyncRequest
      → State store
      → Reply CandleSummary × State store
  sync_route source body s =
      if leb body.limit 1000
      then elim (parse_timeframe body.timeframe) [
        | none ↦ (exception, s)
        | some timeframe ↦ elim (symbol_of body.symbol []) [
          | none ↦ (exception, s)
          | some symbol ↦
              let (r, s') = sync store symbol timeframe (source symbol timeframe body.limit) s in
              (reply_result r (candle_summary timeframe), s')
        ]
      ]
      else (http_error 422 (text "validation_error"), s)

  -- The candles between two times, as far as both can be read.
  unfoldable pub candles_between :
      Symbol → Timeframe → (start end : Option ℕ) → store.Table → Reply (List Candle) × store.Table
  candles_between symbol timeframe (some start) (some end) t =
      let (found, t') = range store symbol timeframe start end t in
      (elim found [ none ↦ exception | some candles ↦ replied candles ], t')
  candles_between symbol timeframe _ _ t = (exception, t)

  -- `GET /market-data/candles`: the last day, if no times are given; the limit is not used.
  unfoldable pub candles_route :
      (fromisoformat : Text → Option ℕ) (now : ℕ) (symbol timeframe : Text)
      → (start end : Option Text) (limit : ℕ) → store.Table
      → Reply (List Candle) × store.Table
  candles_route fromisoformat now symbol timeframe start end limit t =
      elim (parse_timeframe timeframe) [
        | none ↦ (exception, t)
        | some tf ↦ elim (symbol_of symbol []) [
          | none ↦ (exception, t)
          | some sym ↦
              candles_between sym tf (time_or fromisoformat (now - 86400000000) start)
                (time_or fromisoformat now end) t
        ]
      ]
