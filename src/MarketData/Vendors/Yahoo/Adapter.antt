-- ===== src/MarketData/Vendors/Yahoo/Adapter.antt =====
-- app/modules/marketdata/infrastructure/providers/aggregator/yahoo: the client and the adapter.
-- What a request gets is a parameter, with the state of what it reaches, and so is what pydantic
-- makes of a payload. A datetime is a number of microseconds, and a limit is not negative.
use self_learning_trading_ag.Base.{
  ℕ, Option, none, some, List, [], ◌∷◌, ◌++◌, Text, text, Except, ok, raise,
}
use self_learning_trading_ag.Core.Errors.{DomainError, unsupported_capability}
use self_learning_trading_ag.Parse.Json.{Json, Object}
use self_learning_trading_ag.Tooling.Http.{Answer, get_json}
use self_learning_trading_ag.Tooling.Policy.{Failure, domain, Call, Breaker, Policy, run}
use self_learning_trading_ag.MarketData.Entities.{
  Symbol, Timeframe, timeframe_value, m1, m5, h1, h4, d1, Candle, Ticker,
}
use self_learning_trading_ag.MarketData.Vendors.{malformed, to_timestamp, last_items, fetched}
use self_learning_trading_ag.MarketData.Vendors.Yahoo.{
  yahoo, YahooChart, YahooChartResult, handle_yahoo_error, to_yahoo_symbol, chart_candles,
  chart_ticker,
}

-- `_INTERVALS`
unfoldable pub chart_interval : Timeframe → Option Text
chart_interval m1 = some (text "1m")
chart_interval m5 = some (text "5m")
chart_interval h1 = some (text "1h")
chart_interval h4 = none
chart_interval d1 = some (text "1d")

-- `_window`
unfoldable pub window : (now : ℕ) → Option ℕ → Option (ℕ × ℕ)
window now none = none
window now (some since) = some (to_timestamp since, to_timestamp now)

-- The first result, if there is one.
unfoldable pub first_result : Option (List YahooChartResult) → Except Failure YahooChartResult
first_result (some (r ∷ rs)) = ok r
first_result _ = raise (domain (malformed yahoo (text "yahoo chart returned no result")))

-- The end of `fetch_chart`, from the chart of the envelope on. An empty error counts as none.
unfoldable pub chart_result : (Json → Text) → YahooChart → Except Failure YahooChartResult
chart_result repr chart = elim chart.error [
  | none ↦ first_result chart.result
  | some Object.no_field ↦ first_result chart.result
  | some (Object.field k v rest) ↦ raise (domain (handle_yahoo_error repr (Object.field k v rest)))
]

-- From the payload on; `read` is `YahooEnvelope.model_validate`.
unfoldable pub chart_payload :
    (Json → Text)
    → (read : Json → Option YahooChart) → Except DomainError Json
    → Except Failure YahooChartResult
chart_payload repr read (raise e) = raise (domain e)
chart_payload repr read (ok payload) = elim (read payload) [
  | none ↦ raise (domain (malformed yahoo (text "yahoo payload did not match the expected schema")))
  | some chart ↦ chart_result repr chart
]

-- The candles of a chart for the limit.
unfoldable pub answer_chart :
    Symbol → Timeframe → (limit : ℕ) → YahooChartResult → Except Failure (List Candle)
answer_chart symbol timeframe limit chart = elim (chart_candles chart symbol timeframe yahoo) [
  | raise e ↦ raise (domain e)
  | ok candles ↦ ok (last_items limit candles)
]

abbrev pub unsupported : Timeframe → DomainError
unsupported timeframe = record {
  class = unsupported_capability;
  message = text "yahoo does not serve " ++ (timeframe_value timeframe ++ text " candles");
  provider = some yahoo;
}

module _ {S : Type 0} (show : ℕ → Text) (repr : Json → Text) (read : Json → Option YahooChart)
    (send : Text → List (Text × Text) → S → Answer Json × S)
    (policy : Policy S YahooChartResult) where
  -- The parameters of a request for a chart.
  unfoldable pub chart_params : Text → Option (ℕ × ℕ) → List (Text × Text)
  chart_params interval period =
      ((text "interval", interval) ∷ ((text "includePrePost", text "false") ∷ [])) ++ elim period [
        | none ↦ (text "range", text "1mo") ∷ []
        | some (from, to) ↦ (text "period1", show from) ∷ ((text "period2", show to) ∷ [])
      ]

  -- `fetch_chart`
  unfoldable pub fetch_chart : Text → Text → Option (ℕ × ℕ) → Call S YahooChartResult
  fetch_chart symbol_code interval period s =
      let (a, s') =
        send (text "/v8/finance/chart/" ++ symbol_code) (chart_params interval period) s in
      (chart_payload repr read (get_json show yahoo a), s')

  -- `fetch_candles`
  unfoldable pub chart_fetch_candles :
      (now : ℕ)
      → Symbol
      → Timeframe
      → (since : Option ℕ) (limit : ℕ) → Breaker × S
      → Option (Except Failure (List Candle) × (Breaker × S))
  chart_fetch_candles now symbol timeframe since limit w = elim (chart_interval timeframe) [
    | none ↦ some (raise (domain (unsupported timeframe)), w)
    | some interval ↦
        fetched (answer_chart symbol timeframe limit)
          (run policy (fetch_chart (to_yahoo_symbol symbol) interval (window now since)) w)
  ]

  -- `fetch_tickers`
  unfoldable pub chart_fetch_tickers :
      List Symbol → Breaker × S → Option (Except Failure (List Ticker) × (Breaker × S))
  chart_fetch_tickers [] w = some (ok [], w)
  chart_fetch_tickers (symbol ∷ symbols) w =
      elim (fetched (λ chart. chart_ticker chart symbol yahoo)
        (run policy (fetch_chart (to_yahoo_symbol symbol) (text "1d") none) w)) [
          | none ↦ none
          | some (raise e, w') ↦ some (raise e, w')
          | some (ok ticker, w') ↦ elim (chart_fetch_tickers symbols w') [
            | none ↦ none
            | some (raise e, w'') ↦ some (raise e, w'')
            | some (ok tickers, w'') ↦ some (ok (ticker ∷ tickers), w'')
          ]
        ]
