-- ===== src/MarketData/Vendors/Kraken/Adapter.antt =====
-- app/modules/marketdata/infrastructure/providers/exchange/kraken: the client and the adapter.
-- What a request gets is a parameter, with the state of what it reaches. A datetime is a number of
-- microseconds, and a limit is not negative.
use self_learning_trading_ag.Base.{
  ℕ, ◌/◌, Option, none, some, List, [], ◌∷◌, ◌++◌, Text, text, Except, ok, raise,
}
use self_learning_trading_ag.Core.Errors.{DomainError}
use self_learning_trading_ag.Parse.Json.{Json, Array, Object, get_field}
use self_learning_trading_ag.Tooling.Http.{Answer, get_json}
use self_learning_trading_ag.Tooling.Policy.{Failure, domain, Call, Breaker, Policy, run}
use self_learning_trading_ag.MarketData.Entities.{
  Symbol, Timeframe, m1, m5, h1, h4, d1, Candle, Ticker,
}
use self_learning_trading_ag.MarketData.Vendors.{malformed, last_items, fetched}
use self_learning_trading_ag.MarketData.Vendors.Kraken.{
  kraken, handle_kraken_errors, to_kraken_pair, first_entry, to_candles, to_ticker,
}

-- The fields of `KrakenResponse`, as pydantic reads them; `none` is a `ValidationError`.
unfoldable pub texts_of : Array → Option (List Text)
texts_of Array.no_element = some []
texts_of (Array.element (Json.string s) rest) = elim (texts_of rest) [
  | none ↦ none
  | some ss ↦ some (s ∷ ss)
]
texts_of (Array.element _ rest) = none

unfoldable pub read_errors : Option Json → Option (List Text)
read_errors none = some []
read_errors (some (Json.array a)) = texts_of a
read_errors (some _) = none

unfoldable pub read_result : Option Json → Option Object
read_result none = some Object.no_field
read_result (some (Json.object o)) = some o
read_result (some _) = none

-- The fields of the envelope, if both can be read.
unfoldable pub read_response : Json → Option (List Text × Object)
read_response (Json.object o) = elim (read_errors (get_field (text "error") o)) [
  | none ↦ none
  | some errors ↦ elim (read_result (get_field (text "result") o)) [
    | none ↦ none
    | some result ↦ some (errors, result)
  ]
]
read_response _ = none

-- The end of `_request`, from the payload on.
unfoldable pub answer_payload : Except DomainError Json → Except Failure Object
answer_payload (raise e) = raise (domain e)
answer_payload (ok payload) = elim (read_response payload) [
  | none ↦
      raise (domain (malformed kraken (text "kraken payload did not match the expected schema")))
  | some ([], result) ↦ ok result
  | some (e ∷ es, result) ↦ raise (domain (handle_kraken_errors (e ∷ es)))
]

-- `_INTERVALS`
unfoldable pub interval : Timeframe → ℕ
interval m1 = 1
interval m5 = 5
interval h1 = 60
interval h4 = 240
interval d1 = 1440

-- The milliseconds of `since`.
unfoldable pub to_ms : Option ℕ → Option ℕ
to_ms none = none
to_ms (some t) = some (t / 1000)

-- The candles of the result of a request: `result.get(pair, first_entry(result))` looks for the
-- first entry in any case.
unfoldable pub answer_candles :
    Text → Symbol → Timeframe → (limit : ℕ) → Object → Except Failure (List Candle)
answer_candles pair symbol timeframe limit result = elim (first_entry result) [
  | raise e ↦ raise (domain e)
  | ok entry ↦
      elim (to_candles
        (elim (get_field pair result) [ some rows ↦ rows | none ↦ Json.object entry ]) symbol
        timeframe kraken) [ raise e ↦ raise e | ok candles ↦ ok (last_items limit candles) ]
]

-- The ticker of the result of a request.
unfoldable pub answer_ticker : Symbol → (observed_at : ℕ) → Object → Except Failure Ticker
answer_ticker symbol observed_at result = elim (first_entry result) [
  | raise e ↦ raise (domain e)
  | ok entry ↦ elim (to_ticker entry symbol observed_at kraken) [
    | raise e ↦ raise (domain e)
    | ok ticker ↦ ok ticker
  ]
]

module _ {S : Type 0} (show : ℕ → Text) (send : Text → List (Text × Text) → S → Answer Json × S)
    (policy : Policy S Object) where
  -- `_request`
  unfoldable pub request : Text → List (Text × Text) → Call S Object
  request path params s =
      let (a, s') = send path params s in (answer_payload (get_json show kraken a), s')

  -- `fetch_ohlc`
  unfoldable pub fetch_ohlc : Text → ℕ → Option ℕ → Call S Object
  fetch_ohlc pair minutes since_ms =
      let params = (text "pair", pair) ∷ ((text "interval", show minutes) ∷ []) in
      request (text "/0/public/OHLC")
        (elim since_ms [ none ↦ params | some ms ↦ params ++ ((text "since", show ms) ∷ []) ])

  -- `fetch_ticker`
  unfoldable pub fetch_ticker : Text → Call S Object
  fetch_ticker pair = request (text "/0/public/Ticker") ((text "pair", pair) ∷ [])

  -- `fetch_candles`
  unfoldable pub fetch_candles :
      Symbol
      → Timeframe
      → (since : Option ℕ) (limit : ℕ) → Breaker × S
      → Option (Except Failure (List Candle) × (Breaker × S))
  fetch_candles symbol timeframe since limit w =
      let pair = to_kraken_pair symbol in
      fetched (answer_candles pair symbol timeframe limit)
        (run policy (fetch_ohlc pair (interval timeframe) (to_ms since)) w)

  -- `fetch_tickers`, with the time at which it starts.
  unfoldable pub fetch_tickers :
      (observed_at : ℕ)
      → List Symbol
      → Breaker × S
      → Option (Except Failure (List Ticker) × (Breaker × S))
  fetch_tickers observed_at [] w = some (ok [], w)
  fetch_tickers observed_at (symbol ∷ symbols) w =
      elim (fetched (answer_ticker symbol observed_at)
        (run policy (fetch_ticker (to_kraken_pair symbol)) w)) [
          | none ↦ none
          | some (raise e, w') ↦ some (raise e, w')
          | some (ok ticker, w') ↦ elim (fetch_tickers observed_at symbols w') [
            | none ↦ none
            | some (raise e, w'') ↦ some (raise e, w'')
            | some (ok tickers, w'') ↦ some (ok (ticker ∷ tickers), w'')
          ]
        ]
