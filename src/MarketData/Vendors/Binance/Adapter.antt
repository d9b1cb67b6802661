-- ===== src/MarketData/Vendors/Binance/Adapter.antt =====
-- app/modules/marketdata/infrastructure/providers/exchange/binance: the client and the adapter.
-- The calls of ccxt are parameters, with the state of what they reach. A datetime is a number of
-- microseconds.
use self_learning_trading_ag.Base.{
  ℕ, ◌/◌, Bool, true, false, ◌||◌, ◌==◌, Option, none, some, List, [], ◌∷◌, map, Text, text_eq,
  upper, Except, ok, raise, leb, if◌then◌else◌,
}
use self_learning_trading_ag.Parse.Json.{Json, Object}
use self_learning_trading_ag.Tooling.Policy.{Failure, domain, other, Call, Breaker, Policy, run}
use self_learning_trading_ag.MarketData.Entities.{
  Symbol, Timeframe, timeframe_value, Candle, Ticker,
}
use self_learning_trading_ag.MarketData.Vendors.{fetched, to_timestamp}
use self_learning_trading_ag.MarketData.Vendors.Binance.{
  binance, SdkException, handle_binance_error, kline_of, to_candle, to_binance_ticker,
}

-- `sorted(candles, key=lambda c: c.opened_at)`, which is stable.
unfoldable pub insert_candle : Candle → List Candle → List Candle
insert_candle c [] = c ∷ []
insert_candle c (d ∷ ds) =
    let rest = insert_candle c ds in if leb c.opened_at d.opened_at then c ∷ (d ∷ ds) else d ∷ rest

unfoldable pub sorted_candles : List Candle → List Candle
sorted_candles [] = []
sorted_candles (c ∷ cs) = insert_candle c (sorted_candles cs)

-- `int(c.opened_at.timestamp())`
abbrev pub second : Candle → ℕ
second c = to_timestamp c.opened_at

unfoldable pub in_seconds : ℕ → List ℕ → Bool
in_seconds n [] = false
in_seconds n (x ∷ xs) = (x == n) || in_seconds n xs

-- The loop of `_sort_unique`.
unfoldable pub unique_from : List ℕ → List Candle → List Candle
unique_from seen [] = []
unique_from seen (c ∷ cs) = elim (in_seconds (second c) seen) [
  | true ↦ unique_from seen cs
  | false ↦ c ∷ unique_from (second c ∷ seen) cs
]

-- `_sort_unique`
unfoldable pub sort_unique : List Candle → List Candle
sort_unique candles = unique_from [] (sorted_candles candles)

-- The candle of one row.
unfoldable pub row_candle : (Json → Text) → Symbol → Timeframe → List Json → Except Failure Candle
row_candle repr symbol timeframe row = elim (kline_of repr row) [
  | none ↦ raise other
  | some kline ↦ to_candle kline symbol timeframe binance
]

-- The candles of the rows that are not empty.
unfoldable pub klines_candles :
    (Json → Text) → Symbol → Timeframe → List (List Json) → Except Failure (List Candle)
klines_candles repr symbol timeframe [] = ok []
klines_candles repr symbol timeframe ([] ∷ rows) = klines_candles repr symbol timeframe rows
klines_candles repr symbol timeframe ((v ∷ row) ∷ rows) =
    elim (row_candle repr symbol timeframe (v ∷ row)) [
      | raise e ↦ raise e
      | ok candle ↦ elim (klines_candles repr symbol timeframe rows) [
        | raise e ↦ raise e
        | ok candles ↦ ok (candle ∷ candles)
      ]
    ]

unfoldable pub answer_klines :
    (Json → Text)
    → Symbol
    → Timeframe
    → Except Failure (List (List Json))
    → Except Failure (List Candle)
answer_klines repr symbol timeframe (raise e) = raise e
answer_klines repr symbol timeframe (ok rows) = elim (klines_candles repr symbol timeframe rows) [
  | raise e ↦ raise e
  | ok candles ↦ ok (sort_unique candles)
]

-- `except Exception as exc: raise handle_binance_error(exc)`
unfoldable pub guard_sdk : {A : Type 0} → Except SdkException A → Except Failure A
guard_sdk (ok a) = ok a
guard_sdk (raise e) = raise (domain (handle_binance_error e))

-- `raw[code]` of the tickers.
unfoldable pub find_raw : Text → List (Text × Object) → Option Object
find_raw code [] = none
find_raw code ((k, v) ∷ rest) = if text_eq k code then some v else find_raw code rest

-- `by_code[code]`: the last symbol with the code.
unfoldable pub symbol_by_code : Text → List Symbol → Option Symbol
symbol_by_code code [] = none
symbol_by_code code (s ∷ ss) = elim (symbol_by_code code ss) [
  | some t ↦ some t
  | none ↦ if text_eq (upper s.code) code then some s else none
]

-- The tickers of the codes that the answer has.
unfoldable pub codes_tickers :
    List Symbol → List (Text × Object) → List Text → Except Failure (List Ticker)
codes_tickers symbols raw [] = ok []
codes_tickers symbols raw (code ∷ codes) = elim (find_raw code raw) [
  | none ↦ codes_tickers symbols raw codes
  | some entry ↦ elim (symbol_by_code code symbols) [
    | none ↦ raise other
    | some symbol ↦ elim (to_binance_ticker entry symbol binance) [
      | raise e ↦ raise e
      | ok ticker ↦ elim (codes_tickers symbols raw codes) [
        | raise e ↦ raise e
        | ok tickers ↦ ok (ticker ∷ tickers)
      ]
    ]
  ]
]

-- `exchange.fetch_ohlcv` and `exchange.fetch_tickers` of ccxt.
pub record Sdk (S : Type 0) : Type 0 where
  pub ohlcv :
      (code timeframe : Text) (since_ms : Option ℕ) (limit : ℕ)
      → S
      → Except SdkException (List (List Json)) × S
  pub tickers : Option (List Text) → S → Except SdkException (List (Text × Object)) × S

module _ {S : Type 0} (repr : Json → Text) (sdk : Sdk S) where
  -- `fetch_ohlcv`
  unfoldable pub fetch_ohlcv : Text → Text → Option ℕ → ℕ → Call S (List (List Json))
  fetch_ohlcv code timeframe since_ms limit s =
      let (r, s') = sdk.ohlcv code timeframe since_ms limit s in (guard_sdk r, s')

  -- `symbol_codes or None`
  unfoldable pub codes_or_none : List Text → Option (List Text)
  codes_or_none [] = none
  codes_or_none (c ∷ cs) = some (c ∷ cs)

  -- `fetch_tickers_raw`
  unfoldable pub fetch_tickers_raw : List Text → Call S (List (Text × Object))
  fetch_tickers_raw codes s = let (r, s') = sdk.tickers (codes_or_none codes) s in (guard_sdk r, s')

  -- `_fetch_and_map_ohlcv`
  unfoldable pub fetch_and_map_ohlcv : Symbol → Timeframe → Option ℕ → ℕ → Call S (List Candle)
  fetch_and_map_ohlcv symbol timeframe since_ms limit s =
      let (r, s') = fetch_ohlcv (upper symbol.code) (timeframe_value timeframe) since_ms limit s in
      (answer_klines repr symbol timeframe r, s')

  unfoldable pub since_millis : Option ℕ → Option ℕ
  since_millis none = none
  since_millis (some t) = some (t / 1000)

  -- `fetch_candles`
  unfoldable pub binance_fetch_candles :
      Policy S (List Candle)
      → Symbol
      → Timeframe
      → (since : Option ℕ) (limit : ℕ) → Breaker × S
      → Option (Except Failure (List Candle) × (Breaker × S))
  binance_fetch_candles policy symbol timeframe since limit w =
      run policy (fetch_and_map_ohlcv symbol timeframe (since_millis since) limit) w

  -- `fetch_tickers`
  unfoldable pub binance_fetch_tickers :
      Policy S (List (Text × Object))
      → List Symbol
      → Breaker × S
      → Option (Except Failure (List Ticker) × (Breaker × S))
  binance_fetch_tickers policy symbols w =
      let codes = map (λ s. upper s.code) symbols in
      fetched (λ raw. codes_tickers symbols raw codes) (run policy (fetch_tickers_raw codes) w)
