-- ===== src/MarketData/Vendors/TwelveData/Adapter.antt =====
-- app/modules/marketdata/infrastructure/providers/aggregator/twelvedata: the client and the
-- adapter. What a request gets is a parameter, with the state of what it reaches, and so is what
-- pydantic makes of a payload. A datetime is a number of microseconds, shown by `strftime`; a
-- limit is not negative.
use self_learning_trading_ag.Base.{
  ℕ, Bool, false, Option, none, some, List, [], ◌∷◌, ◌++◌, Text, text, text_eq, is_empty, Except,
  ok, raise, leb, if◌then◌else◌,
}
use self_learning_trading_ag.Int.{pos}
use self_learning_trading_ag.Core.Errors.{DomainError, unsupported_capability}
use self_learning_trading_ag.Parse.Json.{Json, Object, get_field}
use self_learning_trading_ag.Parse.Numbers.{parse_int}
use self_learning_trading_ag.Tooling.Http.{Answer, get_json}
use self_learning_trading_ag.Tooling.Policy.{Failure, domain, Call, Breaker, Policy, run}
use self_learning_trading_ag.MarketData.Entities.{
  Symbol, Timeframe, timeframe_value, m1, m5, h1, h4, d1, Candle, Ticker,
}
use self_learning_trading_ag.MarketData.Vendors.{malformed, show_json, truthy, last_items, fetched}
use self_learning_trading_ag.MarketData.Vendors.TwelveData.{
  twelvedata, Code, handle_twelvedata_error, TwelveValue, TwelveQuote, series_candles, quote_ticker,
}

-- `_INTERVALS`
unfoldable pub series_interval : Timeframe → Option Text
series_interval m1 = some (text "1min")
series_interval m5 = some (text "5min")
series_interval h1 = some (text "1h")
series_interval h4 = some (text "4h")
series_interval d1 = some (text "1day")

-- `_stamp`
unfoldable pub stamp : (strftime : ℕ → Text → Text) → ℕ → Timeframe → Text
stamp strftime moment d1 = strftime moment (text "%Y-%m-%d")
stamp strftime moment _ = strftime moment (text "%Y-%m-%d %H:%M:%S")

-- `code if isinstance(code, int) else None`; a Boolean is an int.
unfoldable pub int_code : Option Json → Option Code
int_code (some (Json.number s)) = elim (parse_int s) [ none ↦ none | some n ↦ some (n, s) ]
int_code (some (Json.boolean b)) = some (if b then (pos 1, text "True") else (pos 0, text "False"))
int_code _ = none

-- `str(payload.get("message") or "")`
unfoldable pub message_of : (Json → Text) → Option Json → Text
message_of repr none = []
message_of repr (some v) = if truthy v then show_json repr v else []

-- `payload.get("status") == "error"`
unfoldable pub says_error : Object → Bool
says_error o = elim (get_field (text "status") o) [
  | some (Json.string s) ↦ text_eq s (text "error")
  | some _ ↦ false
  | none ↦ false
]

-- `_raise_if_error`: the error of a payload, if it tells one.
unfoldable pub told_error : (Json → Text) → Json → Option DomainError
told_error repr (Json.object o) =
    if says_error o
    then some (
        handle_twelvedata_error (int_code (get_field (text "code") o))
          (message_of repr (get_field (text "message") o)))
    else none
told_error repr _ = none

-- A payload without an error, as pydantic reads it.
unfoldable pub read_payload :
    {A : Type 0} → (Json → Text) → (Json → Option A) → Except DomainError Json → Except Failure A
read_payload repr read (raise e) = raise (domain e)
read_payload repr read (ok payload) = elim (told_error repr payload) [
  | some e ↦ raise (domain e)
  | none ↦ elim (read payload) [
    | none ↦ raise (
        domain
          (malformed twelvedata (text "twelve data payload did not match the expected schema")))
    | some a ↦ ok a
  ]
]

-- `min(limit, _MAX_OUTPUT)`
unfoldable pub output_size : ℕ → ℕ
output_size limit = if leb limit 5000 then limit else 5000

abbrev pub not_served : Timeframe → DomainError
not_served timeframe = record {
  class = unsupported_capability;
  message = text "twelve data does not serve " ++ (timeframe_value timeframe ++ text " candles");
  provider = some twelvedata;
}

-- A parameter that is left out if it is empty.
unfoldable pub optional_param : Text → Option Text → List (Text × Text)
optional_param name none = []
optional_param name (some s) = if is_empty s then [] else (name, s) ∷ []

-- The standard library, the configured key, and what reaches the vendor.
pub record Outside (S : Type 0) : Type 0 where
  pub show : ℕ → Text
  pub repr : Json → Text
  pub strptime : Text → Text → Option ℕ
  pub strftime : ℕ → Text → Text
  pub api_key : Text
  pub send : Text → List (Text × Text) → S → Answer Json × S

module _ {S : Type 0} (o : Outside S) where
  -- `fetch_time_series`
  unfoldable pub fetch_time_series :
      (read : Json → Option (List TwelveValue))
      → (code interval : Text) → ℕ
      → (start_date end_date : Option Text) → Call S (List TwelveValue)
  fetch_time_series read code interval outputsize start_date end_date s =
      let (a, s') =
        o.send (text "/time_series")
          (((text "symbol", code)
              ∷ ((text "interval", interval)
                  ∷ ((text "outputsize", o.show outputsize) ∷ ((text "apikey", o.api_key) ∷ []))))
            ++ (optional_param (text "start_date") start_date
                ++ optional_param (text "end_date") end_date))
          s in
      (read_payload o.repr read (get_json o.show twelvedata a), s')

  -- `fetch_quote`
  unfoldable pub fetch_quote : (read : Json → Option TwelveQuote) → Text → Call S TwelveQuote
  fetch_quote read code s =
      let (a, s') =
        o.send (text "/quote") ((text "symbol", code) ∷ ((text "apikey", o.api_key) ∷ [])) s in
      (read_payload o.repr read (get_json o.show twelvedata a), s')

  -- The candles of a series for the limit.
  unfoldable pub answer_series :
      Symbol → Timeframe → (limit : ℕ) → List TwelveValue → Except Failure (List Candle)
  answer_series symbol timeframe limit values =
      elim (series_candles o.strptime values symbol timeframe twelvedata) [
        | raise e ↦ raise (domain e)
        | ok candles ↦ ok (last_items limit candles)
      ]

  unfoldable pub start_stamp : Option ℕ → Timeframe → Option Text
  start_stamp none timeframe = none
  start_stamp (some since) timeframe = some (stamp o.strftime since timeframe)

  -- `fetch_candles`
  unfoldable pub series_fetch_candles :
      (read : Json → Option (List TwelveValue))
      → Policy S (List TwelveValue)
      → Symbol
      → Timeframe
      → (since : Option ℕ) (limit : ℕ) → Breaker × S
      → Option (Except Failure (List Candle) × (Breaker × S))
  series_fetch_candles read policy symbol timeframe since limit w =
      elim (series_interval timeframe) [
        | none ↦ some (raise (domain (not_served timeframe)), w)
        | some interval ↦ fetched (answer_series symbol timeframe limit) (
            run policy
              (fetch_time_series read symbol.code interval (output_size limit)
                (start_stamp since timeframe) none)
              w)
      ]

  -- `fetch_tickers`, with the time at which it starts.
  unfoldable pub quote_fetch_tickers :
      (read : Json → Option TwelveQuote)
      → Policy S TwelveQuote
      → (observed_at : ℕ) → List Symbol
      → Breaker × S
      → Option (Except Failure (List Ticker) × (Breaker × S))
  quote_fetch_tickers read policy observed_at [] w = some (ok [], w)
  quote_fetch_tickers read policy observed_at (symbol ∷ symbols) w =
      elim (fetched (λ quote. quote_ticker quote symbol observed_at twelvedata)
        (run policy (fetch_quote read symbol.code) w)) [
          | none ↦ none
          | some (raise e, w') ↦ some (raise e, w')
          | some (ok ticker, w') ↦ elim (quote_fetch_tickers read policy observed_at symbols w') [
            | none ↦ none
            | some (raise e, w'') ↦ some (raise e, w'')
            | some (ok tickers, w'') ↦ some (ok (ticker ∷ tickers), w'')
          ]
        ]
