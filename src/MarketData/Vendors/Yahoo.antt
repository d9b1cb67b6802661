-- ===== src/MarketData/Vendors/Yahoo.antt =====
-- app/modules/marketdata/infrastructure/providers/aggregator/yahoo: payloads, errors and mapping.
-- A float of the payload is kept as the text that `str` shows.
pub mod Adapter
pub mod Laws
use self_learning_trading_ag.Base.{
  ℕ, ◌≡◌, Bool, true, false, not, ◌||◌, ◌==◌, Option, none, some, List, [], ◌∷◌, ◌++◌, Text, text,
  text_eq, strip, is_empty, Except, ok, raise, if◌then◌else◌,
}
use self_learning_trading_ag.Int.{ℤ, pos, mag}
use self_learning_trading_ag.Decimal.{Decimal, of_int, is_zero}
use self_learning_trading_ag.Core.Errors.{
  DomainError, ErrorClass, authentication, rate_limited, provider_validation, provider_unavailable,
}
use self_learning_trading_ag.Parse.Splits.{partition}
use self_learning_trading_ag.Parse.Json.{Json, Array, Object, get_field}
use self_learning_trading_ag.Tooling.Policy.{Failure, domain, other}
use self_learning_trading_ag.MarketData.Entities.{Symbol, Timeframe, Candle, Ticker}
use self_learning_trading_ag.MarketData.Vendors.{
  malformed, from_timestamp, decimal_of_text, show_json, truthy, ◌>>=◌,
}
use Prim.Native.Char.{code}

abbrev pub yahoo : Text
yahoo = text "yahoo"

-- A float, or null.
abbrev pub Cell : Type 0
Cell = Option Text

pub record YahooQuoteSeries : Type 0 where
  pub open_series : List Cell
  pub high_series : List Cell
  pub low_series : List Cell
  pub close_series : List Cell
  pub volume_series : List Cell

-- The fields of `YahooMeta` that are read.
pub record YahooMeta : Type 0 where
  pub regular_market_price : Cell
  pub chart_previous_close : Cell
  pub regular_market_time : Option ℤ

pub record YahooChartResult : Type 0 where
  pub meta : YahooMeta
  pub timestamp : Option (List ℤ)
  pub quote : List YahooQuoteSeries

pub record YahooChart : Type 0 where
  pub result : Option (List YahooChartResult)
  pub error : Option Object

-- The class that a code names.
unfoldable pub code_class : Text → ErrorClass
code_class c =
    if text_eq c (text "401") || text_eq c (text "403")
    then authentication
    else if text_eq c (text "429")
    then rate_limited
    else if text_eq c (text "400") || text_eq c (text "404") || text_eq c (text "422")
    then provider_validation
    else provider_unavailable

-- `str(error.get("code", "")).strip()`
unfoldable pub payload_code : (Json → Text) → Object → Text
payload_code repr error = elim (get_field (text "code") error) [
  | none ↦ []
  | some v ↦ strip (show_json repr v)
]

unfoldable pub description : (Json → Text) → Object → Text
description repr error = elim (get_field (text "description") error) [
  | none ↦ text "yahoo request failed"
  | some v ↦ if truthy v then show_json repr v else text "yahoo request failed"
]

-- The message of an error of the class.
unfoldable pub error_message : ErrorClass → (code description : Text) → Text
error_message provider_unavailable c d =
    text "yahoo error " ++ ((if is_empty c then text "?" else c) ++ (text ": " ++ d))
error_message _ c d = d

-- `handle_yahoo_error`
unfoldable pub handle_yahoo_error : (Json → Text) → Object → DomainError
handle_yahoo_error repr error = record {
  class = code_class (payload_code repr error);
  message =
      error_message (code_class (payload_code repr error)) (payload_code repr error)
        (description repr error);
  provider = some yahoo;
}

-- `_QUOTE_ALIASES`
unfoldable pub quote_alias : Text → Text
quote_alias q =
    if text_eq q (text "USDT") || text_eq q (text "USDC") || text_eq q (text "BUSD")
    then text "USD"
    else q

-- `to_yahoo_symbol`
unfoldable pub to_yahoo_symbol : Symbol → Text
to_yahoo_symbol symbol =
    let (base, quote) = partition b'/' symbol.code in base ++ (b'-' ∷ quote_alias quote)

-- A row of the chart.
pub record QuoteRow : Type 0 where
  pub opened_at : ℤ
  pub open_cell : Cell
  pub high_cell : Cell
  pub low_cell : Cell
  pub close_cell : Cell
  pub volume_cell : Cell

-- `zip`, as long as the shortest of its arguments.
unfoldable pub zip_rows :
    List ℤ → List Cell → List Cell → List Cell → List Cell → List Cell → List QuoteRow
zip_rows (t ∷ ts) (o ∷ os) (h ∷ hs) (l ∷ ls) (c ∷ cs) (v ∷ vs) =
    (record {
      opened_at = t;
      open_cell = o;
      high_cell = h;
      low_cell = l;
      close_cell = c;
      volume_cell = v;
    })
    ∷ zip_rows ts os hs ls cs vs
zip_rows _ _ _ _ _ _ = []

-- `Decimal(str(volume or 0))`
unfoldable pub volume_of : Cell → Option Decimal
volume_of none = some (of_int (pos 0))
volume_of (some s) = elim (decimal_of_text s) [
  | none ↦ none
  | some d ↦ some (if is_zero d then of_int (pos 0) else d)
]

-- The candle of a row with all four prices; `none` is an exception that the mapping catches.
unfoldable pub priced_candle :
    Symbol → Timeframe → Text → ℤ → (o h l c : Text) → Cell → Option Candle
priced_candle symbol timeframe exchange timestamp o h l c v = do
  opened_at ← from_timestamp timestamp
  open_price ← decimal_of_text o
  high ← decimal_of_text h
  low ← decimal_of_text l
  close ← decimal_of_text c
  volume ← volume_of v
  some (record {
    symbol = symbol;
    timeframe = timeframe;
    opened_at = opened_at;
    open_price = open_price;
    high = high;
    low = low;
    close = close;
    volume = volume;
    exchange = exchange;
  })

-- The four prices of a row, if it has them all.
unfoldable pub prices : QuoteRow → Option (Text × Text × Text × Text)
prices r = do o ← r.open_cell; h ← r.high_cell; l ← r.low_cell; c ← r.close_cell; some (o, h, l, c)

-- `_row_to_candle`
unfoldable pub row_to_candle :
    Symbol → Timeframe → Text → QuoteRow → Except DomainError (Option Candle)
row_to_candle symbol timeframe exchange r = elim (prices r) [
  | none ↦ ok none
  | some (o, h, l, c) ↦
      elim (priced_candle symbol timeframe exchange r.opened_at o h l c r.volume_cell) [
        | none ↦ raise (malformed exchange (text "yahoo candle normalization failed"))
        | some candle ↦ ok (some candle)
      ]
]

-- The candles of the rows that have them.
unfoldable pub rows_to_candles :
    Symbol → Timeframe → Text → List QuoteRow → Except DomainError (List Candle)
rows_to_candles symbol timeframe exchange [] = ok []
rows_to_candles symbol timeframe exchange (r ∷ rs) =
    elim (row_to_candle symbol timeframe exchange r) [
      | raise e ↦ raise e
      | ok found ↦ elim (rows_to_candles symbol timeframe exchange rs) [
        | raise e ↦ raise e
        | ok candles ↦ ok (elim found [ none ↦ candles | some candle ↦ candle ∷ candles ])
      ]
    ]

-- `if not candles`
unfoldable pub some_candles : Except DomainError (List Candle) → Except DomainError (List Candle)
some_candles (raise e) = raise e
some_candles (ok []) = raise (malformed yahoo (text "yahoo chart returned no usable candles"))
some_candles (ok (c ∷ cs)) = ok (c ∷ cs)

-- The rows of a series under its timestamps; none without timestamps.
unfoldable pub series_rows : Option (List ℤ) → YahooQuoteSeries → List QuoteRow
series_rows none s = []
series_rows (some ts) s =
    zip_rows ts s.open_series s.high_series s.low_series s.close_series s.volume_series

-- `to_candles`, with the first series.
unfoldable pub first_series : List YahooQuoteSeries → Option YahooQuoteSeries
first_series [] = none
first_series (s ∷ ss) = some s

unfoldable pub chart_candles :
    YahooChartResult → Symbol → Timeframe → Text → Except DomainError (List Candle)
chart_candles chart symbol timeframe exchange = elim (first_series chart.quote) [
  | none ↦ raise (malformed yahoo (text "yahoo chart carried no quote series"))
  | some s ↦
      some_candles (rows_to_candles symbol timeframe exchange (series_rows chart.timestamp s))
]

-- The last of the timestamps.
unfoldable pub last_timestamp : List ℤ → Option ℤ
last_timestamp [] = none
last_timestamp (t ∷ []) = some t
last_timestamp (t ∷ (u ∷ ts)) = last_timestamp (u ∷ ts)

unfoldable pub latest_stamp : Option (List ℤ) → Option ℤ
latest_stamp none = none
latest_stamp (some ts) = last_timestamp ts

-- `meta.regularMarketTime or (chart.timestamp[-1] if chart.timestamp else None)`
unfoldable pub observation : Option ℤ → Option (List ℤ) → Option ℤ
observation none ts = latest_stamp ts
observation (some t) ts = if mag t == 0 then latest_stamp ts else some t

unfoldable pub last_price : YahooMeta → Cell
last_price meta = elim meta.regular_market_price [
  | none ↦ meta.chart_previous_close
  | some p ↦ some p
]

-- The ticker of a price at a time; a time or a price out of range raises what nothing catches.
unfoldable pub priced_ticker : Symbol → Text → ℤ → Text → Except Failure Ticker
priced_ticker symbol exchange t price = elim (from_timestamp t) [
  | none ↦ raise other
  | some timestamp ↦ elim (decimal_of_text price) [
    | none ↦ raise other
    | some p ↦ ok (record {
      symbol = symbol;
      timestamp = timestamp;
      bid = p;
      ask = p;
      last = p;
      volume_24h = of_int (pos 0);
      exchange = exchange;
    })
  ]
]

-- `to_ticker`
unfoldable pub chart_ticker : YahooChartResult → Symbol → Text → Except Failure Ticker
chart_ticker chart symbol exchange = elim (last_price chart.meta) [
  | none ↦ raise (domain (malformed yahoo (text "yahoo chart carried no tradable price")))
  | some price ↦ elim (observation chart.meta.regular_market_time chart.timestamp) [
    | none ↦ raise (domain (malformed yahoo (text "yahoo chart carried no tradable price")))
    | some t ↦ priced_ticker symbol exchange t price
  ]
]
