-- ===== src/MarketData/Vendors/Binance.antt =====
-- app/modules/marketdata/infrastructure/providers/exchange/binance: errors, rows and mapping.
pub mod Adapter
pub mod Sorting
use self_learning_trading_ag.Base.{
  ℕ, ◌*◌, ◌/◌, ◌^◌, ◌≡◌, Bool, true, false, ◌||◌, ◌==◌, Option, none, some, List, [], ◌∷◌, ◌++◌,
  Text, text, text_eq, Except, ok, raise, leb, if◌then◌else◌,
}
use self_learning_trading_ag.Int.{ℤ, pos, negsuc}
use self_learning_trading_ag.Decimal.{Decimal}
use self_learning_trading_ag.Core.Errors.{
  DomainError, ErrorClass, authentication, rate_limited, provider_timeout, provider_validation,
  provider_unavailable, malformed_data,
}
use self_learning_trading_ag.Parse.Json.{Json, Array, Object, get_field}
use self_learning_trading_ag.Tooling.Policy.{Failure, domain, other}
use self_learning_trading_ag.MarketData.Entities.{Symbol, Timeframe, Candle, Ticker}
use self_learning_trading_ag.MarketData.Vendors.{
  malformed, decimal_of_text, decimal_of, int_of, show_json, ◌>>=◌,
}

abbrev pub binance : Text
binance = text "binance"

-- The classes that `handle_binance_error` asks for.
pub data SdkClass : Type 0 where
  rate_limit_exceeded authentication_error request_timeout network_error : SdkClass
  exchange_not_available on_maintenance ddos_protection exchange_error : SdkClass
  bad_request bad_symbol invalid_order arguments_required value_error : SdkClass

-- An exception: `isinstance` of it, and what `str` and `repr` show.
pub record SdkException : Type 0 where
  pub is_a : SdkClass → Bool
  pub shown : Text
  pub repr : Text

-- Whether one of the classes of an unavailable exchange fits.
unfoldable pub is_down : SdkException → Bool
is_down e =
    e.is_a network_error
    || e.is_a exchange_not_available
    || e.is_a on_maintenance
    || e.is_a ddos_protection
    || e.is_a exchange_error

-- The class of the domain error.
unfoldable pub binance_class : SdkException → ErrorClass
binance_class e =
    if e.is_a rate_limit_exceeded
    then rate_limited
    else if e.is_a authentication_error
    then authentication
    else if e.is_a request_timeout
    then provider_timeout
    else if is_down e
    then provider_unavailable
    else if e.is_a bad_request
        || e.is_a bad_symbol
        || e.is_a invalid_order
        || e.is_a arguments_required
    then provider_validation
    else if e.is_a value_error
    then malformed_data
    else provider_unavailable

-- The message of an error of the class.
unfoldable pub binance_message : ErrorClass → SdkException → Text
binance_message rate_limited e = text "binance rate limit exceeded"
binance_message authentication e = text "binance authentication failed"
binance_message provider_timeout e = text "binance request timed out"
binance_message provider_validation e = text "binance rejected request: " ++ e.shown
binance_message malformed_data e = text "binance payload error: " ++ e.shown
binance_message _ e =
    if is_down e then text "binance unavailable" else text "unexpected binance error: " ++ e.repr

-- `handle_binance_error`
unfoldable pub handle_binance_error : SdkException → DomainError
handle_binance_error e = record {
  class = binance_class e;
  message = binance_message (binance_class e) e;
  provider = some binance;
}

pub record RawKline : Type 0 where
  pub open_time_ms : ℤ
  pub open_text : Text
  pub high_text : Text
  pub low_text : Text
  pub close_text : Text
  pub volume_text : Text

-- `RawKline.of`; `none` is a `ValueError` or a `TypeError`.
unfoldable pub kline_of : (Json → Text) → List Json → Option RawKline
kline_of repr (t ∷ (o ∷ (h ∷ (l ∷ (c ∷ (v ∷ more)))))) = do
  ms ← int_of t
  some (record {
    open_time_ms = ms;
    open_text = show_json repr o;
    high_text = show_json repr h;
    low_text = show_json repr l;
    close_text = show_json repr c;
    volume_text = show_json repr v;
  })
kline_of repr _ = none

-- A time in milliseconds, up to the end of the year 9999. A later one is a `ValueError`, or an
-- `OverflowError` if it is out of the platform's range as well.
pub data Moment : Type 0 where
  moment : ℕ → Moment
  year_out_of_range : Moment
  overflow : Moment

unfoldable pub from_ms : ℤ → Moment
from_ms (pos ms) =
    if leb ms 253402300799999
    then moment (ms * 1000)
    else if leb (2 ^ 63) (ms / 1000)
    then overflow
    else year_out_of_range
from_ms (negsuc _) = year_out_of_range

-- The candle of a row that opens at a time, as far as its amounts can be read.
unfoldable pub kline_candle : RawKline → Symbol → Timeframe → Text → ℕ → Option Candle
kline_candle kline symbol timeframe exchange opened_at = do
  open_price ← decimal_of_text kline.open_text
  high ← decimal_of_text kline.high_text
  low ← decimal_of_text kline.low_text
  close ← decimal_of_text kline.close_text
  volume ← decimal_of_text kline.volume_text
  some (record {
    symbol = symbol;
    timeframe = timeframe;
    opened_at = opened_at;
    open_price = open_price;
    high = high;
    low = low;
    close = close;
    volume = volume;
    exchange = exchange;
  })

abbrev pub bad_kline : DomainError
bad_kline = malformed binance (text "binance kline normalization failed")

-- `to_candle`
unfoldable pub to_candle : RawKline → Symbol → Timeframe → Text → Except Failure Candle
to_candle kline symbol timeframe exchange = elim (from_ms kline.open_time_ms) [
  | overflow ↦ raise (domain bad_kline)
  | year_out_of_range ↦ raise other
  | moment opened_at ↦ elim (kline_candle kline symbol timeframe exchange opened_at) [
    | none ↦ raise (domain bad_kline)
    | some candle ↦ ok candle
  ]
]

-- `Decimal(str(raw.get(name, "0")))`
unfoldable pub amount_or_zero : Text → Object → Option Decimal
amount_or_zero name raw = elim (get_field name raw) [
  | none ↦ decimal_of_text (text "0")
  | some v ↦ decimal_of v
]

-- The ticker at a time, as far as its amounts can be read.
unfoldable pub raw_ticker : Object → Symbol → Text → ℕ → Option Ticker
raw_ticker raw symbol exchange timestamp = do
  bid ← amount_or_zero (text "bidPrice") raw
  ask ← amount_or_zero (text "askPrice") raw
  last ← amount_or_zero (text "lastPrice") raw
  volume_24h ← amount_or_zero (text "quoteVolume") raw
  some (record {
    symbol = symbol;
    timestamp = timestamp;
    bid = bid;
    ask = ask;
    last = last;
    volume_24h = volume_24h;
    exchange = exchange;
  })

abbrev pub bad_ticker : DomainError
bad_ticker = malformed binance (text "binance ticker normalization failed")

-- From the closing time on.
unfoldable pub ticker_at : Object → Symbol → Text → Moment → Except Failure Ticker
ticker_at raw symbol exchange overflow = raise (domain bad_ticker)
ticker_at raw symbol exchange year_out_of_range = raise other
ticker_at raw symbol exchange (moment t) = elim (raw_ticker raw symbol exchange t) [
  | none ↦ raise (domain bad_ticker)
  | some ticker ↦ ok ticker
]

-- `to_ticker`; a closing time that is no number raises what nothing catches.
unfoldable pub to_binance_ticker : Object → Symbol → Text → Except Failure Ticker
to_binance_ticker raw symbol exchange = elim (get_field (text "closeTime") raw) [
  | none ↦ raise (domain bad_ticker)
  | some v ↦ elim (int_of v) [
    | none ↦ raise other
    | some ms ↦ ticker_at raw symbol exchange (from_ms ms)
  ]
]
