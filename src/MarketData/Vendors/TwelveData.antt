-- ===== src/MarketData/Vendors/TwelveData.antt =====
-- app/modules/marketdata/infrastructure/providers/aggregator/twelvedata: errors and mapping. What
-- `strptime` reads under a format is a parameter.
pub mod Adapter
use self_learning_trading_ag.Base.{
  ℕ, ◌≡◌, Bool, true, false, ◌||◌, ◌==◌, Option, none, some, List, [], ◌∷◌, ◌++◌, Text, text,
  text_eq, strip, is_empty, Except, ok, raise, if◌then◌else◌,
}
use self_learning_trading_ag.Int.{ℤ, pos, mag, leb_ℤ, eqb_ℤ}
use self_learning_trading_ag.Decimal.{Decimal, of_int}
use self_learning_trading_ag.Core.Errors.{
  DomainError, ErrorClass, authentication, rate_limited, provider_validation, provider_unavailable,
}
use self_learning_trading_ag.Parse.Numbers.{Parsed, finite, not_finite, invalid, parse_decimal}
use self_learning_trading_ag.Tooling.Policy.{Failure, domain, other}
use self_learning_trading_ag.MarketData.Entities.{Symbol, Timeframe, Candle, Ticker}
use self_learning_trading_ag.MarketData.Vendors.{malformed, from_timestamp, decimal_of_text, ◌>>=◌}
use mathlib.Core.List.{reverse}

abbrev pub twelvedata : Text
twelvedata = text "twelvedata"

-- A code with the text that shows it.
abbrev pub Code : Type 0
Code = ℤ × Text

unfoldable pub twelve_class : Option Code → ErrorClass
twelve_class none = provider_unavailable
twelve_class (some (code, shown)) =
    if eqb_ℤ code (pos 401) || eqb_ℤ code (pos 403)
    then authentication
    else if eqb_ℤ code (pos 429)
    then rate_limited
    else if leb_ℤ (pos 500) code
    then provider_unavailable
    else provider_validation

-- `message or "twelve data request failed"`
unfoldable pub detail_of : Text → Text
detail_of message = if is_empty message then text "twelve data request failed" else message

-- The message for a code that is shown in it.
abbrev pub coded_message : (shown detail : Text) → Text
coded_message shown detail = text "twelve data error " ++ (shown ++ (text ": " ++ detail))

unfoldable pub twelve_message : Option Code → ErrorClass → (detail : Text) → Text
twelve_message none class detail = detail
twelve_message (some (code, shown)) provider_unavailable detail = coded_message shown detail
twelve_message (some (code, shown)) provider_validation detail = coded_message shown detail
twelve_message (some (code, shown)) _ detail = detail

-- `handle_twelvedata_error`
unfoldable pub handle_twelvedata_error : Option Code → Text → DomainError
handle_twelvedata_error code message = record {
  class = twelve_class code;
  message = twelve_message code (twelve_class code) (detail_of message);
  provider = some twelvedata;
}

pub record TwelveValue : Type 0 where
  pub datetime : Text
  pub open_text : Text
  pub high_text : Text
  pub low_text : Text
  pub close_text : Text
  pub volume_text : Option Text

-- The fields of `TwelveQuote` that are read.
pub record TwelveQuote : Type 0 where
  pub close_text : Text
  pub volume_text : Option Text
  pub timestamp : Option ℤ

-- `parse_datetime`; `strptime` reads a text under a format, as a time of UTC.
unfoldable pub parse_datetime : (strptime : Text → Text → Option ℕ) → Text → Except DomainError ℕ
parse_datetime strptime raw = elim (strptime (strip raw) (text "%Y-%m-%d %H:%M:%S")) [
  | some t ↦ ok t
  | none ↦ elim (strptime (strip raw) (text "%Y-%m-%d")) [
    | some t ↦ ok t
    | none ↦ raise (malformed twelvedata (text "unparseable twelve data timestamp"))
  ]
]

-- `Decimal(volume) if volume else Decimal(0)`
unfoldable pub volume_or_zero : Option Text → Option Decimal
volume_or_zero none = some (of_int (pos 0))
volume_or_zero (some s) = if is_empty s then some (of_int (pos 0)) else decimal_of_text s

-- The candle of a value at a time, as far as its amounts can be read.
unfoldable pub value_candle : Symbol → Timeframe → Text → TwelveValue → ℕ → Option Candle
value_candle symbol timeframe exchange value opened_at = do
  open_price ← decimal_of_text value.open_text
  high ← decimal_of_text value.high_text
  low ← decimal_of_text value.low_text
  close ← decimal_of_text value.close_text
  volume ← volume_or_zero value.volume_text
  some (record {
    symbol = symbol;
    timeframe = timeframe;
    opened_at = opened_at;
    open_price = open_price;
    high = high;
    low = low;
    close = close;
    volume = volume;
    exchange = exchange;
  })

-- The candles of the values, in the order given.
unfoldable pub values_candles :
    (strptime : Text → Text → Option ℕ)
    → Symbol
    → Timeframe
    → Text
    → List TwelveValue
    → Except DomainError (List Candle)
values_candles strptime symbol timeframe exchange [] = ok []
values_candles strptime symbol timeframe exchange (v ∷ vs) =
    elim (parse_datetime strptime v.datetime) [
      | raise e ↦ raise e
      | ok opened_at ↦ elim (value_candle symbol timeframe exchange v opened_at) [
        | none ↦ raise (malformed exchange (text "twelve data candle normalization failed"))
        | some candle ↦ elim (values_candles strptime symbol timeframe exchange vs) [
          | raise e ↦ raise e
          | ok candles ↦ ok (candle ∷ candles)
        ]
      ]
    ]

-- `if not candles`
unfoldable pub any_candles : Except DomainError (List Candle) → Except DomainError (List Candle)
any_candles (raise e) = raise e
any_candles (ok []) = raise (malformed twelvedata (text "twelve data returned no usable candles"))
any_candles (ok (c ∷ cs)) = ok (c ∷ cs)

-- `to_candles`
unfoldable pub series_candles :
    (strptime : Text → Text → Option ℕ)
    → List TwelveValue
    → Symbol
    → Timeframe
    → Text
    → Except DomainError (List Candle)
series_candles strptime values symbol timeframe exchange =
    any_candles (values_candles strptime symbol timeframe exchange (reverse values))

-- The time of a quote, or that of the observation.
unfoldable pub quote_time : Option ℤ → (observed_at : ℕ) → Option ℕ
quote_time none observed_at = some observed_at
quote_time (some t) observed_at = if mag t == 0 then some observed_at else from_timestamp t

-- The ticker for a price.
unfoldable pub price_ticker :
    TwelveQuote → Symbol → (observed_at : ℕ) → Text → Decimal → Option Ticker
price_ticker quote symbol observed_at exchange price = do
  timestamp ← quote_time quote.timestamp observed_at
  volume_24h ← volume_or_zero quote.volume_text
  some (record {
    symbol = symbol;
    timestamp = timestamp;
    bid = price;
    ask = price;
    last = price;
    volume_24h = volume_24h;
    exchange = exchange;
  })

-- `to_ticker`; only a price that is no decimal is caught.
unfoldable pub quote_ticker :
    TwelveQuote → Symbol → (observed_at : ℕ) → Text → Except Failure Ticker
quote_ticker quote symbol observed_at exchange =
    if is_empty quote.close_text
    then raise (domain (malformed twelvedata (text "twelve data quote carried no close price")))
    else elim (parse_decimal quote.close_text) [
      | invalid ↦
          raise (domain (malformed exchange (text "twelve data quote normalization failed")))
      | not_finite ↦ raise other
      | finite price ↦ elim (price_ticker quote symbol observed_at exchange price) [
        | none ↦ raise other
        | some ticker ↦ ok ticker
      ]
    ]
