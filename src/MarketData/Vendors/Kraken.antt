-- ===== src/MarketData/Vendors/Kraken.antt =====
-- app/modules/marketdata/infrastructure/providers/exchange/kraken: errors, and mapping.
pub mod Adapter
pub mod Laws
use self_learning_trading_ag.Base.{
  ℕ, zero, suc, ◌+◌, ◌*◌, ◌≡◌, refl, Bool, true, false, not, ◌&&◌, ◌||◌, Option, none, some, List,
  [], ◌∷◌, ◌++◌, map, Text, text, text_eq, lower, is_empty, length, Except, ok, raise, leb, ltb,
  if◌then◌else◌,
}
use self_learning_trading_ag.Int.{ℤ, pos}
use self_learning_trading_ag.Decimal.{Decimal}
use self_learning_trading_ag.Core.Errors.{
  DomainError, ErrorClass, authentication, rate_limited, provider_unavailable, provider_validation,
}
use self_learning_trading_ag.Parse.Splits.{partition}
use self_learning_trading_ag.Parse.Numbers.{contains}
use self_learning_trading_ag.Parse.Json.{Json, Array, Object, get_field}
use self_learning_trading_ag.Tooling.Http.{Answer, get_json}
use self_learning_trading_ag.Tooling.Policy.{Failure, domain, other, Call, Breaker, Policy, run}
use self_learning_trading_ag.MarketData.Entities.{
  Symbol, Timeframe, m1, m5, h1, h4, d1, Candle, Ticker,
}
use self_learning_trading_ag.MarketData.Vendors.{
  malformed, from_timestamp, decimal_of, int_of, items, item, ◌>>=◌,
}
use Prim.Native.Char.{code}

abbrev pub kraken : Text
kraken = text "kraken"

-- `"; ".join(errors)`
unfoldable pub join_errors : List Text → Text
join_errors [] = []
join_errors (e ∷ []) = e
join_errors (e ∷ (f ∷ es)) = e ++ (text "; " ++ join_errors (f ∷ es))

-- The class that one error names.
unfoldable pub error_class : Text → Option ErrorClass
error_class lowered =
    if contains (text "rate limit") lowered || contains (text "too many requests") lowered
    then some rate_limited
    else if contains (text "invalid key") lowered
        || contains (text "invalid signature") lowered
        || contains (text "invalid nonce") lowered
    then some authentication
    else if contains (text "invalid arguments") lowered
        || contains (text "unknown asset pair") lowered
        || contains (text "invalid asset pair") lowered
    then some provider_validation
    else none

-- The first error that names a class decides.
unfoldable pub errors_class : List Text → ErrorClass
errors_class [] = provider_unavailable
errors_class (e ∷ es) = elim (error_class (lower e)) [ some c ↦ c | none ↦ errors_class es ]

-- `handle_kraken_errors`
unfoldable pub handle_kraken_errors : List Text → DomainError
handle_kraken_errors errors = record {
  class = errors_class errors;
  message =
      if is_empty (join_errors errors) then text "unknown kraken error" else join_errors errors;
  provider = some kraken;
}

-- `to_kraken_pair`
unfoldable pub to_kraken_pair : Symbol → Text
to_kraken_pair symbol =
    let (base, quote) = partition b'/' symbol.code in
    (if text_eq base (text "BTC")
      then text "XBT"
      else if text_eq base (text "DOGE")
      then text "XDG"
      else base)
    ++ quote

-- `first_entry`: the first mapping under another key than `last`.
unfoldable pub first_entry : Object → Except DomainError Object
first_entry Object.no_field =
    raise (malformed kraken (text "kraken response carried no result entry"))
first_entry (Object.field key (Json.object entry) rest) =
    if text_eq key (text "last") then first_entry rest else ok entry
first_entry (Object.field key _ rest) = first_entry rest

-- What a value is when a row is read from it: cells in order, or a mapping with its length, or
-- nothing with a length.
pub data Row : Type 0 where
  cells : List Json → Row
  keyed : ℕ → Row
  unsized : Row

-- The keys of an object.
unfoldable pub keys : Object → List Text
keys Object.no_field = []
keys (Object.field k v rest) = k ∷ keys rest

-- A text read as a row has its characters as cells.
unfoldable pub characters : Text → List Json
characters s = map (λ c. Json.string (c ∷ [])) s

unfoldable pub row_of : Json → Row
row_of (Json.array a) = cells (items a)
row_of (Json.string s) = cells (characters s)
row_of (Json.object o) = keyed (length (keys o))
row_of _ = unsized

-- The rows of a value that is iterated over; `none` is the `TypeError`.
unfoldable pub rows_of : Json → Option (List Row)
rows_of (Json.array a) = some (map row_of (items a))
rows_of (Json.object o) = some (map (λ k. cells (characters k)) (keys o))
rows_of (Json.string s) = some (map (λ c. cells (Json.string (c ∷ []) ∷ [])) s)
rows_of _ = none

-- A candle of the cells of a row; `none` is an exception that the mapping catches.
unfoldable pub cells_candle : Symbol → Timeframe → Text → List Json → Option Candle
cells_candle symbol timeframe exchange (time ∷ (o ∷ (h ∷ (l ∷ (c ∷ (vwap ∷ (v ∷ more))))))) = do
  seconds ← int_of time
  opened_at ← from_timestamp seconds
  open_price ← decimal_of o
  high ← decimal_of h
  low ← decimal_of l
  close ← decimal_of c
  volume ← decimal_of v
  some (record {
    symbol = symbol;
    timeframe = timeframe;
    opened_at = opened_at;
    open_price = open_price;
    high = high;
    low = low;
    close = close;
    volume = volume;
    exchange = exchange;
  })
cells_candle symbol timeframe exchange _ = none

-- The candles of the rows; a row that is too short is skipped. What reads no cells raises a
-- `TypeError` or a `KeyError` that nothing catches.
unfoldable pub rows_candles : Symbol → Timeframe → Text → List Row → Except Failure (List Candle)
rows_candles symbol timeframe exchange [] = ok []
rows_candles symbol timeframe exchange (cells row ∷ rows) = elim (ltb (length row) 7) [
  | true ↦ rows_candles symbol timeframe exchange rows
  | false ↦ elim (cells_candle symbol timeframe exchange row) [
    | none ↦ raise (domain (malformed exchange (text "kraken OHLC normalization failed")))
    | some candle ↦ elim (rows_candles symbol timeframe exchange rows) [
      | raise e ↦ raise e
      | ok candles ↦ ok (candle ∷ candles)
    ]
  ]
]
rows_candles symbol timeframe exchange (keyed n ∷ rows) = elim (ltb n 7) [
  | true ↦ rows_candles symbol timeframe exchange rows
  | false ↦ raise other
]
rows_candles symbol timeframe exchange (unsized ∷ rows) = raise other

-- `if not candles`
unfoldable pub usable : Except Failure (List Candle) → Except Failure (List Candle)
usable (raise e) = raise e
usable (ok []) = raise (domain (malformed kraken (text "kraken OHLC returned no usable rows")))
usable (ok (c ∷ cs)) = ok (c ∷ cs)

-- `to_candles`
unfoldable pub to_candles : Json → Symbol → Timeframe → Text → Except Failure (List Candle)
to_candles rows symbol timeframe exchange = elim (rows_of rows) [
  | none ↦ raise other
  | some rs ↦ usable (rows_candles symbol timeframe exchange rs)
]

-- `Decimal(str(entry[name][i]))`; `none` is an exception that the mapping catches.
unfoldable pub amount_at : Text → ℕ → Object → Option Decimal
amount_at name i entry = do series ← get_field name entry; value ← item i series; decimal_of value

-- The ticker of an entry, as far as its amounts can be read.
unfoldable pub read_ticker : Object → Symbol → (observed_at : ℕ) → Text → Option Ticker
read_ticker entry symbol observed_at exchange = do
  bid ← amount_at (text "b") 0 entry
  ask ← amount_at (text "a") 0 entry
  last ← amount_at (text "c") 0 entry
  volume_24h ← amount_at (text "v") 1 entry
  some (record {
    symbol = symbol;
    timestamp = observed_at;
    bid = bid;
    ask = ask;
    last = last;
    volume_24h = volume_24h;
    exchange = exchange;
  })

-- `to_ticker`
unfoldable pub to_ticker : Object → Symbol → (observed_at : ℕ) → Text → Except DomainError Ticker
to_ticker entry symbol observed_at exchange = elim (read_ticker entry symbol observed_at exchange) [
  | none ↦ raise (malformed exchange (text "kraken ticker normalization failed"))
  | some ticker ↦ ok ticker
]
