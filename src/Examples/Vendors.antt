-- ===== src/Examples/Vendors.antt =====
-- Tests and witnesses of the vendors' boundaries.
use self_learning_trading_ag.Base.{
  ℕ, suc, ◌≡◌, refl, true, false, none, some, List, [], ◌∷◌, Text, text, Except, text_eq, lower,
  lower_code,
}
use self_learning_trading_ag.Int.{pos}
use self_learning_trading_ag.Decimal.{of_int}
use self_learning_trading_ag.Parse.Json.{Json, Array, Object}
use self_learning_trading_ag.Tooling.Http.{Answer, response}
use self_learning_trading_ag.Tooling.Policy.{Failure, Breaker, Policy, run}
use self_learning_trading_ag.MarketData.Entities.{Symbol, h1, Candle}
use self_learning_trading_ag.MarketData.Vendors.Kraken.{to_kraken_pair, error_class, errors_class}
use self_learning_trading_ag.MarketData.Vendors.TwelveData.{twelve_class}
use self_learning_trading_ag.Core.Errors.{provider_validation, provider_unavailable}
use self_learning_trading_ag.Parse.Splits.{partition}
use self_learning_trading_ag.Parse.Numbers.{after_prefix, contains}
use self_learning_trading_ag.MarketData.Vendors.Kraken.Adapter.{
  interval, to_ms, fetch_ohlc, fetch_candles,
}
use self_learning_trading_ag.MarketData.Vendors.Kraken.Laws.{Fetched, fetch_candles-Fetched}
use self_learning_trading_ag.MarketData.Vendors.Yahoo.{
  yahoo, YahooChartResult, chart_candles, quote_alias, to_yahoo_symbol,
}
use self_learning_trading_ag.MarketData.Vendors.Yahoo.Laws.{Charted, chart_candles-Charted}
use self_learning_trading_ag.MarketData.Vendors.Binance.Adapter.{
  insert_candle, sorted_candles, in_seconds, unique_from, sort_unique,
}
use self_learning_trading_ag.MarketData.Vendors.Binance.Sorting.{
  All, has_second, RisingFrom, sort_unique-Rising,
}

abbrev bitcoin : Symbol
bitcoin = record { code = text "BTC/USD"; exchange = text "kraken" }

abbrev cell : Text → Array → Array
cell s rest = Array.element (Json.string s) rest

-- A row of a series, as Kraken sends it.
abbrev ohlc_row : Json
ohlc_row = Json.array (
    Array.element (Json.number (text "1700000000")) (
      cell (text "1") (
        cell (text "3") (
          cell (text "1") (cell (text "2") (cell (text "2") (cell (text "5") Array.no_element)))))))

-- The answer to a request for candles: a series under the pair, and `last`.
abbrev series_answer : Json
series_answer = Json.object (
    Object.field (text "error") (Json.array Array.no_element) (
      Object.field (text "result")
        (Json.object (
          Object.field (text "XXBTZUSD") (Json.array (Array.element ohlc_row Array.no_element))
            (Object.field (text "last") (Json.number (text "1700000000")) Object.no_field)))
        Object.no_field))

-- A vendor that counts its requests.
abbrev vendor : Text → List (Text × Text) → ℕ → Answer Json × ℕ
vendor path params n = (response 200 [] (some series_answer), suc n)

abbrev digit : ℕ → Text
digit n = n ∷ []

abbrev idle : Breaker
idle = record { failure_threshold = pos 5; failures = 0; is_open = false }

abbrev patient : Policy ℕ Object
patient = record {
  retry = some (pos 3);
  has_breaker = true;
  limiter = none;
  timeout = none;
  sleep = λ attempt n. n;
}

fetch_candles-Fetched_example :
    (r : Except Failure Object) × (o : Except Failure (List Candle)) × (w' : Breaker × ℕ) × (run
        patient
        (fetch_ohlc digit vendor patient (to_kraken_pair bitcoin) (interval h1) (to_ms none))
        (idle, 0)
      ≡ some (r, w'))
    × (fetch_candles digit vendor patient bitcoin h1 none 500 (idle, 0) ≡ some (o, w'))
    × Fetched bitcoin h1 500 r o
fetch_candles-Fetched_example =
    fetch_candles-Fetched digit vendor patient bitcoin h1 none 500 (idle, 0)

-- A chart whose second row is padding.
abbrev chart : YahooChartResult
chart = record {
  meta = record {
    regular_market_price = none;
    chart_previous_close = none;
    regular_market_time = none;
  };
  timestamp = some (pos 1700000000 ∷ (pos 1700003600 ∷ []));
  quote =
      record {
        open_series = some (text "1.5") ∷ (none ∷ []);
        high_series = some (text "2.0") ∷ (none ∷ []);
        low_series = some (text "1.0") ∷ (none ∷ []);
        close_series = some (text "1.8") ∷ (none ∷ []);
        volume_series = none ∷ (none ∷ []);
      }
      ∷ [];
}

chart_candles-Charted_example :
    Charted bitcoin h1 yahoo chart (chart_candles chart bitcoin h1 yahoo)
chart_candles-Charted_example = chart_candles-Charted bitcoin h1 yahoo chart

abbrev at : ℕ → Candle
at t = record {
  symbol = bitcoin;
  timeframe = h1;
  opened_at = t;
  open_price = of_int (pos 1);
  high = of_int (pos 1);
  low = of_int (pos 1);
  close = of_int (pos 1);
  volume = of_int (pos 1);
  exchange = text "binance";
}

-- Three rows, two of them in one second.
abbrev unsorted : List Candle
unsorted = at 5000000 ∷ (at 2000000 ∷ (at 2500000 ∷ []))

two_kept : sort_unique unsorted ≡ at 2000000 ∷ (at 5000000 ∷ [])
unfolding sort_unique unique_from in_seconds sorted_candles insert_candle
two_kept = refl

abbrev IsHourly : Candle → Type 0
IsHourly c = c.timeframe ≡ h1

sort_unique-Rising_example :
    RisingFrom 0 (sort_unique unsorted)
    × All IsHourly (sort_unique unsorted)
    × ((n : ℕ) → has_second n (sort_unique unsorted) ≡ has_second n unsorted)
sort_unique-Rising_example = sort_unique-Rising IsHourly unsorted (refl, (refl, (refl, tt)))

-- Named by the tests of texts.
vendor_texts : Unit {0}
unfolding to_kraken_pair to_yahoo_symbol quote_alias partition text_eq contains after_prefix
    error_class errors_class lower lower_code twelve_class
vendor_texts = tt

pair_test : to_kraken_pair bitcoin ≡ text "XBTUSD"
unfolding vendor_texts
pair_test = refl

yahoo_symbol_test :
    to_yahoo_symbol (record { code = text "BTC/USDT"; exchange = [] }) ≡ text "BTC-USD"
unfolding vendor_texts
yahoo_symbol_test = refl

-- The second error names a class.
kraken_error_test :
    errors_class (text "EService:Busy" ∷ (text "EQuery:Unknown asset pair" ∷ []))
    ≡ provider_validation
unfolding vendor_texts
kraken_error_test = refl

twelve_error_test : twelve_class (some (pos 503, text "503")) ≡ provider_unavailable
unfolding vendor_texts
twelve_error_test = refl
