-- ===== src/MarketData/Entities.antt =====
-- app/modules/marketdata/domain/entities.py. A datetime is a number of ticks in UTC.
use self_learning_trading_ag.Base.{
  ℕ, Bool, false, ◌&&◌, ◌||◌, Option, none, some, [], ◌∷◌, Text, text, text_eq, upper, lower, leb,
  ◌==◌, if◌then◌else◌,
}
use self_learning_trading_ag.Decimal.{Decimal}
use Prim.Native.Char.{code}

pub data Timeframe : Type 0 where
  m1 m5 h1 h4 d1 : Timeframe

-- The value of a timeframe.
unfoldable pub timeframe_value : Timeframe → Text
timeframe_value m1 = text "1m"
timeframe_value m5 = text "5m"
timeframe_value h1 = text "1h"
timeframe_value h4 = text "4h"
timeframe_value d1 = text "1d"

-- `Timeframe(value)`; `none` is the `ValueError`.
unfoldable pub parse_timeframe : Text → Option Timeframe
parse_timeframe s =
    if text_eq s (text "1m")
    then some m1
    else if text_eq s (text "5m")
    then some m5
    else if text_eq s (text "1h")
    then some h1
    else if text_eq s (text "4h")
    then some h4
    else if text_eq s (text "1d")
    then some d1
    else none

pub record Symbol : Type 0 where
  pub code : Text
  pub exchange : Text

-- A character of the class [A-Z0-9].
unfoldable pub is_code_char : ℕ → Bool
is_code_char c = (leb b'A' c && leb c b'Z') || (leb b'0' c && leb c b'9')

-- The part of the pattern after the slash: one or more characters of the class.
unfoldable pub is_quote : Text → Bool
is_quote [] = false
is_quote (c ∷ []) = is_code_char c
is_quote (c ∷ (d ∷ s)) = is_code_char c && is_quote (d ∷ s)

-- The pattern after at least one character of the class.
unfoldable pub after_base : Text → Bool
after_base [] = false
after_base (c ∷ s) = if is_code_char c then after_base s else (c == b'/') && is_quote s

-- `^[A-Z0-9]+/[A-Z0-9]+$`
unfoldable pub is_code : Text → Bool
is_code [] = false
is_code (c ∷ s) = is_code_char c && after_base s

-- `Symbol.of`; `none` is the `ValidationError`.
unfoldable pub symbol_of : Text → Text → Option Symbol
symbol_of code exchange =
    if is_code (upper code)
    then some (record { code = upper code; exchange = lower exchange })
    else none

pub record Candle : Type 0 where
  pub symbol : Symbol
  pub timeframe : Timeframe
  pub opened_at : ℕ
  pub open_price : Decimal
  pub high : Decimal
  pub low : Decimal
  pub close : Decimal
  pub volume : Decimal
  pub exchange : Text

pub record Ticker : Type 0 where
  pub symbol : Symbol
  pub timestamp : ℕ
  pub bid : Decimal
  pub ask : Decimal
  pub last : Decimal
  pub volume_24h : Decimal
  pub exchange : Text
