-- ===== src/MarketData/Vendors.antt =====
-- app/modules/marketdata/infrastructure/providers: what the vendors' boundaries share. A datetime
-- is a number of microseconds since 1970; one before that is not modelled, and refused like one
-- after the year 9999. The text of an exception inside an error's message is left out.
pub mod Laws
pub mod Kraken
pub mod Yahoo
pub mod TwelveData
pub mod Binance
use self_learning_trading_ag.Base.{
  ℕ, zero, suc, ◌+◌, ◌-◌, ◌*◌, ◌/◌, ◌^◌, Bool, true, false, not, is_empty, ◌&&◌, ◌||◌, Option, none,
  some, List, [], ◌∷◌, Text, text, text_eq, length, Except, ok, raise, leb, ◌==◌, if◌then◌else◌,
}
use self_learning_trading_ag.Int.{ℤ, pos, mag, with_sign}
use self_learning_trading_ag.Decimal.{Decimal, is_zero}
use self_learning_trading_ag.Core.Errors.{DomainError, malformed_data}
use self_learning_trading_ag.Tooling.Policy.{Failure, Breaker}
use self_learning_trading_ag.Parse.Json.{Json, Array, Object}
use self_learning_trading_ag.Parse.Numbers.{
  Parsed, finite, not_finite, invalid, parse_int, parse_decimal, has_char,
}
use Prim.Native.Char.{code}

-- `MalformedDataError(message, provider=...)`
abbrev pub malformed : Text → Text → DomainError
malformed provider message = record {
  class = malformed_data;
  message = message;
  provider = some provider;
}

-- `datetime.fromtimestamp(seconds, UTC)`, up to the end of the year 9999.
unfoldable pub from_timestamp : ℤ → Option ℕ
from_timestamp (pos seconds) = if leb seconds 253402300799 then some (seconds * 1000000) else none
from_timestamp (ℤ.negsuc _) = none

-- `int(timestamp)` of a datetime.
abbrev pub to_timestamp : ℕ → ℕ
to_timestamp t = t / 1000000

-- `Decimal(text)` in a field of a pydantic model, which refuses what is not finite.
unfoldable pub decimal_of_text : Text → Option Decimal
decimal_of_text s = elim (parse_decimal s) [
  | finite d ↦ some d
  | not_finite ↦ none
  | invalid ↦ none
]

-- `Decimal(str(value))` in such a field.
unfoldable pub decimal_of : Json → Option Decimal
decimal_of (Json.number s) = decimal_of_text s
decimal_of (Json.string s) = decimal_of_text s
decimal_of _ = none

-- The text that `str` shows; of an array or an object it is a parameter.
unfoldable pub show_json : (Json → Text) → Json → Text
show_json repr Json.null = text "None"
show_json repr (Json.boolean b) = if b then text "True" else text "False"
show_json repr (Json.number s) = s
show_json repr (Json.string s) = s
show_json repr v = repr v

-- Whether a JSON value counts as true.
unfoldable pub truthy : Json → Bool
truthy Json.null = false
truthy (Json.boolean b) = b
truthy (Json.number s) = elim (decimal_of_text s) [ none ↦ true | some d ↦ not (is_zero d) ]
truthy (Json.string s) = not (is_empty s)
truthy (Json.array Array.no_element) = false
truthy (Json.array _) = true
truthy (Json.object Object.no_field) = false
truthy (Json.object _) = true

-- A decimal without its places, as `int` of a float.
unfoldable pub truncate : Decimal → ℤ
truncate d = with_sign d.coeff (mag d.coeff / 10 ^ d.scale)

-- `int(value)`; `none` is an exception.
unfoldable pub int_of : Json → Option ℤ
int_of (Json.number s) = elim (parse_int s) [
  | some n ↦ some n
  | none ↦ elim (decimal_of_text s) [ none ↦ none | some d ↦ some (truncate d) ]
]
int_of (Json.string s) = parse_int s
int_of (Json.boolean b) = some (if b then pos 1 else pos 0)
int_of _ = none

-- The elements of an array.
unfoldable pub items : Array → List Json
items Array.no_element = []
items (Array.element v vs) = v ∷ items vs

-- `xs[i]`
unfoldable pub element_at {ℓ} : {A : Type ℓ} → ℕ → List A → Option A
element_at i [] = none
element_at zero (x ∷ xs) = some x
element_at (suc i) (x ∷ xs) = element_at i xs

-- `value[i]` of a JSON value; `none` is an exception.
unfoldable pub item : ℕ → Json → Option Json
item i (Json.array a) = element_at i (items a)
item i (Json.string s) = elim (element_at i s) [
  | none ↦ none
  | some c ↦ some (Json.string (c ∷ []))
]
item i _ = none

unfoldable pub drop {ℓ} : {A : Type ℓ} → ℕ → List A → List A
drop zero xs = xs
drop (suc n) [] = []
drop (suc n) (x ∷ xs) = drop n xs

-- `xs[-limit:]`; `-0` is 0.
unfoldable pub last_items {ℓ} : {A : Type ℓ} → ℕ → List A → List A
last_items zero xs = xs
last_items (suc n) xs = drop (length xs - suc n) xs

infixl 10 ◌>>=◌
-- A step that may raise, and the rest.
abbrev pub ◌>>=◌ : {A B : Type 0} → Option A → (A → Option B) → Option B
none >>= k = none
some a >>= k = k a

-- What a fetch makes of the answer of its policy; `none` is out of fuel.
unfoldable pub fetched :
    {S T U : Type 0}
    → (T → Except Failure U)
    → Option (Except Failure T × (Breaker × S))
    → Option (Except Failure U × (Breaker × S))
fetched answer none = none
fetched answer (some (raise e, w)) = some (raise e, w)
fetched answer (some (ok t, w)) = some (answer t, w)
