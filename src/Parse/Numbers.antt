-- ===== src/Parse/Numbers.antt =====
-- `int(s)` and `Decimal(s)` of a text. Digits are those of ASCII.
use self_learning_trading_ag.Base.{
  ℕ, zero, suc, ◌+◌, ◌-◌, ◌*◌, ◌^◌, Bool, true, false, ◌&&◌, ◌||◌, Option, none, some, [], ◌∷◌,
  Text, text, text_eq, strip, lstrip, lower, lower_code, leb, ◌==◌, if◌then◌else◌, is_empty,
}
use self_learning_trading_ag.Int.{ℤ, pos, neg_ℤ, scale_ℤ}
use self_learning_trading_ag.Decimal.{Decimal}
use self_learning_trading_ag.Parse.Splits.{partition}

abbrev pub is_digit : ℕ → Bool
is_digit c = leb b'0' c && leb c b'9'

-- Digits with single underscores between them; `ready` after a digit.
unfoldable pub digits_from : (ready : Bool) (n : ℕ) → Text → Option ℕ
digits_from ready n [] = if ready then some n else none
digits_from ready n (c ∷ s) = elim (is_digit c) [
  | true ↦ digits_from true (n * 10 + (c - 48)) s
  | false ↦ elim ((c == b'_') && ready) [ true ↦ digits_from false n s | false ↦ none ]
]

-- A sign, and what follows it.
unfoldable pub signed_from : {A : Type 0} → (ℤ → A) → (Text → Option ℕ) → Text → Option A
signed_from of_sign parse [] = none
signed_from of_sign parse (c ∷ s) =
    if c == b'-'
    then elim (parse s) [ none ↦ none | some n ↦ some (of_sign (neg_ℤ (pos n))) ]
    else elim (if c == b'+' then parse s else parse (c ∷ s)) [
      | none ↦ none
      | some n ↦ some (of_sign (pos n))
    ]

-- `int(s)`; `none` is the `ValueError`.
unfoldable pub parse_int : Text → Option ℤ
parse_int s = signed_from (λ n. n) (digits_from false 0) (strip s)

-- What `Decimal(s)` gives: a number, an infinity or not-a-number, or `InvalidOperation`.
pub data Parsed : Type 0 where
  finite : Decimal → Parsed
  not_finite invalid : Parsed

-- Digits alone, with their number, from those read before.
unfoldable pub plain_digits : (n count : ℕ) → Text → Option (ℕ × ℕ)
plain_digits n count [] = some (n, count)
plain_digits n count (c ∷ s) = elim (is_digit c) [
  | true ↦ plain_digits (n * 10 + (c - 48)) (suc count) s
  | false ↦ none
]

-- Digits and perhaps a point: all digits as one number, and how many follow the point.
unfoldable pub mantissa : Text → Option (ℕ × ℕ)
mantissa s =
    let (whole, part) = partition b'.' s in
    elim (plain_digits 0 0 whole) [
      | none ↦ none
      | some (n, count) ↦ elim (plain_digits n 0 part) [
        | none ↦ none
        | some (n', places) ↦ elim (count + places) [ zero ↦ none | suc _ ↦ some (n', places) ]
      ]
    ]

-- n / 10 ^ places * 10 ^ e
unfoldable pub with_exponent : ℤ → ℕ → ℤ → Decimal
with_exponent n places (pos e) =
    if leb e places
    then record { coeff = n; scale = places - e }
    else record { coeff = scale_ℤ n (10 ^ (e - places)); scale = 0 }
with_exponent n places (ℤ.negsuc e) = record { coeff = n; scale = places + suc e }

-- The part after an `e`, which may be missing.
unfoldable pub exponent : Bool → Text → Option ℤ
exponent has_e s =
    if has_e
    then signed_from (λ n. n)
        (λ t. elim t [
          | [] ↦ none
          | c ∷ t' ↦ elim (plain_digits 0 0 (c ∷ t')) [ none ↦ none | some (n, _) ↦ some n ]
        ])
        s
    else some (pos 0)

-- Whether the text has the character.
unfoldable pub has_char : ℕ → Text → Bool
has_char d [] = false
has_char d (c ∷ s) = (c == d) || has_char d s

-- An unsigned number in lower case.
unfoldable pub unsigned_decimal : (ℕ → ℤ) → Text → Parsed
unsigned_decimal sign s =
    let (m, e) = partition b'e' s in
    elim (mantissa m) [
      | none ↦ invalid
      | some (n, places) ↦ elim (exponent (has_char b'e' s) e) [
        | none ↦ invalid
        | some z ↦ finite (with_exponent (sign n) places z)
      ]
    ]

-- What follows a prefix.
unfoldable pub after_prefix : Text → Text → Option Text
after_prefix [] s = some s
after_prefix (c ∷ p) [] = none
after_prefix (c ∷ p) (d ∷ s) = elim (c == d) [ true ↦ after_prefix p s | false ↦ none ]

-- Whether the text is a prefix and digits.
unfoldable pub is_prefixed : Text → Text → Bool
is_prefixed p s = elim (after_prefix p s) [
  | none ↦ false
  | some rest ↦ elim (plain_digits 0 0 rest) [ none ↦ false | some _ ↦ true ]
]

-- `inf`, `infinity`, `nan` and `snan`, the last two perhaps with digits.
unfoldable pub special : Text → Bool
special s =
    text_eq s (text "inf")
    || text_eq s (text "infinity")
    || is_prefixed (text "nan") s
    || is_prefixed (text "snan") s

-- Without its underscores.
unfoldable pub no_underscores : Text → Text
no_underscores [] = []
no_underscores (c ∷ s) = let rest = no_underscores s in if c == b'_' then rest else c ∷ rest

unfoldable pub lowered_decimal : (ℕ → ℤ) → Text → Parsed
lowered_decimal sign s = if special s then not_finite else unsigned_decimal sign s

-- `Decimal(s)`
unfoldable pub parse_decimal : Text → Parsed
parse_decimal raw = elim (lower (no_underscores (strip raw))) [
  | [] ↦ invalid
  | c ∷ s ↦
      if c == b'-'
      then lowered_decimal (λ n. neg_ℤ (pos n)) s
      else lowered_decimal pos (if c == b'+' then s else c ∷ s)
]

-- Named by what evaluates numbers.
unfoldable pub numerals : Unit {0}
unfolding digits_from signed_from parse_int plain_digits mantissa with_exponent exponent has_char
    unsigned_decimal after_prefix is_prefixed special no_underscores lowered_decimal parse_decimal
    partition strip lstrip lower lower_code text_eq scale_ℤ
numerals = tt

-- `part in s`
unfoldable pub contains : Text → Text → Bool
contains part [] = is_empty part
contains part (c ∷ s) = elim (after_prefix part (c ∷ s)) [ some _ ↦ true | none ↦ contains part s ]
