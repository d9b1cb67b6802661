-- ===== src/Decimal/Defs.antt =====
-- Python's `decimal.Decimal` under the default context, as far as the program uses it: finite
-- values, 28 significant digits, rounding half to even.
--
-- A value is coeff / 10 ^ scale. A value with a positive exponent is kept with the scale 0, so
-- that only the trailing zeros differ from Python's (sign, digits, exponent). The limits of the
-- exponent (overflow and underflow beyond 10 ^ 999999) are not modelled.
use self_learning_trading_ag.Base.{
  ℕ, zero, suc, ◌+◌, ◌-◌, ◌*◌, ◌/◌, ◌%◌, ◌^◌, max, Bool, true, false, not, ◌||◌, ◌&&◌, Option, none,
  some, ltb, leb, ◌==◌, if◌then◌else◌,
}
use self_learning_trading_ag.Int.{
  ℤ, pos, negsuc, mag, ◌+ℤ◌, neg_ℤ, scale_ℤ, mul_ℤ, with_sign, ltb_ℤ, leb_ℤ, eqb_ℤ,
}

pub record Decimal : Type 0 where
  pub coeff : ℤ
  pub scale : ℕ

-- An `int` as a decimal: `Decimal(n)`.
abbrev pub of_int : ℤ → Decimal
of_int n = record { coeff = n; scale = 0 }

abbrev pub zero_dec : Decimal
zero_dec = of_int (pos 0)

abbrev pub precision : ℕ
precision = 28

-- The number of decimal digits of n, with n rounds as fuel at least.
unfoldable pub digits_from : ℕ → ℕ → ℕ
digits_from zero n = 1
digits_from (suc f) n = elim (ltb n 10) [ true ↦ 1 | false ↦ suc (digits_from f (n / 10)) ]

unfoldable pub ndigits : ℕ → ℕ
ndigits n = digits_from n n

-- n / m, rounded half to even.
unfoldable pub half_even : ℕ → ℕ → ℕ
half_even n m =
    let q = n / m in
    let r = n % m in if ltb m (2 * r) || ((2 * r == m) && (q % 2 == 1)) then q + 1 else q

-- n * 10 ^ up / 10 ^ down.
abbrev pub shifted : ℤ → ℕ → ℕ → Decimal
shifted n up down =
    if leb up down
    then record { coeff = n; scale = down - up }
    else record { coeff = scale_ℤ n (10 ^ (up - down)); scale = 0 }

-- `Decimal._fix`: rounds to 28 significant digits.
unfoldable pub fix : Decimal → Decimal
fix a =
    let n = ndigits (mag a.coeff) in
    if leb n precision
    then a
    else shifted (with_sign a.coeff (half_even (mag a.coeff) (10 ^ (n - precision))))
        (n - precision) a.scale

unfoldable pub add : Decimal → Decimal → Decimal
add a b =
    let s = max a.scale b.scale in
    fix (record {
      coeff = scale_ℤ a.coeff (10 ^ (s - a.scale)) +ℤ scale_ℤ b.coeff (10 ^ (s - b.scale));
      scale = s;
    })

unfoldable pub neg : Decimal → Decimal
neg a = fix (record a { coeff = neg_ℤ a.coeff })

-- `a - b` is `a + (-b)`, where `-b` is not rounded.
unfoldable pub sub : Decimal → Decimal → Decimal
sub a b = add a (record b { coeff = neg_ℤ b.coeff })

unfoldable pub abs : Decimal → Decimal
abs a = fix (record a { coeff = pos (mag a.coeff) })

unfoldable pub mul : Decimal → Decimal → Decimal
mul a b = fix (record { coeff = mul_ℤ a.coeff b.coeff; scale = a.scale + b.scale })

-- A quotient that is not exact must not look like a tie or like an exact one.
unfoldable pub sticky : ℕ → ℕ → ℕ
sticky n m = let q = n / m in if (n % m == 0) || not (q % 5 == 0) then q else q + 1

-- The sign of a / b on the size n.
abbrev pub quotient_sign : ℤ → ℤ → ℕ → ℤ
quotient_sign a (pos _) n = with_sign a n
quotient_sign a (negsuc _) n = neg_ℤ (with_sign a n)

-- The digits of the quotient, and the power of ten by which they are too large (or too small).
unfoldable pub div_digits : Decimal → Decimal → Decimal
div_digits a b =
    let want = ndigits (mag b.coeff) + precision + 1 in
    let have = ndigits (mag a.coeff) in
    if leb have want
    then shifted
        (quotient_sign a.coeff b.coeff (sticky (mag a.coeff * 10 ^ (want - have)) (mag b.coeff)))
        b.scale (a.scale + (want - have))
    else shifted
        (quotient_sign a.coeff b.coeff (sticky (mag a.coeff) (mag b.coeff * 10 ^ (have - want))))
        (b.scale + (have - want)) a.scale

abbrev pub is_zero : Decimal → Bool
is_zero a = mag a.coeff == 0

-- `a / b`; `none` is the exception of a division by zero.
unfoldable pub div : Decimal → Decimal → Option Decimal
div a b =
    if is_zero b then none else if is_zero a then some zero_dec else some (fix (div_digits a b))

-- `a.quantize(Decimal("1e-k"))`; `none` is `InvalidOperation`, a result of over 28 digits.
unfoldable pub quantize : ℕ → Decimal → Option Decimal
quantize k a =
    let c =
      if leb a.scale k
      then scale_ℤ a.coeff (10 ^ (k - a.scale))
      else with_sign a.coeff (half_even (mag a.coeff) (10 ^ (a.scale - k))) in
    if leb (ndigits (mag c)) precision then some (record { coeff = c; scale = k }) else none

-- Comparisons are exact.
unfoldable pub lt : Decimal → Decimal → Bool
lt a b = ltb_ℤ (scale_ℤ a.coeff (10 ^ b.scale)) (scale_ℤ b.coeff (10 ^ a.scale))

unfoldable pub le : Decimal → Decimal → Bool
le a b = leb_ℤ (scale_ℤ a.coeff (10 ^ b.scale)) (scale_ℤ b.coeff (10 ^ a.scale))

unfoldable pub eq : Decimal → Decimal → Bool
eq a b = eqb_ℤ (scale_ℤ a.coeff (10 ^ b.scale)) (scale_ℤ b.coeff (10 ^ a.scale))

-- `min(a, b)` and `max(a, b)` return the first argument on a tie, unrounded.
unfoldable pub min_dec : Decimal → Decimal → Decimal
min_dec a b = if lt b a then b else a

unfoldable pub max_dec : Decimal → Decimal → Decimal
max_dec a b = if lt a b then b else a

-- Named by what evaluates decimals.
unfoldable pub decimals : Unit {0}
unfolding ◌+ℤ◌ scale_ℤ mul_ℤ digits_from ndigits half_even fix add neg sub abs mul sticky div_digits
    div quantize lt le eq min_dec max_dec
decimals = tt
