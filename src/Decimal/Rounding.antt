-- ===== src/Decimal/Rounding.antt =====
-- Rounding to 28 digits: it never turns a value into zero.
use self_learning_trading_ag.Base.{
  ℕ, zero, suc, ◌+◌, ◌-◌, ◌*◌, ◌/◌, ◌^◌, ◌≤◌, ◌<◌, ◌≡◌, inl, inr, arith, ltb, Bool-cases,
}
use self_learning_trading_ag.Decimal.Defs.{digits_from, ndigits, half_even, sticky}
use native.Mathlib.Nat.{pow-suc, le_trans, div-add-mod, mod-lt}

pub pow-pos : (k : ℕ) → 0 < 10 ^ k
pow-pos zero = omega arith
pow-pos (suc k) = rw pow-suc (omega (arith, pow-pos k))

pub pow-le-pow : (j k : ℕ) → j ≤ k → 10 ^ j ≤ 10 ^ k
pow-le-pow zero k h = omega (arith, pow-pos k)
pow-le-pow (suc j) zero h = absurd (omega arith)
pow-le-pow (suc j) (suc k) h = rw (pow-suc, pow-suc) (omega (arith, pow-le-pow j k (omega arith)))

-- A number of k digits is at least 10 ^ (k - 1).
digits_from-lower : (f n : ℕ) → 0 < n → 10 ^ digits_from f n ≤ 10 * n
unfolding digits_from
digits_from-lower zero n h = omega arith
digits_from-lower (suc f) n h = elim (Bool-cases (ltb n 10)) [
  | inl small ↦ rw (small, digits_from) (omega arith)
  | inr large ↦
      let big : 10 ≤ n = ground arith in
      rw (large, digits_from, pow-suc) (omega (arith, digits_from-lower f (n / 10) (omega arith)))
]

-- The last digits that rounding drops do not reach the first digit.
pub dropped-le : (n k : ℕ) → 0 < n → 0 < k → 10 ^ (ndigits n - k) ≤ n
unfolding ndigits
dropped-le n k h p =
    le_trans (pow-le-pow (ndigits n - k) (ndigits n - 1) (omega arith))
      (first_digit (ndigits n) (digits_from-lower n n h))
  where
    first_digit : (d : ℕ) → 10 ^ d ≤ 10 * n → 10 ^ (d - 1) ≤ n
    first_digit zero q = omega arith
    first_digit (suc d) q =
        let e : suc d - 1 ≡ d = omega arith in
        rw e (let q' : 10 ^ d * 10 ≤ 10 * n = rw pow-suc at q in omega arith)

-- The same bound, as the definition counts the digits.
pub digits-lower : (n : ℕ) → 0 < n → 10 ^ ndigits n ≤ 10 * n
unfolding ndigits
digits-lower n h = digits_from-lower n n h

pub div-pos : (n m : ℕ) → 0 < m → m ≤ n → 0 < n / m
div-pos n m p h = grind (arith, div-add-mod n m, mod-lt)

pub half_even-pos : (n m : ℕ) → 0 < m → m ≤ n → 0 < half_even n m
unfolding half_even
half_even-pos n m p h = ground (arith, div-pos n m)

pub sticky-pos : (n m : ℕ) → 0 < m → 0 < n → 0 < sticky n m
unfolding sticky
sticky-pos n m p h = ground (arith, div-add-mod n m)

-- Only a number that is not zero is too long.
pub pos_of_long : (n : ℕ) → 1 < ndigits n → 0 < n
unfolding ndigits digits_from
pos_of_long zero h = absurd (omega arith)
pos_of_long (suc n) h = omega arith

pub mul-pos : (m n : ℕ) → 0 < m → 0 < n → 0 < m * n
mul-pos m n p q = grind arith

pub pow-add : (j k : ℕ) → 10 ^ (j + k) ≡ 10 ^ j * 10 ^ k
pow-add zero k = let e : 0 + k ≡ k = omega arith in rw e (omega arith)
pow-add (suc j) k =
    let e : suc j + k ≡ suc (j + k) = omega arith in
    rw (e, pow-suc, pow-suc) (omega (arith, pow-add j k))
