-- ===== src/Decimal/Order.antt =====
-- Comparisons of decimals: with zero, and with the sign of a difference.
use self_learning_trading_ag.Base.{zero, suc, ◌^◌, ◌≡◌, refl, arith, not}
use self_learning_trading_ag.Int.{ℤ, pos, negsuc, scale_ℤ, ltb_ℤ, leb_ℤ, eqb_ℤ}
use self_learning_trading_ag.Decimal.Defs.{Decimal, zero_dec, lt, le, eq}
use self_learning_trading_ag.Decimal.Rounding.{pow-pos}
use self_learning_trading_ag.Decimal.Signs.{
  null, sign, sign_ℤ, is_plus, is_minus, is_null, sign_ℤ-scale,
}

tests_ℤ :
    (m n : ℤ)
    → sign_ℤ n ≡ null
    → (ltb_ℤ n m ≡ is_plus (sign_ℤ m))
      × (ltb_ℤ m n ≡ is_minus (sign_ℤ m))
      × (leb_ℤ m n ≡ not (is_plus (sign_ℤ m)))
      × (eqb_ℤ m n ≡ is_null (sign_ℤ m))
tests_ℤ m (pos (suc n)) h = cc
tests_ℤ m (negsuc n) h = cc
tests_ℤ (pos zero) (pos zero) h = (refl, refl, refl, refl)
tests_ℤ (pos (suc m)) (pos zero) h = (ground arith, ground arith, ground arith, ground arith)
tests_ℤ (negsuc m) (pos zero) h = (ground arith, ground arith, ground arith, ground arith)

module _ (a : Decimal) where
  tests :
      (ltb_ℤ (scale_ℤ (pos 0) (10 ^ a.scale)) (scale_ℤ a.coeff 1) ≡ is_plus (sign a))
      × (ltb_ℤ (scale_ℤ a.coeff 1) (scale_ℤ (pos 0) (10 ^ a.scale)) ≡ is_minus (sign a))
      × (leb_ℤ (scale_ℤ a.coeff 1) (scale_ℤ (pos 0) (10 ^ a.scale)) ≡ not (is_plus (sign a)))
      × (eqb_ℤ (scale_ℤ a.coeff 1) (scale_ℤ (pos 0) (10 ^ a.scale)) ≡ is_null (sign a))
  tests = rw (← sign_ℤ-scale a.coeff 1 (omega arith)) (
      tests_ℤ (scale_ℤ a.coeff 1) (scale_ℤ (pos 0) (10 ^ a.scale))
        (sign_ℤ-scale (pos 0) (10 ^ a.scale) (pow-pos a.scale)))

  pub zero-lt : lt zero_dec a ≡ is_plus (sign a)
  unfolding lt
  zero-lt = tests.0

  pub lt-zero : lt a zero_dec ≡ is_minus (sign a)
  unfolding lt
  lt-zero = tests.1

  pub le-zero : le a zero_dec ≡ not (is_plus (sign a))
  unfolding le
  le-zero = tests.2

  pub eq-zero : eq a zero_dec ≡ is_null (sign a)
  unfolding eq
  eq-zero = tests.3
