-- ===== src/Decimal/Signs.antt =====
-- The sign of a decimal, and the sign of each result. Rounding keeps every sign.
use self_learning_trading_ag.Base.{
  ℕ, zero, suc, ◌+◌, ◌-◌, ◌*◌, ◌^◌, ◌≤◌, ◌<◌, ◌≡◌, refl, ap, sym, ◌⊎◌, ◌∙◌, ◌≢◌, Bool, true, false,
  inl, inr, arith, none, some, leb, ◌==◌, Bool-cases, max,
}
use self_learning_trading_ag.Int.{
  ℤ, pos, negsuc, mag, pos_part, neg_part, ◌+ℤ◌, neg_ℤ, scale_ℤ, mul_ℤ, with_sign, +ℤ_parts,
  scale_ℤ_parts, eq_of_parts,
}
use self_learning_trading_ag.Decimal.Defs.{
  Decimal, zero_dec, precision, ndigits, half_even, shifted, fix, add, neg, abs, mul, div,
  div_digits, quotient_sign,
}
use self_learning_trading_ag.Decimal.Rounding.{
  pow-pos, dropped-le, half_even-pos, sticky-pos, pos_of_long, mul-pos,
}

pub data Sign : Type 0 where
  minus null plus : Sign

abbrev pub sign_ℤ : ℤ → Sign
sign_ℤ (pos zero) = null
sign_ℤ (pos (suc n)) = plus
sign_ℤ (negsuc n) = minus

abbrev pub sign : Decimal → Sign
sign a = sign_ℤ a.coeff

abbrev pub flip : Sign → Sign
flip minus = plus
flip null = null
flip plus = minus

abbrev pub times : Sign → Sign → Sign
times minus s = flip s
times null s = null
times plus s = s

abbrev pub is_plus : Sign → Bool
is_plus plus = true
is_plus null = false
is_plus minus = false

abbrev pub is_minus : Sign → Bool
is_minus minus = true
is_minus null = false
is_minus plus = false

abbrev pub is_null : Sign → Bool
is_null null = true
is_null plus = false
is_null minus = false

pub is_null-cases : (s : Sign) → (s ≡ null) ⊎ ((s ≢ null) × (is_null s ≡ false))
is_null-cases minus = inr (λ e. cc, refl)
is_null-cases null = inl refl
is_null-cases plus = inr (λ e. cc, refl)

times-null : (s : Sign) → times s null ≡ null
times-null minus = refl
times-null null = refl
times-null plus = refl

pub plus_of : (n : ℤ) → 0 < pos_part n → sign_ℤ n ≡ plus
plus_of (pos zero) h = absurd (omega arith)
plus_of (pos (suc n)) h = refl
plus_of (negsuc n) h = absurd (omega arith)

pub minus_of : (n : ℤ) → 0 < neg_part n → sign_ℤ n ≡ minus
minus_of (pos n) h = absurd (omega arith)
minus_of (negsuc n) h = refl

pub pos_of_plus : (n : ℤ) → sign_ℤ n ≡ plus → 0 < pos_part n
pos_of_plus (pos zero) h = cc
pos_of_plus (pos (suc n)) h = omega arith
pos_of_plus (negsuc n) h = cc

pub neg_of_minus : (n : ℤ) → sign_ℤ n ≡ minus → 0 < neg_part n
neg_of_minus (pos zero) h = cc
neg_of_minus (pos (suc n)) h = cc
neg_of_minus (negsuc n) h = omega arith

pub zero_of_null : (n : ℤ) → sign_ℤ n ≡ null → n ≡ pos 0
zero_of_null (pos zero) h = refl
zero_of_null (pos (suc n)) h = cc
zero_of_null (negsuc n) h = cc

pub sign_ℤ-scale : (n : ℤ) (k : ℕ) → 0 < k → sign_ℤ (scale_ℤ n k) ≡ sign_ℤ n
sign_ℤ-scale (pos zero) k h =
    ap sign_ℤ (eq_of_parts (scale_ℤ (pos 0) k) (pos 0) (omega (arith, scale_ℤ_parts (pos 0) k)))
sign_ℤ-scale (pos (suc n)) k h = plus_of _ (grind (arith, scale_ℤ_parts (pos (suc n)) k))
sign_ℤ-scale (negsuc n) k h = minus_of _ (grind (arith, scale_ℤ_parts (negsuc n) k))

pub sign_ℤ-with_sign : (n : ℤ) (k : ℕ) → 0 < mag n → 0 < k → sign_ℤ (with_sign n k) ≡ sign_ℤ n
sign_ℤ-with_sign (pos zero) k h p = absurd (omega arith)
sign_ℤ-with_sign (pos (suc n)) (suc k) h p = refl
sign_ℤ-with_sign (pos (suc n)) zero h p = absurd (omega arith)
sign_ℤ-with_sign (negsuc n) k h p = minus_of _ (ground arith)

pub sign-shifted : (n : ℤ) (up down : ℕ) → sign (shifted n up down) ≡ sign_ℤ n
sign-shifted n up down = elim (Bool-cases (leb up down)) [
  | inl e ↦ rw e
  | inr e ↦ rw e (sign_ℤ-scale n (10 ^ (up - down)) (pow-pos (up - down)))
]

fix-long-sign :
    (n : ℤ) (s : ℕ)
    → precision < ndigits (mag n)
    → let k = ndigits (mag n) - precision in
      sign (shifted (with_sign n (half_even (mag n) (10 ^ k))) k s) ≡ sign_ℤ n
fix-long-sign n s long =
    let k = ndigits (mag n) - precision in
    let nonzero = pos_of_long (mag n) (omega arith) in
    let kept =
      half_even-pos (mag n) (10 ^ k) (pow-pos k)
        (dropped-le (mag n) precision nonzero (omega arith)) in
    sign-shifted (with_sign n (half_even (mag n) (10 ^ k))) k s ∙ sign_ℤ-with_sign n _ nonzero kept

-- Rounding keeps the sign.
pub sign-fix : (a : Decimal) → sign (fix a) ≡ sign a
unfolding fix
sign-fix a = elim (Bool-cases (leb (ndigits (mag a.coeff)) precision)) [
  | inl short ↦ rw short
  | inr long ↦ rw long (fix-long-sign a.coeff a.scale (ground arith))
]

-- A value of at most 28 digits is not rounded.
pub fix-short : (a : Decimal) → ndigits (mag a.coeff) ≤ precision → fix a ≡ a
unfolding fix
fix-short a h = let e : leb (ndigits (mag a.coeff)) precision ≡ true = ground arith in rw e

sign_ℤ-neg : (n : ℤ) → sign_ℤ (neg_ℤ n) ≡ flip (sign_ℤ n)
sign_ℤ-neg (pos zero) = refl
sign_ℤ-neg (pos (suc n)) = minus_of _ (ground arith)
sign_ℤ-neg (negsuc n) = plus_of _ (ground arith)

pub sign-neg : (a : Decimal) → sign (neg a) ≡ flip (sign a)
unfolding neg
sign-neg a = sign-fix _ ∙ sign_ℤ-neg a.coeff

pub sign-abs : (a : Decimal) → sign a ≢ null → sign (abs a) ≡ plus
unfolding abs
sign-abs a h = sign-fix _ ∙ size a.coeff h
  where
    size : (n : ℤ) → sign_ℤ n ≢ null → sign_ℤ (pos (mag n)) ≡ plus
    size (pos zero) q = absurd (q refl)
    size (pos (suc n)) q = refl
    size (negsuc n) q = refl

sign_ℤ-mul : (m n : ℤ) → sign_ℤ (mul_ℤ m n) ≡ times (sign_ℤ n) (sign_ℤ m)
unfolding mul_ℤ
sign_ℤ-mul m (pos zero) =
    ap sign_ℤ (eq_of_parts (scale_ℤ m 0) (pos 0) (omega (arith, scale_ℤ_parts m 0)))
sign_ℤ-mul m (pos (suc n)) = sign_ℤ-scale m (suc n) (omega arith)
sign_ℤ-mul m (negsuc n) =
    sign_ℤ-neg (scale_ℤ m (suc n)) ∙ ap flip (sign_ℤ-scale m (suc n) (omega arith))

pub sign-mul : (a b : Decimal) → sign (mul a b) ≡ times (sign b) (sign a)
unfolding mul
sign-mul a b = sign-fix _ ∙ sign_ℤ-mul a.coeff b.coeff

sign_ℤ-add_plus : (m n : ℤ) → sign_ℤ m ≡ plus → sign_ℤ n ≡ plus → sign_ℤ (m +ℤ n) ≡ plus
sign_ℤ-add_plus (pos (suc m)) (pos (suc n)) p q =
    plus_of _ (omega (arith, +ℤ_parts (pos (suc m)) (pos (suc n))))
sign_ℤ-add_plus (pos zero) n p q = cc
sign_ℤ-add_plus (negsuc m) n p q = cc
sign_ℤ-add_plus m (pos zero) p q = cc
sign_ℤ-add_plus m (negsuc n) p q = cc

sign_ℤ-add_minus : (m n : ℤ) → sign_ℤ m ≡ minus → sign_ℤ n ≡ minus → sign_ℤ (m +ℤ n) ≡ minus
sign_ℤ-add_minus (negsuc m) (negsuc n) p q =
    minus_of _ (omega (arith, +ℤ_parts (negsuc m) (negsuc n)))
sign_ℤ-add_minus (pos zero) n p q = cc
sign_ℤ-add_minus (pos (suc m)) n p q = cc
sign_ℤ-add_minus m (pos zero) p q = cc
sign_ℤ-add_minus m (pos (suc n)) p q = cc

sign_ℤ-add_null : (m n : ℤ) → sign_ℤ m ≡ null → sign_ℤ (m +ℤ n) ≡ sign_ℤ n
sign_ℤ-add_null m n p =
    ap sign_ℤ (eq_of_parts (m +ℤ n) n (rw (zero_of_null m p) (omega (arith, +ℤ_parts (pos 0) n))))

sign_ℤ-add_null_right : (m n : ℤ) → sign_ℤ n ≡ null → sign_ℤ (m +ℤ n) ≡ sign_ℤ m
sign_ℤ-add_null_right m n p =
    ap sign_ℤ (eq_of_parts (m +ℤ n) m (rw (zero_of_null n p) (omega (arith, +ℤ_parts m (pos 0)))))

-- The sum of two values of the same sign has that sign; a zero changes no sign.
module _ (a b : Decimal) where
  unfoldable pub place : Decimal → ℤ
  place c = scale_ℤ c.coeff (10 ^ (max a.scale b.scale - c.scale))

  sign-place : (c : Decimal) → sign_ℤ (place c) ≡ sign c
  unfolding place
  sign-place c = sign_ℤ-scale c.coeff _ (pow-pos (max a.scale b.scale - c.scale))

  pub sign-add_lem : sign (add a b) ≡ sign_ℤ (place a +ℤ place b)
  unfolding add place
  sign-add_lem = sign-fix _

  pub sign-add_plus : sign a ≡ plus → sign b ≡ plus → sign (add a b) ≡ plus
  sign-add_plus p q =
      sign-add_lem ∙ sign_ℤ-add_plus (place a) (place b) (sign-place a ∙ p) (sign-place b ∙ q)

  pub sign-add_minus : sign a ≡ minus → sign b ≡ minus → sign (add a b) ≡ minus
  sign-add_minus p q =
      sign-add_lem ∙ sign_ℤ-add_minus (place a) (place b) (sign-place a ∙ p) (sign-place b ∙ q)

  pub sign-add_null : sign a ≡ null → sign (add a b) ≡ sign b
  sign-add_null p =
      sign-add_lem ∙ sign_ℤ-add_null (place a) (place b) (sign-place a ∙ p) ∙ sign-place b

  pub sign-add_null_right : sign b ≡ null → sign (add a b) ≡ sign a
  sign-add_null_right p =
      sign-add_lem ∙ sign_ℤ-add_null_right (place a) (place b) (sign-place b ∙ p) ∙ sign-place a

mag-pos : (n : ℤ) → sign_ℤ n ≢ null → 0 < mag n
mag-pos (pos zero) p = absurd (p refl)
mag-pos (pos (suc n)) p = omega arith
mag-pos (negsuc n) p = omega arith

sign_ℤ-quotient :
    (m n : ℤ) (k : ℕ)
    → 0 < k
    → sign_ℤ m ≢ null
    → sign_ℤ n ≢ null
    → sign_ℤ (quotient_sign m n k) ≡ times (sign_ℤ n) (sign_ℤ m)
sign_ℤ-quotient m (pos zero) k h p q = absurd (q refl)
sign_ℤ-quotient m (pos (suc n)) k h p q = sign_ℤ-with_sign m k (mag-pos m p) h
sign_ℤ-quotient m (negsuc n) k h p q =
    sign_ℤ-neg (with_sign m k) ∙ ap flip (sign_ℤ-with_sign m k (mag-pos m p) h)

sign-div_digits :
    (a b : Decimal)
    → sign a ≢ null
    → sign b ≢ null
    → sign (div_digits a b) ≡ times (sign b) (sign a)
unfolding div_digits
sign-div_digits a b p q =
    let m = mag a.coeff in
    let n = mag b.coeff in
    let want = ndigits n + precision + 1 in
    let a_pos = mag-pos a.coeff p in
    let b_pos = mag-pos b.coeff q in
    elim (Bool-cases (leb (ndigits m) want)) [
      | inl e ↦ rw e (
          sign-shifted _ b.scale _
          ∙ sign_ℤ-quotient a.coeff b.coeff _
              (sticky-pos (m * 10 ^ (want - ndigits m)) n b_pos
                (mul-pos m _ a_pos (pow-pos (want - ndigits m))))
              p q)
      | inr e ↦ rw e (
          sign-shifted _ _ a.scale
          ∙ sign_ℤ-quotient a.coeff b.coeff _
              (sticky-pos m (n * 10 ^ (ndigits m - want))
                (mul-pos n _ b_pos (pow-pos (ndigits m - want))) a_pos)
              p q)
    ]

is_null-mag : (n : ℤ) → (mag n == 0) ≡ is_null (sign_ℤ n)
is_null-mag (pos zero) = refl
is_null-mag (pos (suc n)) = ground arith
is_null-mag (negsuc n) = ground arith

-- A division raises exactly at a zero divisor, and its result has the sign of the quotient.
pub div-by_null : (a b : Decimal) → sign b ≡ null → div a b ≡ none
unfolding div
div-by_null a b h = rw (is_null-mag b.coeff, h)

pub sign-div :
    (a b : Decimal)
    → sign b ≢ null
    → (c : Decimal) × (div a b ≡ some c) × (sign c ≡ times (sign b) (sign a))
unfolding div
sign-div a b h = elim (is_null-cases (sign b)) [
  | inl e ↦ absurd (h e)
  | inr e ↦ elim (is_null-cases (sign a)) [
    | inl d ↦ (
      zero_dec,
      rw (is_null-mag b.coeff, e.1, is_null-mag a.coeff, d),
      rw d (sym (times-null (sign b))),
    )
    | inr d ↦ (
      fix (div_digits a b),
      rw (is_null-mag b.coeff, e.1, is_null-mag a.coeff, d.1),
      sign-fix (div_digits a b) ∙ sign-div_digits a b d.0 h,
    )
  ]
]
