-- ===== src/Decimal/Difference.antt =====
-- The sign of a difference is the outcome of the comparison, though the difference is rounded.
use native.Mathlib.Nat.{mul-lt-mul_of_pos_right, mul-le-mul_right}
use self_learning_trading_ag.Base.{
  ap₂, lt→ltb, ltb→lt, ℕ, ◌+◌, ◌-◌, ◌*◌, ◌^◌, ◌≤◌, ◌<◌, ◌≡◌, refl, ap, sym, ◌∙◌, false, inl, inr,
  arith, ltb, max, min, Bool-cases,
}
use self_learning_trading_ag.Int.{
  ℤ, pos, negsuc, mag, pos_part, neg_part, ◌+ℤ◌, neg_ℤ, scale_ℤ, ltb_ℤ, +ℤ_parts, scale_ℤ_parts,
  eq_of_parts, neg_ℤ_parts,
}
use self_learning_trading_ag.Decimal.Defs.{
  Decimal, zero_dec, precision, ndigits, neg, lt, sub, add, fix,
}
use self_learning_trading_ag.Decimal.Rounding.{pow-pos, pow-add}
use self_learning_trading_ag.Decimal.Signs.{
  Sign, fix-short, plus, minus, null, sign, sign_ℤ, is_plus, is_minus, place, sign-add_lem,
}

is_plus-difference : (m n : ℤ) → is_plus (sign_ℤ (m +ℤ neg_ℤ n)) ≡ ltb_ℤ n m
unfolding ◌+ℤ◌
is_plus-difference m n = ground arith

is_minus-difference : (m n : ℤ) → is_minus (sign_ℤ (m +ℤ neg_ℤ n)) ≡ ltb_ℤ m n
unfolding ◌+ℤ◌
is_minus-difference m n = ground arith

ltb-mul : (a b k : ℕ) → 0 < k → ltb (a * k) (b * k) ≡ ltb a b
ltb-mul a b k h = elim (Bool-cases (ltb a b)) [
  | inl e ↦ lt→ltb _ _ (mul-lt-mul_of_pos_right (ltb→lt a b e) h) ∙ sym e
  | inr e ↦
      let le : b * k ≤ a * k = mul-le-mul_right {m = b} {n = a} k (ground arith) in
      let t : ltb (a * k) (b * k) ≡ false = ground arith in t ∙ sym e
]

-- A cross sum of parts after a scaling.
cross :
    (m n : ℤ) (k : ℕ)
    → pos_part (scale_ℤ m k) + neg_part (scale_ℤ n k) ≡ (pos_part m + neg_part n) * k
cross m n k = rw ((scale_ℤ_parts m k).0, (scale_ℤ_parts n k).1) (omega arith)

ltb_ℤ-scale : (m n : ℤ) (k : ℕ) → 0 < k → ltb_ℤ (scale_ℤ m k) (scale_ℤ n k) ≡ ltb_ℤ m n
ltb_ℤ-scale m n k h =
    ap₂ ltb (cross m n k) (cross n m k)
    ∙ ltb-mul (pos_part m + neg_part n) (pos_part n + neg_part m) k h

scale-scale : (n : ℤ) (j k : ℕ) → scale_ℤ (scale_ℤ n j) k ≡ scale_ℤ n (j * k)
scale-scale n j k =
    let (a, b) = scale_ℤ_parts n j in
    let (c, d) = scale_ℤ_parts (scale_ℤ n j) k in
    let (e, f) = scale_ℤ_parts n (j * k) in eq_of_parts _ _ (rw (c, d, e, f, a, b) (omega arith))

scale-neg : (n : ℤ) (k : ℕ) → scale_ℤ (neg_ℤ n) k ≡ neg_ℤ (scale_ℤ n k)
scale-neg n k =
    let (a, b) = scale_ℤ_parts n k in
    let (c, d) = scale_ℤ_parts (neg_ℤ n) k in
    let (e, f) = neg_ℤ_parts n in
    let (g, h) = neg_ℤ_parts (scale_ℤ n k) in
    eq_of_parts _ _ (rw (c, d, g, h, a, b, e, f) (omega arith))

module _ (a b : Decimal) where
  -- Both values at the scale a.scale + b.scale, from the scale of the sum.
  common : ℕ
  common = 10 ^ min a.scale b.scale

  raise-a : scale_ℤ (place a b a) common ≡ scale_ℤ a.coeff (10 ^ b.scale)
  unfolding place common
  raise-a =
      scale-scale a.coeff (10 ^ (max a.scale b.scale - a.scale)) (10 ^ min a.scale b.scale)
      ∙ ap (scale_ℤ a.coeff) (
          sym (pow-add (max a.scale b.scale - a.scale) (min a.scale b.scale))
          ∙ ap (λ (k : ℕ). 10 ^ k) (omega arith))

  raise-b : scale_ℤ (place a b b) common ≡ scale_ℤ b.coeff (10 ^ a.scale)
  unfolding place common
  raise-b =
      scale-scale b.coeff (10 ^ (max a.scale b.scale - b.scale)) (10 ^ min a.scale b.scale)
      ∙ ap (scale_ℤ b.coeff) (
          sym (pow-add (max a.scale b.scale - b.scale) (min a.scale b.scale))
          ∙ ap (λ (k : ℕ). 10 ^ k) (omega arith))

  sign-sub_lem : sign (sub a b) ≡ sign_ℤ (place a b a +ℤ neg_ℤ (place a b b))
  unfolding sub
  sign-sub_lem =
      let nb : Decimal = record b { coeff = neg_ℤ b.coeff } in
      sign-add_lem a nb
      ∙ unfold place in
        ap (λ (t : ℤ). sign_ℤ (place a b a +ℤ t))
          (scale-neg b.coeff (10 ^ (max a.scale b.scale - b.scale)))

  -- `a - b > 0` exactly when `b < a`.
  pub is_plus-sub : is_plus (sign (sub a b)) ≡ lt b a
  unfolding lt common
  is_plus-sub =
      ap is_plus sign-sub_lem
      ∙ is_plus-difference (place a b a) (place a b b)
      ∙ sym (ltb_ℤ-scale (place a b b) (place a b a) common (pow-pos (min a.scale b.scale)))
      ∙ ap₂ ltb_ℤ raise-b raise-a

  -- `a - b < 0` exactly when `a < b`.
  pub is_minus-sub : is_minus (sign (sub a b)) ≡ lt a b
  unfolding lt common
  is_minus-sub =
      ap is_minus sign-sub_lem
      ∙ is_minus-difference (place a b a) (place a b b)
      ∙ sym (ltb_ℤ-scale (place a b a) (place a b b) common (pow-pos (min a.scale b.scale)))
      ∙ ap₂ ltb_ℤ raise-a raise-b

mag-neg : (n : ℤ) → mag (neg_ℤ n) ≡ mag n
mag-neg (pos n) = ground arith
mag-neg (negsuc n) = ground arith

scale-one : (n : ℤ) → scale_ℤ n 1 ≡ n
scale-one n = let (a, b) = scale_ℤ_parts n 1 in eq_of_parts _ _ (rw (a, b) (omega arith))

scale-zero : (k : ℕ) → scale_ℤ (pos 0) k ≡ pos 0
scale-zero k = let (a, b) = scale_ℤ_parts (pos 0) k in eq_of_parts _ _ (rw (a, b) (omega arith))

zero-add_ℤ : (n : ℤ) → pos 0 +ℤ n ≡ n
zero-add_ℤ n = eq_of_parts _ _ (omega (arith, +ℤ_parts (pos 0) n))

-- Values of at most 28 digits: adding to zero and changing the sign are exact.
module _ (a : Decimal) (h : ndigits (mag a.coeff) ≤ precision) where
  pub zero-add_dec : add zero_dec a ≡ a
  unfolding add
  zero-add_dec =
      let e : max 0 a.scale - a.scale ≡ 0 = omega arith in
      let one : scale_ℤ a.coeff (10 ^ (max 0 a.scale - a.scale)) ≡ a.coeff =
        ap (λ (k : ℕ). scale_ℤ a.coeff (10 ^ k)) e ∙ scale-one a.coeff in
      ap₂ (λ (c : ℤ) (s : ℕ). fix (record { coeff = c; scale = s }))
        (ap₂ ◌+ℤ◌ (scale-zero (10 ^ (max 0 a.scale - 0))) one ∙ zero-add_ℤ a.coeff) (omega arith)
      ∙ fix-short a h

  pub neg-exact : neg a ≡ record a { coeff = neg_ℤ a.coeff }
  unfolding neg
  neg-exact = fix-short _ (rw mag-neg h)

  -- a + (-a) is zero.
  pub sign-add-neg : sign (add a (neg a)) ≡ null
  unfolding sub
  sign-add-neg =
      rw neg-exact
        (null_of (sign (sub a a)) (is_plus-sub a a ∙ irreflexive) (is_minus-sub a a ∙ irreflexive))
    where
      irreflexive : lt a a ≡ false
      irreflexive = unfold lt in ground arith

      null_of : (s : Sign) → is_plus s ≡ false → is_minus s ≡ false → s ≡ null
      null_of minus p q = cc
      null_of null p q = refl
      null_of plus p q = cc
