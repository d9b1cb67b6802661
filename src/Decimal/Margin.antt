-- ===== src/Decimal/Margin.antt =====
-- Half as much again of a value that is not negative is, even rounded, at least the value.
use self_learning_trading_ag.Base.{
  ℕ, suc, ◌+◌, ◌-◌, ◌*◌, ◌/◌, ◌^◌, ◌≤◌, ◌<◌, ◌≡◌, refl, sym, subst, ap, ◌∙◌, ◌⊎◌, false, inl, inr,
  arith, leb, ltb, Bool-cases,
}
use self_learning_trading_ag.Int.{
  ℤ, pos, negsuc, pos_part, neg_part, scale_ℤ, mul_ℤ, scale_ℤ_parts, eq_of_parts,
}
use self_learning_trading_ag.Decimal.Defs.{
  Decimal, zero_dec, precision, ndigits, half_even, shifted, fix, mul, lt,
}
use self_learning_trading_ag.Decimal.Rounding.{
  pow-pos, pow-add, pow-le-pow, digits-lower, pos_of_long,
}
use self_learning_trading_ag.Decimal.Signs.{is_minus, sign_ℤ}
use self_learning_trading_ag.Decimal.Order.{lt-zero}
use native.Mathlib.Nat.{
  mod-lt, div-add-mod, pow-suc, mul-le-mul_right, le_of_mul-le-mul_right, le-div_iff_mul-le,
}

half_even-ge : (n m : ℕ) → n / m ≤ half_even n m
unfolding half_even
half_even-ge n m = ground arith

div-ge-two : (n m : ℕ) → 0 < m → 2 * m ≤ n → 2 ≤ n / m
div-ge-two n m p h = (le-div_iff_mul-le p).1 h

-- Half to even loses at most a third of a number that is at least twice the unit.
half_even-lower : (n m : ℕ) → 0 < m → 2 * m ≤ n → 2 * n ≤ 3 * (half_even n m * m)
half_even-lower n m p h =
    let two : 2 * m ≤ n / m * m = mul-le-mul_right m (div-ge-two n m p h) in
    let kept : n / m * m ≤ half_even n m * m = mul-le-mul_right m (half_even-ge n m) in
    omega (arith, div-add-mod n m, mod-lt n p)

-- The unit of the rounding is at most a tenth of the number.
unit-le : (c : ℕ) → precision < ndigits c → 2 * 10 ^ (ndigits c - precision) ≤ c
unit-le c long =
    let k = ndigits c - precision in
    let e : ndigits c ≡ (k + 1) + 27 = omega arith in
    let lower : 10 ^ ((k + 1) + 27) ≤ 10 * c =
      rw e at (digits-lower c (pos_of_long c (omega arith))) in
    let up : 10 ^ (suc (suc k)) ≤ 10 ^ ((k + 1) + 27) = pow-le-pow _ _ (omega arith) in
    let split : 10 ^ (suc (suc k)) ≡ 10 ^ k * 10 * 10 = rw (pow-suc, pow-suc) in omega arith

-- A rounded value is at least two thirds of the value.
fix-long-lower :
    (c s : ℕ)
    → precision < ndigits c
    → let k = ndigits c - precision in
      let r = shifted (pos (half_even c (10 ^ k))) k s in
      2 * (c * 10 ^ r.scale) ≤ 3 * (pos_part r.coeff * 10 ^ s)
fix-long-lower c s long =
    let k = ndigits c - precision in
    let h = half_even c (10 ^ k) in
    let lower : 2 * c ≤ 3 * (h * 10 ^ k) =
      half_even-lower c (10 ^ k) (pow-pos k) (unit-le c long) in
    elim (Bool-cases (leb k s)) [
      | inl fits ↦
          let e : s ≡ k + (s - k) = ground arith in
          let p : 10 ^ s ≡ 10 ^ k * 10 ^ (s - k) = ap (λ (j : ℕ). 10 ^ j) e ∙ pow-add k (s - k) in
          let up : 2 * c * 10 ^ (s - k) ≤ 3 * (h * 10 ^ k) * 10 ^ (s - k) =
            mul-le-mul_right (10 ^ (s - k)) lower in
          rw fits (rw p (omega arith))
      | inr over ↦
          let e : k ≡ (k - s) + s = ground arith in
          let p : 10 ^ k ≡ 10 ^ (k - s) * 10 ^ s = ap (λ (j : ℕ). 10 ^ j) e ∙ pow-add (k - s) s in
          rw over (
            rw ((scale_ℤ_parts (pos h) (10 ^ (k - s))).0)
              (omega (arith, ap (λ (t : ℕ). 3 * (h * t)) p)))
    ]

fix-lower :
    (c s : ℕ)
    → let r = fix (record { coeff = pos c; scale = s }) in
      (neg_part r.coeff ≡ 0) × (2 * (c * 10 ^ r.scale) ≤ 3 * (pos_part r.coeff * 10 ^ s))
unfolding fix
fix-lower c s = elim (Bool-cases (leb (ndigits c) precision)) [
  | inl short ↦ rw short (refl, omega arith)
  | inr long ↦ rw long (
    not_negative (half_even c (10 ^ (ndigits c - precision))) (ndigits c - precision) s,
    fix-long-lower c s (ground arith),
  )
]
  where
    not_negative : (h k s : ℕ) → neg_part (shifted (pos h) k s).coeff ≡ 0
    not_negative h k s = elim (Bool-cases (leb k s)) [
      | inl e ↦ rw e
      | inr e ↦ rw e (grind (arith, scale_ℤ_parts (pos h) (10 ^ (k - s))))
    ]

parts_disjoint : (n : ℤ) → (pos_part n ≡ 0) ⊎ (neg_part n ≡ 0)
parts_disjoint (pos n) = inr refl
parts_disjoint (negsuc n) = inl refl

ltb-sums :
    {w n p m w' p' : ℕ}
    → w ≡ w'
    → p ≡ p'
    → n ≡ 0
    → m ≡ 0
    → (ltb (w + n) (p + m) ≡ false → p' ≤ w') × (p' ≤ w' → ltb (w + n) (p + m) ≡ false)
ltb-sums a b c d = (λ h. ground arith, λ h. ground arith)

ltb-sums_zero : (w n : ℕ) {p m : ℕ} → p ≡ 0 → m ≡ 0 → ltb (w + n) (p + m) ≡ false
ltb-sums_zero w n a b = ground arith

-- A comparison of values that are not negative, on their digits.
lt-false :
    (a b : Decimal)
    → neg_part a.coeff ≡ 0
    → (lt a b ≡ false → pos_part b.coeff * 10 ^ a.scale ≤ pos_part a.coeff * 10 ^ b.scale)
      × (pos_part b.coeff * 10 ^ a.scale ≤ pos_part a.coeff * 10 ^ b.scale → lt a b ≡ false)
unfolding lt
lt-false a b n =
    let (p, q) = scale_ℤ_parts a.coeff (10 ^ b.scale) in
    let (r, t) = scale_ℤ_parts b.coeff (10 ^ a.scale) in
    let q' : neg_part (scale_ℤ a.coeff (10 ^ b.scale)) ≡ 0 =
      q ∙ ap (λ (k : ℕ). k * 10 ^ b.scale) n ∙ omega arith in
    elim (parts_disjoint b.coeff) [
      | inl z ↦
          let z' : pos_part b.coeff * 10 ^ a.scale ≡ 0 =
            ap (λ (k : ℕ). k * 10 ^ a.scale) z ∙ omega arith in
          (λ _. omega arith, λ _. ltb-sums_zero _ _ (r ∙ z') q')
      | inr z ↦
          let t' : neg_part (scale_ℤ b.coeff (10 ^ a.scale)) ≡ 0 =
            t ∙ ap (λ (k : ℕ). k * 10 ^ a.scale) z ∙ omega arith in
          ltb-sums p r t' q'
    ]

-- The numbers behind the margin: a at the scale s, b at t, and the product x at y.
margin-arith :
    (d c x s t y : ℕ)
    → 0 < s
    → d * s ≤ c * t
    → 2 * (c * 15 * y) ≤ 3 * (x * (s * 10))
    → d * y ≤ x * t
margin-arith d c x s t y p h k =
    let i : d * s * y ≤ c * t * y = mul-le-mul_right y h in
    let j : c * y * t ≤ x * s * t = mul-le-mul_right t (omega arith) in
    le_of_mul-le-mul_right {k = s} (omega arith) p

module _ (c s : ℕ) (b : Decimal) where
  product : Decimal
  product = fix (record { coeff = pos (c * 15); scale = s + 1 })

  lt-margin_pos : lt (record { coeff = pos c; scale = s }) b ≡ false → lt product b ≡ false
  unfolding product
  lt-margin_pos h =
      let (n, lower) = fix-lower (c * 15) (s + 1) in
      let e : 10 ^ (s + 1) ≡ 10 ^ s * 10 = ap (λ (j : ℕ). 10 ^ j) (omega arith) ∙ pow-suc 10 s in
      (lt-false product b n).1 (
        margin-arith (pos_part b.coeff) c (pos_part product.coeff) (10 ^ s) (10 ^ b.scale)
          (10 ^ product.scale) (pow-pos s)
          ((lt-false (record { coeff = pos c; scale = s }) b refl).0 h) (rw e at lower))

of_pos :
    (k s : ℕ) (b : Decimal)
    → lt (record { coeff = pos k; scale = s }) b ≡ false
    → lt (mul (record { coeff = pos k; scale = s }) (record { coeff = pos 15; scale = 1 })) b
      ≡ false
unfolding mul mul_ℤ product
of_pos k s b h =
    let (p, n) = scale_ℤ_parts (pos k) 15 in
    let e : scale_ℤ (pos k) 15 ≡ pos (k * 15) = eq_of_parts _ _ (rw (p, n) (omega arith)) in
    subst (λ (z : ℤ). lt (fix (record { coeff = z; scale = s + 1 })) b ≡ false) (sym e)
      (lt-margin_pos k s b h)

-- The margin: what is not above a value that is not negative is not above 1.5 of it.
pub lt-margin :
    (a b : Decimal)
    → lt a zero_dec ≡ false
    → lt a b ≡ false
    → lt (mul a (record { coeff = pos 15; scale = 1 })) b ≡ false
lt-margin a b n h = by_coeff a.coeff a.scale (sym (lt-zero a) ∙ n) h
  where
    by_coeff :
        (k : ℤ) (s : ℕ)
        → is_minus (sign_ℤ k) ≡ false
        → lt (record { coeff = k; scale = s }) b ≡ false
        → lt (mul (record { coeff = k; scale = s }) (record { coeff = pos 15; scale = 1 })) b
          ≡ false
    by_coeff (negsuc k) s m h = cc
    by_coeff (pos k) s m h = of_pos k s b h
