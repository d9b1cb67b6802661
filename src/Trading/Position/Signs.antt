-- ===== src/Trading/Position/Signs.antt =====
-- The signs of the quantities and prices that a fill of a position computes with.
use self_learning_trading_ag.Base.{
  ◌≡◌, refl, sym, ◌∙◌, ap, inl, inr, ◌≢◌, Bool, true, ◌||◌, ◌&&◌, arith, Text, text, text_eq, ok,
  if◌then◌else◌, Bool-cases,
}
use self_learning_trading_ag.Decimal.{
  Decimal, zero_dec, add, abs, mul, lt, Sign, plus, minus, null, sign, flip, times, is_plus,
  is_minus, is_null, sign-neg, sign-abs, sign-mul, sign-div, sign-add_plus, sign-add_minus,
  sign-add_null, zero-lt, lt-zero, eq-zero,
}
use self_learning_trading_ag.Trading.Position.{Position, extends, extend, signed, remaining_average}

-- No sign but zero's becomes plus.
abbrev pub size : Sign → Sign
size minus = plus
size null = null
size plus = plus

-- The sign of a quantity that the side has signed.
abbrev pub direction : Text → Sign
direction side = if text_eq side (text "buy") then plus else minus

pub direction-ne-null : (side : Text) → direction side ≢ null
direction-ne-null side = ground arith

pub size-of_ne_null : (s : Sign) → s ≢ null → size s ≡ plus
size-of_ne_null minus h = refl
size-of_ne_null null h = absurd (h refl)
size-of_ne_null plus h = refl

is_plus-eq : (s : Sign) → is_plus s ≡ true → s ≡ plus
is_plus-eq minus h = cc
is_plus-eq null h = cc
is_plus-eq plus h = refl

pub plus_of_lt : (a : Decimal) → lt zero_dec a ≡ true → sign a ≡ plus
plus_of_lt a h = is_plus-eq (sign a) (sym (zero-lt a) ∙ h)

pub sign-signed :
    (side : Text) (q : Decimal) → sign q ≡ plus → sign (signed side q) ≡ direction side
unfolding signed
sign-signed side q h = elim (Bool-cases (text_eq side (text "buy"))) [
  | inl e ↦ rw e h
  | inr e ↦ rw e (sign-neg q ∙ ap flip h)
]

-- The test for an extension, on the signs.
abbrev pub extends_sign : Sign → Sign → Bool
extends_sign old s = is_null old || (is_plus old && is_plus s) || (is_minus old && is_minus s)

pub extends-eq : (old s : Decimal) → extends old s ≡ extends_sign (sign old) (sign s)
unfolding extends
extends-eq old s = simp (eq-zero, zero-lt, lt-zero)

-- An extension keeps the side: its quantity is not zero and its sign is that of the fill.
pub sign-extended : (old s : Decimal) → extends old s ≡ true → sign (add old s) ≡ sign s
sign-extended old s e = go (sign old) (sign s) refl refl (sym (extends-eq old s) ∙ e)
  where
    go :
        (u v : Sign)
        → sign old ≡ u
        → sign s ≡ v
        → extends_sign u v ≡ true
        → sign (add old s) ≡ sign s
    go null v p q t = sign-add_null old s p
    go plus plus p q t = sign-add_plus old s p q ∙ sym q
    go minus minus p q t = sign-add_minus old s p q ∙ sym q
    go plus null p q t = cc
    go plus minus p q t = cc
    go minus null p q t = cc
    go minus plus p q t = cc

-- A fill price is positive, so the cost of the new part is; the old part's is not negative.
pub sign-cost :
    (q a n price : Decimal)
    → sign a ≡ size (sign q)
    → sign n ≡ plus
    → sign price ≡ plus
    → sign (add (mul (abs q) a) (mul n price)) ≡ plus
sign-cost q a n price h hn hp = go (sign q) refl
  where
    fresh : sign (mul n price) ≡ plus
    fresh = sign-mul n price ∙ rw (hp, hn)

    go : (u : Sign) → sign q ≡ u → sign (add (mul (abs q) a) (mul n price)) ≡ plus
    go null e = sign-add_null _ _ (sign-mul (abs q) a ∙ rw (h, e)) ∙ fresh
    go plus e = sign-add_plus _ _ (sign-mul (abs q) a ∙ rw (h, sign-abs q (λ z. cc), e)) fresh
    go minus e = sign-add_plus _ _ (sign-mul (abs q) a ∙ rw (h, sign-abs q (λ z. cc), e)) fresh

-- An extension does not divide by zero, and its average has the sign of the cost.
pub extend-total :
    (new_qty quantity price : Decimal) (p : Position)
    → sign new_qty ≢ null
    → (a : Decimal) × (extend new_qty quantity price p
        ≡ ok (record p { quantity = new_qty; average_entry_price = a }))
      × (sign a ≡ sign (add (mul (abs p.quantity) p.average_entry_price) (mul quantity price)))
unfolding extend
extend-total new_qty quantity price p h =
    let cost = add (mul (abs p.quantity) p.average_entry_price) (mul quantity price) in
    let size_plus = sign-abs new_qty h in
    let (a, e, s) = sign-div cost (abs new_qty) (λ z. cc) in
    (a, rw (e, extend), s ∙ ap (λ t. times t (sign cost)) size_plus)

-- What remains after a fill against the position keeps its average, unless it turned round.
pub sign-remaining_average :
    (old r price : Decimal) (p : Position)
    → sign p.average_entry_price ≡ size (sign old)
    → sign price ≡ plus
    → sign (remaining_average old r price p) ≡ size (sign r)
unfolding remaining_average
sign-remaining_average old r price p h hp =
    ground (arith, eq-zero r, zero-lt old, zero-lt r, lt-zero old, lt-zero r)
