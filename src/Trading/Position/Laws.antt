-- ===== src/Trading/Position/Laws.antt =====
-- What a fill does to a position: when it is refused, and the invariant that it keeps.
use self_learning_trading_ag.Base.{
  ◌≡◌, refl, sym, ◌∙◌, ◌⊎◌, inl, inr, ◌≢◌, true, false, ◌||◌, arith, Text, ok, raise, Bool-cases,
}
use self_learning_trading_ag.Decimal.{
  Decimal, zero_dec, add, lt, le, plus, null, sign, zero-lt, le-zero,
}
use self_learning_trading_ag.Trading.Order.{fill_not_positive}
use self_learning_trading_ag.Trading.Position.{
  Position, value_error, extends, reduce, signed, apply_fill,
}
use self_learning_trading_ag.Trading.Position.Signs.{
  size, direction-ne-null, size-of_ne_null, plus_of_lt, sign-signed, sign-extended, sign-cost,
  extend-total, sign-remaining_average,
}

-- A flat position has the average zero, and any other a positive average.
abbrev pub IsValid : Position → Type 0
IsValid p = sign p.average_entry_price ≡ size (sign p.quantity)

module _ (side : Text) (quantity price : Decimal) (p : Position) where
  new_quantity : Decimal
  new_quantity = add p.quantity (signed side quantity)

  -- Both branches of a fill that is not refused: the new position, and its validity.
  Outcome : Type 0
  Outcome =
      (p' : Position) × (apply_fill side quantity price p ≡ ok p')
      × (p'.quantity ≡ new_quantity)
      × (p'.symbol ≡ p.symbol)
      × (IsValid p → IsValid p')

  module _ (hq : sign quantity ≡ plus) (hp : sign price ≡ plus) where
    passes : (le quantity zero_dec || le price zero_dec) ≡ false
    passes = rw (le-zero, le-zero, hq, hp)

    directed : sign (signed side quantity) ≢ null
    directed = λ z. direction-ne-null side (sym (sign-signed side quantity hq) ∙ z)

    extended : extends p.quantity (signed side quantity) ≡ true → Outcome
    unfolding apply_fill new_quantity Outcome
    extended t =
        let kept = sign-extended p.quantity (signed side quantity) t in
        let (a, e, s) = extend-total new_quantity quantity price p (λ z. directed (sym kept ∙ z)) in
        (
          record p { quantity = new_quantity; average_entry_price = a },
          rw (passes, t, e),
          refl,
          refl,
          λ v.
              s
              ∙ sign-cost p.quantity p.average_entry_price quantity price v hq hp
              ∙ sym (size-of_ne_null _ (λ z. directed (sym kept ∙ z))),
        )

    reduced : extends p.quantity (signed side quantity) ≡ false → Outcome
    unfolding apply_fill reduce new_quantity Outcome
    reduced t = (
      reduce new_quantity quantity price p,
      rw (passes, t),
      refl,
      refl,
      λ v. sign-remaining_average p.quantity new_quantity price p v hp,
    )

    accepted : Outcome
    accepted = elim (Bool-cases (extends p.quantity (signed side quantity))) [
      | inl t ↦ extended t
      | inr t ↦ reduced t
    ]

-- A fill with a positive quantity at a positive price is always accepted: it divides by no zero.
-- It moves the quantity by the fill, keeps the symbol, and keeps a valid position valid.
pub apply_fill-IsValid :
    (side : Text) (quantity price : Decimal) (p : Position)
    → lt zero_dec quantity ≡ true
    → lt zero_dec price ≡ true
    → (p' : Position) × (apply_fill side quantity price p ≡ ok p')
      × (p'.quantity ≡ add p.quantity (signed side quantity))
      × (p'.symbol ≡ p.symbol)
      × (IsValid p → IsValid p')
unfolding Outcome new_quantity
apply_fill-IsValid side quantity price p hq hp =
    accepted side quantity price p (plus_of_lt quantity hq) (plus_of_lt price hp)

-- Any other fill is refused with a `ValueError`, whatever the position is.
pub apply_fill-refused :
    (side : Text) (quantity price : Decimal) (p : Position)
    → (lt zero_dec quantity ≡ false) ⊎ (lt zero_dec price ≡ false)
    → apply_fill side quantity price p ≡ raise (value_error fill_not_positive)
unfolding apply_fill
apply_fill-refused side quantity price p h =
    ground (arith, le-zero quantity, le-zero price, zero-lt quantity, zero-lt price)
