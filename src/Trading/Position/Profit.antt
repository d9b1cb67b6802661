-- ===== src/Trading/Position/Profit.antt =====
-- The profit that a fill against a position realises, and closing a position in full.
use self_learning_trading_ag.Base.{
  ◌≡◌, refl, sym, ◌∙◌, ap, ◌≢◌, true, false, Text, text, inl, inr, text_eq, ok, if◌then◌else◌,
  Bool-cases, ◌≤◌,
}
use self_learning_trading_ag.Decimal.{
  Decimal, zero_dec, add, neg, sub, abs, lt, eq, min_dec, ndigits, precision, Sign, plus, minus,
  null, sign, flip, times, is_plus, is_minus, sign-neg, sign-abs, sign-mul, is_null, sign-add_null,
  sign-add-neg, zero-add_dec, zero-lt, lt-zero, le-zero, eq-zero, is_plus-sub, is_minus-sub,
}
use self_learning_trading_ag.Trading.Position.{
  Position, realized, empty, apply_fill, reduce, signed, remaining_average,
}
use self_learning_trading_ag.Int.{mag}
use self_learning_trading_ag.Trading.Position.Signs.{plus_of_lt, extend-total, extends-eq}

is_plus-flip : (s : Sign) → is_plus (flip s) ≡ is_minus s
is_plus-flip minus = refl
is_plus-flip null = refl
is_plus-flip plus = refl

is_minus-flip : (s : Sign) → is_minus (flip s) ≡ is_plus s
is_minus-flip minus = refl
is_minus-flip null = refl
is_minus-flip plus = refl

times-plus : (s : Sign) → times s plus ≡ s
times-plus minus = refl
times-plus null = refl
times-plus plus = refl

sign-min : (a b : Decimal) → sign a ≡ plus → sign b ≡ plus → sign (min_dec a b) ≡ plus
unfolding min_dec
sign-min a b p q = elim (Bool-cases (lt b a)) [ inl e ↦ rw e q | inr e ↦ rw e p ]

module _ (quantity price : Decimal) (p : Position) where
  -- The sign of the profit, before the comparison is read off.
  sign-realized :
      sign quantity ≡ plus
      → sign p.quantity ≢ null
      → sign (realized quantity price p) ≡ (
          if lt p.quantity zero_dec
          then flip (sign (sub price p.average_entry_price))
          else sign (sub price p.average_entry_price))
  unfolding realized
  sign-realized hq hp =
      let closed = sign-min (abs p.quantity) quantity (sign-abs p.quantity hp) hq in
      elim (Bool-cases (lt p.quantity zero_dec)) [
        | inl e ↦ rw e (sign-mul _ _ ∙ rw closed (times-plus _ ∙ sign-neg _))
        | inr e ↦ rw e (sign-mul _ _ ∙ rw closed (times-plus _))
      ]

-- A fill against a long position realises a profit exactly at a price above the average, and
-- a loss exactly below it; for a short position it is the other way round.
pub realized-sign :
    (quantity price : Decimal) (p : Position)
    → lt zero_dec quantity ≡ true
    → sign p.quantity ≢ null
    → (lt zero_dec (realized quantity price p) ≡ (
        if lt p.quantity zero_dec
        then lt price p.average_entry_price
        else lt p.average_entry_price price))
      × (lt (realized quantity price p) zero_dec ≡ (
          if lt p.quantity zero_dec
          then lt p.average_entry_price price
          else lt price p.average_entry_price))
realized-sign quantity price p hq hp =
    let gain = sub price p.average_entry_price in
    let r = sign-realized quantity price p (plus_of_lt quantity hq) hp in
    elim (Bool-cases (lt p.quantity zero_dec)) [
      | inl e ↦
          let r' : sign (realized quantity price p) ≡ flip (sign gain) = rw e at r in
          rw (e, zero-lt (realized quantity price p), lt-zero (realized quantity price p), r')
            (
              is_plus-flip (sign gain) ∙ is_minus-sub price p.average_entry_price,
              is_minus-flip (sign gain) ∙ is_plus-sub price p.average_entry_price,
            )
      | inr e ↦
          let r' : sign (realized quantity price p) ≡ sign gain = rw e at r in
          rw (e, zero-lt (realized quantity price p), lt-zero (realized quantity price p), r')
            (is_plus-sub price p.average_entry_price, is_minus-sub price p.average_entry_price)
    ]

-- The position after selling all of a long position.
closed_position : Decimal → Decimal → Position → Position
unfolding reduce
closed_position quantity exit held = reduce (add quantity (neg quantity)) quantity exit held

closed-average :
    (quantity exit : Decimal) (held : Position)
    → sign (add quantity (neg quantity)) ≡ null
    → (closed_position quantity exit held).average_entry_price ≡ zero_dec
unfolding closed_position reduce remaining_average
closed-average quantity exit held flat = rw (eq-zero, flat)

buy_opens :
    (name : Text) (quantity entry : Decimal)
    → ndigits (mag quantity.coeff) ≤ precision
    → sign quantity ≡ plus
    → sign entry ≡ plus
    → (a : Decimal) × (apply_fill (text "buy") quantity entry (empty name)
        ≡ ok (record (empty name) { quantity = quantity; average_entry_price = a }))
unfolding apply_fill empty signed text_eq
buy_opens name quantity entry short hq he =
    let (a, e, _) = extend-total quantity quantity entry (empty name) (λ z. cc) in
    (a, rw (le-zero, le-zero, hq, he, extends-eq, zero-add_dec quantity short) e)

sell_closes :
    (quantity exit : Decimal) (held : Position)
    → held.quantity ≡ quantity
    → sign quantity ≡ plus
    → sign exit ≡ plus
    → apply_fill (text "sell") quantity exit held ≡ ok (closed_position quantity exit held)
unfolding apply_fill closed_position signed text_eq
sell_closes quantity exit held same hq hx =
    rw (le-zero, le-zero, hq, hx, extends-eq, same, sign-neg, hq)

-- Buying a quantity of at most 28 digits into an empty position and selling it again is accepted
-- and leaves a flat position with the average zero; it realises a profit exactly if the exit
-- price is above the average that the purchase recorded, and a loss exactly if it is below.
pub buy-sell :
    (name : Text) (quantity entry exit : Decimal)
    → lt zero_dec quantity ≡ true
    → lt zero_dec entry ≡ true
    → lt zero_dec exit ≡ true
    → ndigits (mag quantity.coeff) ≤ precision
    → (held : Position) × (closed : Position) × (apply_fill (text "buy") quantity entry (empty name)
        ≡ ok held)
      × (apply_fill (text "sell") quantity exit held ≡ ok closed)
      × (eq closed.quantity zero_dec ≡ true)
      × (closed.average_entry_price ≡ zero_dec)
      × (lt zero_dec closed.realized_pnl ≡ lt held.average_entry_price exit)
      × (lt closed.realized_pnl zero_dec ≡ lt exit held.average_entry_price)
unfolding closed_position empty
buy-sell name quantity entry exit hq he hx short =
    let (a, opened) = buy_opens name quantity entry short (plus_of_lt _ hq) (plus_of_lt _ he) in
    let held : Position = record (empty name) { quantity = quantity; average_entry_price = a } in
    let flat = sign-add-neg quantity short in
    let q = plus_of_lt quantity hq in
    let (gain, loss) = realized-sign quantity exit held hq (λ z. cc) in
    let long : lt quantity zero_dec ≡ false = lt-zero quantity ∙ ap is_minus q in
    let pnl : sign (closed_position quantity exit held).realized_pnl
        ≡ sign (realized quantity exit held) =
      sign-add_null zero_dec (realized quantity exit held) refl in
    (
      held,
      closed_position quantity exit held,
      opened,
      sell_closes quantity exit held refl q (plus_of_lt _ hx),
      eq-zero _ ∙ ap is_null flat,
      closed-average quantity exit held flat,
      zero-lt _ ∙ ap is_plus pnl ∙ sym (zero-lt _) ∙ rw long at gain,
      lt-zero _ ∙ ap is_minus pnl ∙ sym (lt-zero _) ∙ rw long at loss,
    )
