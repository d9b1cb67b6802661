-- ===== src/Trading/Position.antt =====
-- app/modules/trading/domain/portfolio.py: a position, and how a fill changes it.
mod Signs
pub mod Laws
pub mod Profit
use self_learning_trading_ag.Base.{
  Bool, ◌&&◌, ◌||◌, Option, none, some, Text, text, text_eq, Except, ok, raise, if◌then◌else◌,
}
use self_learning_trading_ag.Decimal.{
  Decimal, zero_dec, add, sub, neg, abs, mul, div, lt, le, eq, min_dec,
}
use self_learning_trading_ag.Trading.Order.{ValueError, fill_not_positive}

pub record Position : Type 0 where
  pub symbol : Text
  pub quantity : Decimal
  pub average_entry_price : Decimal
  pub realized_pnl : Decimal

-- What `apply_fill` can raise: a `ValueError`, or the exception of a division by zero.
pub data FillError : Type 0 where
  value_error : ValueError → FillError
  division_by_zero : FillError

-- `Position.empty`
unfoldable pub empty : Text → Position
empty symbol = record {
  symbol = symbol;
  quantity = zero_dec;
  average_entry_price = zero_dec;
  realized_pnl = zero_dec;
}

-- The test for a fill that opens the position or adds to it.
unfoldable pub extends : Decimal → Decimal → Bool
extends old_qty signed_quantity =
    eq old_qty zero_dec
    || (lt zero_dec old_qty && lt zero_dec signed_quantity)
    || (lt old_qty zero_dec && lt signed_quantity zero_dec)

-- The first branch: a new average over both parts.
unfoldable pub extend : Decimal → Decimal → Decimal → Position → Except FillError Position
extend new_qty quantity price p =
    let total_cost = add (mul (abs p.quantity) p.average_entry_price) (mul quantity price) in
    elim (div total_cost (abs new_qty)) [
      | none ↦ raise division_by_zero
      | some average ↦ ok (record p { quantity = new_qty; average_entry_price = average })
    ]

-- The average entry price of what remains after a fill against the position.
unfoldable pub remaining_average : Decimal → Decimal → Decimal → Position → Decimal
remaining_average old_qty remaining price p =
    if eq remaining zero_dec
    then zero_dec
    else if (lt zero_dec old_qty && lt zero_dec remaining)
        || (lt old_qty zero_dec && lt remaining zero_dec)
    then p.average_entry_price
    else price

-- The profit that a fill against the position realises.
unfoldable pub realized : Decimal → Decimal → Position → Decimal
realized quantity price p =
    let closed = min_dec (abs p.quantity) quantity in
    let difference = sub price p.average_entry_price in
    let pnl_per_unit = if lt p.quantity zero_dec then neg difference else difference in
    mul closed pnl_per_unit

-- The second branch: the fill closes the position, a part of it, or turns it round.
unfoldable pub reduce : Decimal → Decimal → Decimal → Position → Position
reduce new_qty quantity price p = record p {
  quantity = new_qty;
  average_entry_price = remaining_average p.quantity new_qty price p;
  realized_pnl = add p.realized_pnl (realized quantity price p);
}

-- The quantity with the sign of the side.
unfoldable pub signed : Text → Decimal → Decimal
signed side quantity = if text_eq side (text "buy") then quantity else neg quantity

-- `Position.apply_fill`
unfoldable pub apply_fill : Text → Decimal → Decimal → Position → Except FillError Position
apply_fill side quantity price p =
    if le quantity zero_dec || le price zero_dec
    then raise (value_error fill_not_positive)
    else let new_qty = add p.quantity (signed side quantity) in
      if extends p.quantity (signed side quantity)
      then extend new_qty quantity price p
      else ok (reduce new_qty quantity price p)
