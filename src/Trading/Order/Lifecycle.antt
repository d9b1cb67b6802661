-- ===== src/Trading/Order/Lifecycle.antt =====
-- The state machine of an order: what every order satisfies that the methods can produce.
use self_learning_trading_ag.Base.{
  ℕ, ◌≡◌, refl, subst, ◌≢◌, ◌⊎◌, true, false, Option, none, some, Text, upper, upper-upper, ok,
  arith, inl, inr,
}
use self_learning_trading_ag.Decimal.{Decimal, zero_dec, lt, le, zero-lt, le-zero}
use self_learning_trading_ag.Trading.Order.{
  OrderSide, OrderStatus, pending, filled, rejected, TradeOrder, new_order, create, fill, reject,
}

-- What an order records of its end, by its status.
pub data Records : OrderStatus → Option Decimal → Option Text → Type 0 where
  open_order : Records pending none none
  filled_at : (price : Decimal) → lt zero_dec price ≡ true → Records filled (some price) none
  rejected_for : (reason : Text) → Records rejected none (some reason)

pub record IsWellFormed (o : TradeOrder) : Type 0 where
  pub quantity_positive : lt zero_dec o.quantity ≡ true
  pub price_positive : lt zero_dec o.requested_price ≡ true
  pub symbol_upper : upper o.symbol ≡ o.symbol
  pub records : Records o.status o.executed_price o.rejection_reason

-- One call of a method of an order that does not raise.
pub data Step (o o' : TradeOrder) : Type 0 where
  fills : (price : Decimal) → fill price o ≡ ok o' → Step o o'
  rejects : (reason : Text) → reject reason o ≡ ok o' → Step o o'

pub data Reach (o : TradeOrder) : TradeOrder → Type 0 where
  here : Reach o o
  next : {p q : TradeOrder} → Reach o p → Step p q → Reach o q

pub positive-of_not_le : (a : Decimal) → le a zero_dec ≡ false → lt zero_dec a ≡ true
positive-of_not_le a h = ground (arith, zero-lt a, le-zero a)

module _ (id : ℕ) (symbol : Text) (side : OrderSide) (quantity price : Decimal) (client : Text)
    (now : ℕ) where
  create-inversion :
      {o : TradeOrder}
      → create id symbol side quantity price client now ≡ ok o
      → (le quantity zero_dec ≡ false)
        × (le price zero_dec ≡ false)
        × (new_order id symbol side quantity price client now ≡ o)
  unfolding create
  create-inversion h = ground arith

  new_order-IsWellFormed :
      lt zero_dec quantity ≡ true
      → lt zero_dec price ≡ true
      → IsWellFormed (new_order id symbol side quantity price client now)
  unfolding new_order
  new_order-IsWellFormed q p = record {
    quantity_positive = q;
    price_positive = p;
    symbol_upper = upper-upper symbol;
    records = open_order;
  }

  pub create-new_order :
      {o : TradeOrder}
      → create id symbol side quantity price client now ≡ ok o
      → IsWellFormed o × (new_order id symbol side quantity price client now ≡ o)
  create-new_order h =
      let (q, p, e) = create-inversion h in
      (
        rw (← e)
            (new_order-IsWellFormed (positive-of_not_le quantity q) (positive-of_not_le price p)),
        e,
      )

pub fill-inversion :
    (price : Decimal) (o : TradeOrder) {o' : TradeOrder}
    → fill price o ≡ ok o'
    → (o.status ≡ pending)
      × (le price zero_dec ≡ false)
      × (record o { status = filled; executed_price = some price } ≡ o')
unfolding fill
fill-inversion price o h = ground arith

pub reject-inversion :
    (reason : Text) (o : TradeOrder) {o' : TradeOrder}
    → reject reason o ≡ ok o'
    → (o.status ≡ pending) × (record o { status = rejected; rejection_reason = some reason } ≡ o')
unfolding reject
reject-inversion reason o h = ground arith

-- A pending order has recorded neither a price nor a reason.
Records-pending :
    {s : OrderStatus} {e : Option Decimal} {r : Option Text}
    → Records s e r
    → s ≡ pending
    → (e ≡ none) × (r ≡ none)
Records-pending open_order h = (refl, refl)
Records-pending (filled_at p q) h = cc
Records-pending (rejected_for t) h = cc

-- What no step changes.
abbrev pub SameOrder : TradeOrder → TradeOrder → Type 0
SameOrder o o' =
    (o'.id ≡ o.id)
    × (o'.symbol ≡ o.symbol)
    × (o'.side ≡ o.side)
    × (o'.quantity ≡ o.quantity)
    × (o'.requested_price ≡ o.requested_price)
    × (o'.client_order_id ≡ o.client_order_id)
    × (o'.created_at ≡ o.created_at)

pub Step-IsWellFormed :
    {o o' : TradeOrder} → Step o o' → IsWellFormed o → IsWellFormed o' × SameOrder o o'
Step-IsWellFormed {o} (fills price h) w =
    let (s, p, e) = fill-inversion price o h in
    let (_, r) = Records-pending w.records s in
    rw (← e) (
      record {
        quantity_positive = w.quantity_positive;
        price_positive = w.price_positive;
        symbol_upper = w.symbol_upper;
        records = rw r (filled_at price (positive-of_not_le price p));
      },
      (refl, refl, refl, refl, refl, refl, refl),
    )
Step-IsWellFormed {o} (rejects reason h) w =
    let (s, e) = reject-inversion reason o h in
    let (x, _) = Records-pending w.records s in
    rw (← e) (
      record {
        quantity_positive = w.quantity_positive;
        price_positive = w.price_positive;
        symbol_upper = w.symbol_upper;
        records = rw x (rejected_for reason);
      },
      (refl, refl, refl, refl, refl, refl, refl),
    )

pub Step-pending : {o o' : TradeOrder} → Step o o' → (o.status ≡ pending) × (o'.status ≢ pending)
Step-pending {o} (fills price h) =
    let (s, _, e) = fill-inversion price o h in (s, rw (← e) (λ z. cc))
Step-pending {o} (rejects reason h) =
    let (s, e) = reject-inversion reason o h in (s, rw (← e) (λ z. cc))

abbrev Once : TradeOrder → TradeOrder → Type 0
Once o o' = (o' ≡ o) ⊎ (Step o o' × ((q : TradeOrder) → ¬ Step o' q))

Reach-Once : {o o' : TradeOrder} → Reach o o' → Once o o'
Reach-Once here = inl refl
Reach-Once {o} (next {q = q} r st) = elim (Reach-Once r) [
  | inl e ↦ inr (subst (λ x. Step x q) e st, λ z s. (Step-pending st).1 (Step-pending s).0)
  | inr (_, last) ↦ absurd (last q st)
]

at_most_one :
    {o o' : TradeOrder} → IsWellFormed o → Once o o' → IsWellFormed o' × SameOrder o o' × Once o o'
at_most_one w (inl e) = (rw e w, rw e (refl, refl, refl, refl, refl, refl, refl), inl e)
at_most_one w (inr (st, last)) =
    let (w', same) = Step-IsWellFormed st w in (w', same, inr (st, last))

-- Whatever is called on an order that `create` returned, the order stays well-formed: positive
-- amounts, an upper-case symbol, and an execution price or a reason exactly as its status says.
-- Nothing but the status, the execution price and the reason changes, and at most one call ever
-- succeeds: the order is still the created one, or it has come from it by a single step and no
-- further step is possible.
pub create-lifecycle :
    (id : ℕ) (symbol : Text) (side : OrderSide) (quantity price : Decimal) (client : Text) (now : ℕ)
    {o o' : TradeOrder}
    → create id symbol side quantity price client now ≡ ok o
    → Reach o o'
    → IsWellFormed o' × SameOrder o o' × ((o' ≡ o) ⊎ (Step o o' × ((q : TradeOrder) → ¬ Step o' q)))
create-lifecycle id symbol side quantity price client now h r =
    let (w, _) = create-new_order id symbol side quantity price client now h in
    at_most_one w (Reach-Once r)
