-- ===== src/Trading/Repositories/Orders/Laws.antt =====
-- What is saved can be read again by the client's order id.
use self_learning_trading_ag.Base.{
  ◌≡◌, ◌≤◌, ◌⊎◌, refl, true, false, Option, none, some, [], ◌∷◌, ◌++◌, Text, text_eq, text_eq_refl,
  Except, ok, raise, arith, length, ◌==◌, Option-cases, Bool-cases, inl, inr,
}
use self_learning_trading_ag.Decimal.{Decimal}
use self_learning_trading_ag.Trading.Order.{
  buy, sell, market, pending, filled, rejected, OrderSide, OrderType, OrderStatus, side_value,
  status_value, TradeOrder,
}
use self_learning_trading_ag.Trading.Ports.{StoreError, data_error, OrderRepository}
use self_learning_trading_ag.Trading.Repositories.{Columns, takes_text, takes_null, AllOf}
use self_learning_trading_ag.Trading.Repositories.Orders.{
  TradeOrderRow, Table, type_value, parse_side, parse_type, parse_status, to_domain, to_row, stored,
  find_id, find_client, load, get_by_client_order_id, takes, kept, save, replace_row, is_taken,
}

parse_side_lem : (s : OrderSide) → parse_side (side_value s) ≡ ok s
unfolding parse_side text_eq
parse_side_lem buy = refl
parse_side_lem sell = refl

parse_type_lem : (s : OrderType) → parse_type (type_value s) ≡ ok s
unfolding parse_type text_eq
parse_type_lem market = refl

parse_status_lem : (s : OrderStatus) → parse_status (status_value s) ≡ ok s
unfolding parse_status text_eq
parse_status_lem pending = refl
parse_status_lem filled = refl
parse_status_lem rejected = refl

-- An order that every column takes.
pub record Fits (c : Columns) (o : TradeOrder) : Type 0 where
  pub symbol_short : length o.symbol ≤ 32
  pub quantity_taken : c.takes_decimal o.quantity ≡ true
  pub requested_taken : c.takes_decimal o.requested_price ≡ true
  pub executed_taken : AllOf (λ a. c.takes_decimal a ≡ true) o.executed_price
  pub client_short : length o.client_order_id ≤ 128
  pub time_taken : c.takes_time o.created_at ≡ true
  pub reason_short : AllOf (λ (s : Text). length s ≤ 512) o.rejection_reason

takes_null_executed :
    (c : Columns) (a : Option Decimal)
    → takes_null c.takes_decimal a ≡ true
    → AllOf (λ b. c.takes_decimal b ≡ true) a
takes_null_executed c none h = tt
takes_null_executed c (some a) h = h

executed_takes_null :
    (c : Columns) (a : Option Decimal)
    → AllOf (λ b. c.takes_decimal b ≡ true) a
    → takes_null c.takes_decimal a ≡ true
executed_takes_null c none h = refl
executed_takes_null c (some a) h = h

takes_null_reason :
    (r : Option Text)
    → takes_null (takes_text 512) r ≡ true
    → AllOf (λ (s : Text). length s ≤ 512) r
unfolding takes_text
takes_null_reason none h = tt
takes_null_reason (some s) h = ground arith

reason_takes_null :
    (r : Option Text)
    → AllOf (λ (s : Text). length s ≤ 512) r
    → takes_null (takes_text 512) r ≡ true
unfolding takes_text
reason_takes_null none h = refl
reason_takes_null (some s) h = ground arith

module _ (c : Columns) where
  -- A row that is read again is the order that it was written from, with its amounts as the
  -- columns keep them.
  pub to_domain-to_row : (o : TradeOrder) → to_domain (kept c (to_row o)) ≡ ok (stored c o)
  unfolding to_domain to_row stored kept
  to_domain-to_row o = rw (parse_side_lem, parse_type_lem, parse_status_lem)

  takes-Fits : (o : TradeOrder) → takes c (to_row o) ≡ true → Fits c o
  unfolding takes to_row takes_text
  takes-Fits o h = record {
    symbol_short = ground arith;
    quantity_taken = ground arith;
    requested_taken = ground arith;
    executed_taken = takes_null_executed c o.executed_price (ground arith);
    client_short = ground arith;
    time_taken = ground arith;
    reason_short = takes_null_reason o.rejection_reason (ground arith);
  }

  Fits-takes : (o : TradeOrder) → Fits c o → takes c (to_row o) ≡ true
  unfolding takes to_row takes_text
  Fits-takes o h = ground (
    arith,
    h.symbol_short,
    h.quantity_taken,
    h.requested_taken,
    executed_takes_null c o.executed_price h.executed_taken,
    h.client_short,
    h.time_taken,
    reason_takes_null o.rejection_reason h.reason_short,
  )

find_client-none :
    (c : Text) (t : Table) → get_by_client_order_id c t ≡ ok none → find_client c t ≡ none
unfolding get_by_client_order_id load
find_client-none c t h = elim (Option-cases (find_client c t)) [
  | inl e ↦ e
  | inr (row, e) ↦
      absurd (found row (to_domain row) refl (rw (e, get_by_client_order_id, load) at h))
]
  where
    found :
        (row : TradeOrderRow) (r : Except StoreError TradeOrder)
        → to_domain row ≡ r
        → load (some row) ≡ ok none
        → ⊥
    found row (ok o) e h = ground arith
    found row (raise x) e h = ground arith

is_taken-fresh :
    (new : TradeOrderRow) (t : Table)
    → find_client new.client_order_id t ≡ none
    → is_taken new t ≡ false
unfolding find_client is_taken
is_taken-fresh new [] h = refl
is_taken-fresh new (row ∷ t) h = ground (arith, is_taken-fresh new t)

find_client-append :
    (new : TradeOrderRow) (t : Table)
    → find_client new.client_order_id t ≡ none
    → find_client new.client_order_id (t ++ (new ∷ [])) ≡ some new
unfolding find_client
find_client-append new [] h = ground (arith, text_eq_refl new.client_order_id)
find_client-append new (row ∷ t) h = ground (arith, find_client-append new t)

find_client-replace :
    (new : TradeOrderRow) (t : Table) (old : TradeOrderRow)
    → find_client new.client_order_id t ≡ none
    → find_id new.id t ≡ some old
    → find_client new.client_order_id (replace_row new t) ≡ some new
unfolding find_client find_id replace_row
find_client-replace new [] old h i = cc
find_client-replace new (row ∷ t) old h i = elim (Bool-cases (row.id == new.id)) [
  | inl same ↦ rw (same, text_eq_refl)
  | inr other ↦ ground (arith, find_client-replace new t old)
]

module _ (c : Columns) (o : TradeOrder) (t : Table) where
  saved : Table
  saved = elim (find_id o.id t) [
    | none ↦ t ++ (kept c (to_row o) ∷ [])
    | some _ ↦ replace_row (kept c (to_row o)) t
  ]

  find_client-saved :
      find_client o.client_order_id t ≡ none
      → find_client o.client_order_id saved ≡ some (kept c (to_row o))
  unfolding saved to_row kept
  find_client-saved h = elim (Option-cases (find_id o.id t)) [
    | inl e ↦ rw (e, saved) (find_client-append (kept c (to_row o)) t h)
    | inr (old, e) ↦ rw (e, saved) (find_client-replace (kept c (to_row o)) t old h e)
  ]

  -- The order is saved and found again under its client's order id, as the columns keep it.
  abbrev pub Kept : Type 0
  Kept =
      (t' : Table) × (save c o t ≡ ok t')
      × (get_by_client_order_id o.client_order_id t' ≡ ok (some (stored c o)))

  Fits-Kept : get_by_client_order_id o.client_order_id t ≡ ok none → Fits c o → Kept
  unfolding save get_by_client_order_id load saved to_row kept
  Fits-Kept h fits =
      let fresh = find_client-none o.client_order_id t h in
      (
        saved,
        rw (Fits-takes c o fits, is_taken-fresh (kept c (to_row o)) t fresh),
        rw (find_client-saved fresh) (rw (to_domain-to_row c o)),
      )

  -- An order with a new client's order id is saved if every column takes its value, and it is then
  -- found under that id, with its amounts as the columns keep them; if a column does not take its
  -- value, saving it raises a data error.
  pub get_by_client_order_id-save :
      get_by_client_order_id o.client_order_id t ≡ ok none
      → Fits c o × Kept ⊎ (¬ Fits c o) × (save c o t ≡ raise data_error)
  unfolding save
  get_by_client_order_id-save h = elim (Bool-cases (takes c (to_row o))) [
    | inl y ↦ inl (takes-Fits c o y, Fits-Kept h (takes-Fits c o y))
    | inr n ↦ inr ((λ fits. cc (Fits-takes c o fits, n)), rw (n, save) refl)
  ]

  pub get-save :
      get_by_client_order_id o.client_order_id t ≡ ok none
      → Kept ⊎ (e : StoreError) × (save c o t ≡ raise e)
  get-save h = elim (get_by_client_order_id-save h) [
    | inl (fits, found) ↦ inl found
    | inr (unfit, raised) ↦ inr (data_error, raised)
  ]

-- The repository as the services see it.
abbrev pub order_repository : Columns → OrderRepository
order_repository c = record {
  Table = Table;
  get_by_client_order_id = get_by_client_order_id;
  save = save c;
  stored = stored c;
  get-save = get-save c;
}
