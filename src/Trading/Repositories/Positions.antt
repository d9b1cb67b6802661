-- ===== src/Trading/Repositories/Positions.antt =====
-- app/modules/trading/infrastructure/repositories/postgres.py: positions, one row to a symbol.
-- The table, the database and the columns are as for the orders.
use self_learning_trading_ag.Base.{
  ◌≡◌, refl, Bool, ◌&&◌, Except, ok, raise, Option, none, some, List, [], ◌∷◌, Text, text_eq,
  text_eq_comm, text_eq_join, eq_of_text_eq, upper, arith, if◌then◌else◌, Bool-cases, inl, inr,
}
use self_learning_trading_ag.Decimal.{Decimal}
use self_learning_trading_ag.Trading.Position.{Position}
use self_learning_trading_ag.Trading.Ports.{StoreError, data_error, PositionRepository}
use self_learning_trading_ag.Trading.Repositories.{Columns, takes_text}

-- A row of `PositionRow` has the fields of a position.
pub record PositionRow : Type 0 where
  pub symbol : Text
  pub quantity : Decimal
  pub average_entry_price : Decimal
  pub realized_pnl : Decimal

-- `_to_domain`
unfoldable pub to_domain : PositionRow → Position
to_domain row = record {
  symbol = row.symbol;
  quantity = row.quantity;
  average_entry_price = row.average_entry_price;
  realized_pnl = row.realized_pnl;
}

abbrev pub Table : Type 0
Table = List PositionRow

-- `session.get(PositionRow, symbol)`
unfoldable pub find : Text → Table → Option PositionRow
find symbol [] = none
find symbol (row ∷ t) = if text_eq row.symbol symbol then some row else find symbol t

-- `get`
unfoldable pub get : Text → Table → Except StoreError (Option Position)
get symbol t = elim (find (upper symbol) t) [
  | none ↦ ok none
  | some row ↦ ok (some (to_domain row))
]

-- The row in place of the one with its symbol, or behind the others.
unfoldable pub put_row : PositionRow → Table → Table
put_row new [] = new ∷ []
put_row new (row ∷ t) = if text_eq row.symbol new.symbol then new ∷ t else row ∷ put_row new t

-- The columns of a position, under the symbol in upper case.
unfoldable pub to_row : Position → PositionRow
to_row position = record {
  symbol = upper position.symbol;
  quantity = position.quantity;
  average_entry_price = position.average_entry_price;
  realized_pnl = position.realized_pnl;
}

module _ (c : Columns) where
  -- Whether every column takes its value.
  unfoldable pub takes : PositionRow → Bool
  takes row =
      takes_text 32 row.symbol
      && c.takes_decimal row.quantity
      && c.takes_decimal row.average_entry_price
      && c.takes_decimal row.realized_pnl

  -- What the columns keep of a row that they take.
  unfoldable pub kept : PositionRow → PositionRow
  kept row = record row {
    quantity = c.numeric row.quantity;
    average_entry_price = c.numeric row.average_entry_price;
    realized_pnl = c.numeric row.realized_pnl;
  }

  -- `save`; the database raises for a value that a column does not take.
  unfoldable pub save : Position → Table → Except StoreError Table
  save position t =
      if takes (to_row position) then ok (put_row (kept (to_row position)) t) else raise data_error

  -- What a saved position is when it is read again.
  unfoldable pub stored : Position → Position
  stored position = record {
    symbol = upper position.symbol;
    quantity = c.numeric position.quantity;
    average_entry_price = c.numeric position.average_entry_price;
    realized_pnl = c.numeric position.realized_pnl;
  }

find-put_row :
    (s : Text) (new : PositionRow) (t : Table)
    → find s (put_row new t) ≡ (if text_eq new.symbol s then some new else find s t)
unfolding find put_row
find-put_row s new [] = refl
find-put_row s new (row ∷ t) = elim (Bool-cases (text_eq row.symbol new.symbol)) [
  | inl same ↦ rw (same, eq_of_text_eq row.symbol new.symbol same) (ground arith)
  | inr other ↦
      rw other (ground (arith, find-put_row s new t, text_eq_join row.symbol new.symbol s))
]

get-put_row :
    (c : Columns) (s : Text) (p : Position) (t : Table)
    → get s (put_row (kept c (to_row p)) t)
      ≡ (if text_eq (upper s) (upper p.symbol) then ok (some (stored c p)) else get s t)
unfolding get stored to_row to_domain kept
get-put_row c s p t =
    ground
      (arith, find-put_row (upper s) (kept c (to_row p)) t, text_eq_comm (upper s) (upper p.symbol))

saved_table :
    (c : Columns) (p : Position) (t : Table) {t' : Table}
    → save c p t ≡ ok t'
    → put_row (kept c (to_row p)) t ≡ t'
unfolding save
saved_table c p t h = ground (arith, h)

-- A position that is saved is read again under its symbol in any case of its letters, with its
-- amounts as the columns keep them, and no other position changes.
pub get-save :
    (c : Columns) (s : Text) (p : Position) (t : Table) {t' : Table}
    → save c p t ≡ ok t'
    → get s t' ≡ (if text_eq (upper s) (upper p.symbol) then ok (some (stored c p)) else get s t)
get-save c s p t h = rw (← saved_table c p t h) (get-put_row c s p t)

-- The repository as the services see it.
abbrev pub position_repository : Columns → PositionRepository
position_repository c = record {
  Table = Table;
  get = get;
  save = save c;
  stored = stored c;
  get-save = get-save c;
}
