-- ===== src/Trading/Repositories.antt =====
-- app/modules/trading/infrastructure/repositories: orders and positions in PostgreSQL, and the types
-- of the columns of postgres_order.py and postgres.py.
pub mod Orders
pub mod Positions
use self_learning_trading_ag.Base.{ℕ, Bool, true, Option, none, some, Text, length, leb}
use self_learning_trading_ag.Decimal.{Decimal}

-- What the database makes of values that are not texts: whether NUMERIC(38, 18) takes a decimal,
-- and what it keeps of one that it takes; and whether the column of a time takes a time of the
-- clock. A value that a column does not take makes the driver or the database raise.
pub record Columns : Type 0 where
  pub takes_decimal : Decimal → Bool
  pub numeric : Decimal → Decimal
  pub takes_time : ℕ → Bool

-- Whether VARCHAR(n) takes a text.
unfoldable pub takes_text : (n : ℕ) → Text → Bool
takes_text n s = leb (length s) n

-- Whether a column takes a value that may be NULL.
abbrev pub takes_null : {A : Type 0} → (A → Bool) → Option A → Bool
takes_null takes none = true
takes_null takes (some a) = takes a

-- Whether a predicate holds of a value that may be missing.
abbrev pub AllOf : {A : Type 0} → (A → Type 0) → Option A → Type 0
AllOf P none = Unit {0}
AllOf P (some a) = P a
