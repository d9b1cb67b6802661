-- ===== src/Tooling/Dsn.antt =====
-- app/infrastructure/capability/database/dsn.py: the options of a database's address. SQLAlchemy
-- reads the address and shows it: an address is its query, and a rest of any type.
use self_learning_trading_ag.Base.{
  Bool, ◌||◌, Option, none, some, List, [], ◌∷◌, Text, text, text_eq, if◌then◌else◌,
}

-- A URL, as `make_url` gives it: an option has one value or several.
pub record Url (R : Type 0) : Type 0 where
  pub query : List (Text × List Text)
  pub rest : R

-- `value[-1]`, or the one value.
unfoldable pub last_value : List Text → Option Text
last_value [] = none
last_value (v ∷ []) = some v
last_value (v ∷ (w ∷ vs)) = last_value (w ∷ vs)

-- `_CONNECT_KWARGS` and `_IGNORED_OPTIONS`
unfoldable pub is_translated : Text → Bool
is_translated option = text_eq option (text "sslmode")

unfoldable pub is_removed : Text → Bool
is_removed option = is_translated option || text_eq option (text "channel_binding")

-- The arguments of `connect`: `ssl`, if the options give it.
unfoldable pub connect_args : List (Text × List Text) → Option Text
connect_args [] = none
connect_args ((option, values) ∷ rest) =
    let others = connect_args rest in if is_translated option then last_value values else others

-- `url.difference_update_query`
unfoldable pub without_options : List (Text × List Text) → List (Text × List Text)
without_options [] = []
without_options ((option, values) ∷ rest) =
    let others = without_options rest in
    if is_removed option then others else (option, values) ∷ others

-- `normalize_asyncpg_dsn`
unfoldable pub normalize_asyncpg_dsn :
    {R : Type 0} → (make_url : Text → Url R) (render : Url R → Text) → Text → Text × Option Text
normalize_asyncpg_dsn make_url render dsn =
    let url = make_url dsn in
    (render (record url { query = without_options url.query }), connect_args url.query)
