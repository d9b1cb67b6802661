-- ===== src/Examples/Ingest.antt =====
-- Tests and witnesses of the ingest of candles and of API keys.
use self_learning_trading_ag.Base.{
  ℕ, ◌≡◌, refl, false, List, [], ◌∷◌, ◌++◌, text, text_eq, text_eq_refl, ok, length,
}
use self_learning_trading_ag.Int.{pos}
use self_learning_trading_ag.Decimal.{Decimal, of_int}
use self_learning_trading_ag.MarketData.Entities.{Symbol, Candle, h1, timeframe_value}
use self_learning_trading_ag.MarketData.Ingest.{
  Key, has_key, Distinct, dedupe, dedupe_from, is_seen, key_eq, key, dedupe-Distinct, State, sync,
  Synced, sync-Synced,
}
use self_learning_trading_ag.MarketData.CandleTable.{
  CandleRow, ClickHouse, clickhouse_store, append_rows-length,
}
use self_learning_trading_ag.Auth.Entities.{User, viewer, new_user}
use self_learning_trading_ag.Auth.Repositories.Keys as Keys
use self_learning_trading_ag.Auth.Service.{PasswordHasher}

abbrev btc : Symbol
btc = record { code = text "BTC/USDT"; exchange = [] }

abbrev candle : ℕ → Candle
candle at = record {
  symbol = btc;
  timeframe = h1;
  opened_at = at;
  open_price = of_int (pos 10);
  high = of_int (pos 10);
  low = of_int (pos 10);
  close = of_int (pos 10);
  volume = of_int (pos 1);
  exchange = [];
}

-- Two of the three candles open in the same second.
abbrev feed : List Candle
feed = candle 1000000 ∷ (candle 1500000 ∷ (candle 2000000 ∷ []))

two_left : length (dedupe feed) ≡ 2
unfolding dedupe dedupe_from is_seen key_eq key text_eq timeframe_value
two_left = refl

dedupe-Distinct_example :
    Distinct (dedupe feed) × ((k : Key) → has_key k (dedupe feed) ≡ has_key k feed)
dedupe-Distinct_example = dedupe-Distinct feed

-- A database that keeps the rows, and whose queries give none.
abbrev rows_only : ClickHouse Decimal
rows_only = record {
  Tables = List (CandleRow Decimal);
  ddl = λ t. t;
  insert = λ rows t. t ++ rows;
  select = λ symbol timeframe start end t. [];
  select_latest = λ symbol timeframe limit t. [];
}

abbrev same : Decimal → Decimal
same d = d

abbrev fresh_store : State (clickhouse_store rows_only same)
fresh_store = record { table = record { tables = []; initialized = false }; published = [] }

sync-Synced_example :
    Synced
      (clickhouse_store rows_only same)
      btc
      h1
      fresh_store
      (ok feed)
      (sync (clickhouse_store rows_only same) btc h1 (ok feed) fresh_store)
sync-Synced_example =
    sync-Synced (clickhouse_store rows_only same) btc h1 (ok feed) fresh_store
      (append_rows-length rows_only same)

abbrev hasher : PasswordHasher
hasher = record { hash = λ s. s; verify = text_eq; verify-hash = text_eq_refl }

abbrev bob : User
bob = new_user 3 (text "bob") (text "long password") viewer
