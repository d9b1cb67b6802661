-- ===== src/MarketData/Ingest.antt =====
-- app/modules/marketdata/application/services.py: the ingest of candles, and the queries. What the source of the
-- market data answers is a parameter. A datetime is a number of microseconds.
use self_learning_trading_ag.Base.{
  ℕ, ◌-◌, ◌/◌, ◌≡◌, inl, inr, refl, ap, sym, ◌⊎◌, ◌∙◌, Bool, true, false, ◌&&◌, ◌||◌, List, [], ◌∷◌,
  ◌++◌, Text, text, is_empty, if◌then◌else◌, Option, text_eq, text_eq_refl, eq_of_text_eq, Except,
  ok, raise, length, arith, ◌==◌, Bool-cases,
}
use self_learning_trading_ag.Core.Result.{Result, ok_result, err_result}
use self_learning_trading_ag.Core.Errors.{DomainError}
use self_learning_trading_ag.MarketData.Vendors.{malformed}
use self_learning_trading_ag.MarketData.Entities.{Symbol, Timeframe, timeframe_value, Candle}

-- The key of a candle, as `_dedupe` compares it.
pub record Key : Type 0 where
  pub code : Text
  pub timeframe : Text
  pub seconds : ℕ

unfoldable pub key : Candle → Key
key c = record {
  code = c.symbol.code;
  timeframe = timeframe_value c.timeframe;
  seconds = c.opened_at / 1000000;
}

unfoldable pub key_eq : Key → Key → Bool
key_eq a b = text_eq a.code b.code && text_eq a.timeframe b.timeframe && (a.seconds == b.seconds)

-- `key in seen`
unfoldable pub is_seen : Key → List Key → Bool
is_seen k [] = false
is_seen k (x ∷ xs) = key_eq x k || is_seen k xs

-- The loop of `_dedupe`.
unfoldable pub dedupe_from : List Key → List Candle → List Candle
dedupe_from seen [] = []
dedupe_from seen (c ∷ cs) = elim (is_seen (key c) seen) [
  | true ↦ dedupe_from seen cs
  | false ↦ c ∷ dedupe_from (key c ∷ seen) cs
]

-- `_dedupe`
unfoldable pub dedupe : List Candle → List Candle
dedupe = dedupe_from []

pub record SyncSummary : Type 0 where
  pub symbol : Symbol
  pub timeframe : Timeframe
  pub fetched : ℕ
  pub appended : ℕ
  pub duplicates : ℕ

-- The event of an ingest.
pub record CandleReceived : Type 0 where
  pub symbol : Symbol
  pub timeframe : Text
  pub candles : List Candle

-- The port of the store. `append` returns the number of rows that it wrote; `none` is an exception.
pub record CandleStore : Type 1 where
  pub Table : Type 0
  pub append : List Candle → Table → ℕ × Table
  pub query_range : Symbol → Timeframe → (start end : ℕ) → Table → Option (List Candle) × Table
  pub latest : Symbol → Timeframe → (n : ℕ) → Table → Option (List Candle) × Table

module _ (store : CandleStore) where
  -- The store, and the events published so far.
  pub record State : Type 0 where
    pub table : store.Table
    pub published : List CandleReceived

  -- `sync`, from what the source answers.
  unfoldable pub sync :
      Symbol
      → Timeframe
      → Except DomainError (List Candle)
      → State
      → Result SyncSummary DomainError × State
  sync symbol timeframe (raise e) s = (err_result e, s)
  sync symbol timeframe (ok []) s = (
    ok_result (record {
      symbol = symbol;
      timeframe = timeframe;
      fetched = 0;
      appended = 0;
      duplicates = 0;
    }),
    s,
  )
  sync symbol timeframe (ok (c ∷ cs)) s =
      let candles = dedupe (c ∷ cs) in
      let (appended, table) = store.append candles s.table in
      (
        ok_result (record {
          symbol = symbol;
          timeframe = timeframe;
          fetched = length candles;
          appended = appended;
          duplicates = length candles - appended;
        }),
        record {
          table = table;
          published =
              s.published
              ++ (record {
                symbol = symbol;
                timeframe = timeframe_value timeframe;
                candles = candles;
              }
                  ∷ []);
        },
      )

  -- Whether a candle has an empty code.
  unfoldable pub misses_code : List Candle → Bool
  misses_code [] = false
  misses_code (c ∷ cs) = is_empty c.symbol.code || misses_code cs

  -- The events of `ingest_raw`, one for each candle.
  unfoldable pub raw_events : List Candle → List CandleReceived
  raw_events [] = []
  raw_events (c ∷ cs) =
      (record { symbol = c.symbol; timeframe = timeframe_value c.timeframe; candles = c ∷ [] })
      ∷ raw_events cs

  -- `ingest_raw`
  unfoldable pub ingest_raw : List Candle → State → Except DomainError (Unit {0}) × State
  ingest_raw [] s = (ok tt, s)
  ingest_raw (c ∷ cs) s =
      if misses_code (c ∷ cs)
      then (raise (malformed (text "marketdata") (text "candle missing symbol")), s)
      else (
        ok tt,
        record {
          table = (store.append (c ∷ cs) s.table).1;
          published = s.published ++ raw_events (c ∷ cs);
        },
      )

  -- `CandleQueryService`
  abbrev pub range :
      Symbol → Timeframe → (start end : ℕ) → store.Table → Option (List Candle) × store.Table
  range symbol timeframe start end t = store.query_range symbol timeframe start end t

  abbrev pub latest :
      Symbol → Timeframe → (n : ℕ) → store.Table → Option (List Candle) × store.Table
  latest symbol timeframe n t = store.latest symbol timeframe n t

-- Whether a candle of the list has the key.
abbrev pub has_key : Key → List Candle → Bool
has_key k [] = false
has_key k (c ∷ cs) = key_eq (key c) k || has_key k cs

-- No two candles of the list have the same key.
pub data Distinct : List Candle → Type 0 where
  no_candle : Distinct []
  one_more :
      {c : Candle} {cs : List Candle} → has_key (key c) cs ≡ false → Distinct cs → Distinct (c ∷ cs)

key_eq_refl : (k : Key) → key_eq k k ≡ true
unfolding key_eq
key_eq_refl k = rw (text_eq_refl k.code, text_eq_refl k.timeframe) (ground arith)

eq_of_key_eq : (a b : Key) → key_eq a b ≡ true → a ≡ b
unfolding key_eq
eq_of_key_eq a b h =
    ground (arith, eq_of_text_eq a.code b.code, eq_of_text_eq a.timeframe b.timeframe)

is_seen-key_eq : (a b : Key) (seen : List Key) → key_eq a b ≡ true → is_seen a seen ≡ is_seen b seen
is_seen-key_eq a b seen h = ap (λ k. is_seen k seen) (eq_of_key_eq a b h)

or_true : {b : Bool} (a : Bool) → b ≡ true → (a || b) ≡ true
or_true true h = refl
or_true false h = h

or_false : (a : Bool) → (a || false) ≡ a
or_false true = refl
or_false false = refl

-- Moving a key from the output to the seen ones.
swap : (a b c d : Bool) → (b || (a || d)) ≡ (c || (a || d)) → ((a || b) || d) ≡ ((a || c) || d)
swap true b c d h = refl
swap false b c d h = h

dedupe_from-has_key :
    (k : Key) (seen : List Key) (cs : List Candle)
    → is_seen k seen ≡ true
    → has_key k (dedupe_from seen cs) ≡ false
unfolding dedupe_from is_seen
dedupe_from-has_key k seen [] h = refl
dedupe_from-has_key k seen (c ∷ cs) h = elim (Bool-cases (is_seen (key c) seen)) [
  | inl e ↦ rw (e, dedupe_from) (dedupe_from-has_key k seen cs h)
  | inr e ↦
      rw (e, dedupe_from)
        (unseen e (Bool-cases (key_eq (key c) k))
          (dedupe_from-has_key k (key c ∷ seen) cs (kept (key c))))
]
  where
    unseen :
        is_seen (key c) seen ≡ false
        → (key_eq (key c) k ≡ true) ⊎ (key_eq (key c) k ≡ false)
        → has_key k (dedupe_from (key c ∷ seen) cs) ≡ false
        → (key_eq (key c) k || has_key k (dedupe_from (key c ∷ seen) cs)) ≡ false
    unseen e (inl y) q = cc (is_seen-key_eq (key c) k seen y, e, h)
    unseen e (inr y) q = rw (y, q) refl

    kept : (a : Key) → is_seen k (a ∷ seen) ≡ true
    kept a = or_true (key_eq a k) h

dedupe_from-Distinct : (seen : List Key) (cs : List Candle) → Distinct (dedupe_from seen cs)
unfolding dedupe_from is_seen
dedupe_from-Distinct seen [] = no_candle
dedupe_from-Distinct seen (c ∷ cs) = elim (Bool-cases (is_seen (key c) seen)) [
  | inl e ↦ rw (e, dedupe_from) (dedupe_from-Distinct seen cs)
  | inr e ↦
      rw (e, dedupe_from)
        (one_more (dedupe_from-has_key (key c) (key c ∷ seen) cs first)
          (dedupe_from-Distinct (key c ∷ seen) cs))
]
  where
    first : is_seen (key c) (key c ∷ seen) ≡ true
    first = rw (key_eq_refl (key c), is_seen) refl

dedupe_from_complete :
    (k : Key) (seen : List Key) (cs : List Candle)
    → (has_key k (dedupe_from seen cs) || is_seen k seen) ≡ (has_key k cs || is_seen k seen)
unfolding dedupe_from is_seen
dedupe_from_complete k seen [] = refl
dedupe_from_complete k seen (c ∷ cs) = elim (Bool-cases (is_seen (key c) seen)) [
  | inl e ↦ rw (e, dedupe_from) (dropped e (dedupe_from_complete k seen cs))
  | inr e ↦
      rw (e, dedupe_from)
        (swap (key_eq (key c) k) (has_key k (dedupe_from (key c ∷ seen) cs)) (has_key k cs)
          (is_seen k seen) (dedupe_from_complete k (key c ∷ seen) cs))
]
  where
    dropped :
        is_seen (key c) seen ≡ true
        → (has_key k (dedupe_from seen cs) || is_seen k seen) ≡ (has_key k cs || is_seen k seen)
        → (has_key k (dedupe_from seen cs) || is_seen k seen)
          ≡ ((key_eq (key c) k || has_key k cs) || is_seen k seen)
    dropped e ih = elim (Bool-cases (key_eq (key c) k)) [
      | inl y ↦
          rw (y, sym (is_seen-key_eq (key c) k seen y) ∙ e)
            (or_true (has_key k (dedupe_from seen cs)) refl)
      | inr y ↦ rw y ih
    ]

-- What `_dedupe` keeps has no two candles with the same key, and has every key of its input.
pub dedupe-Distinct :
    (cs : List Candle) → Distinct (dedupe cs) × ((k : Key) → has_key k (dedupe cs) ≡ has_key k cs)
unfolding dedupe is_seen
dedupe-Distinct cs = (
  dedupe_from-Distinct [] cs,
  λ k.
      sym (or_false (has_key k (dedupe_from [] cs)))
      ∙ dedupe_from_complete k [] cs
      ∙ or_false (has_key k cs),
)

-- What `sync` does with an answer at a store that reports every candle that it is given as
-- written: an error and an empty answer leave the state; the candles of another answer are written
-- and published without a second one of any key.
pub data Synced (store : CandleStore) (symbol : Symbol) (timeframe : Timeframe) (s : State store)
    : Except DomainError (List Candle) → Result SyncSummary DomainError × State store → Type 0 where
  no_answer : (e : DomainError) → Synced store symbol timeframe s (raise e) (err_result e, s)
  no_candles :
      (x : SyncSummary)
      → x.fetched ≡ 0
      → x.appended ≡ 0
      → x.duplicates ≡ 0
      → Synced store symbol timeframe s (ok []) (ok_result x, s)
  synced :
      (c : Candle) (cs candles : List Candle) (x : SyncSummary) (s' : State store)
      → Distinct candles
      → ((k : Key) → has_key k candles ≡ has_key k (c ∷ cs))
      → x.fetched ≡ length candles
      → x.appended ≡ length candles
      → x.duplicates ≡ 0
      → s'.table ≡ (store.append candles s.table).1
      → s'.published
        ≡ s.published
          ++ (record { symbol = symbol; timeframe = timeframe_value timeframe; candles = candles }
              ∷ [])
      → Synced store symbol timeframe s (ok (c ∷ cs)) (ok_result x, s')

-- At a store that reports every candle it is given as written, like the store of ClickHouse, an
-- answer with candles is written and published without a second candle of any key, and with every
-- key of the answer; the summary counts these candles as fetched and as appended, and no
-- duplicates, however many the answer has. An error or an empty answer leaves the state.
pub sync-Synced :
    (store : CandleStore) (symbol : Symbol) (timeframe : Timeframe)
    → (answer : Except DomainError (List Candle)) (s : State store)
    → ((cs : List Candle) (t : store.Table) → (store.append cs t).0 ≡ length cs)
    → Synced store symbol timeframe s answer (sync store symbol timeframe answer s)
unfolding sync
sync-Synced store symbol timeframe (raise e) s all = no_answer e
sync-Synced store symbol timeframe (ok []) s all = no_candles _ refl refl refl
sync-Synced store symbol timeframe (ok (c ∷ cs)) s all =
    let (distinct, keys) = dedupe-Distinct (c ∷ cs) in
    let every = all (dedupe (c ∷ cs)) s.table in
    synced c cs (dedupe (c ∷ cs)) _ _ distinct keys refl every (omega (arith, every)) refl refl
