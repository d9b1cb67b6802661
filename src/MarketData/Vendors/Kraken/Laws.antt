-- ===== src/MarketData/Vendors/Kraken/Laws.antt =====
-- What a fetch of candles gives.
use self_learning_trading_ag.Base.{
  ℕ, ◌≤◌, ◌≡◌, refl, ◌⊎◌, inl, inr, Bool, true, false, Option, some, List, [], ◌∷◌, Text, text,
  text_eq, Except, ok, raise, length, ltb, arith, Bool-cases, Option-cases, if◌then◌else◌,
}
use self_learning_trading_ag.Core.Errors.{DomainError}
use self_learning_trading_ag.Parse.Json.{Json, Object}
use self_learning_trading_ag.Tooling.Http.{Answer}
use self_learning_trading_ag.Tooling.Policy.{Failure, domain, Breaker, Policy, run}
use self_learning_trading_ag.MarketData.Entities.{Symbol, Timeframe, Candle}
use self_learning_trading_ag.MarketData.Vendors.{malformed, last_items, fetched}
use self_learning_trading_ag.MarketData.Vendors.Laws.{
  IsOf, AreOf, last_items-AreOf, length-last_items, run-Ends,
}
use self_learning_trading_ag.MarketData.Vendors.Kraken.{
  kraken, first_entry, to_kraken_pair, Row, cells, keyed, unsized, rows_of, cells_candle,
  rows_candles, usable, to_candles,
}
use self_learning_trading_ag.MarketData.Vendors.Kraken.Adapter.{
  interval, to_ms, answer_candles, fetch_ohlc, fetch_candles,
}

-- Whether a field other than `last` has an object, as no answer to a request for candles has: it
-- has a list of rows under the pair, and a number under `last`.
abbrev pub has_entry : Object → Bool
has_entry Object.no_field = false
has_entry (Object.field key (Json.object entry) rest) =
    if text_eq key (text "last") then has_entry rest else true
has_entry (Object.field key _ rest) = has_entry rest

abbrev pub no_entry : DomainError
no_entry = malformed kraken (text "kraken response carried no result entry")

first_entry-has_entry :
    (o : Object)
    → (has_entry o ≡ false) × (first_entry o ≡ raise no_entry)
      ⊎ (has_entry o ≡ true) × ((entry : Object) × (first_entry o ≡ ok entry))
unfolding first_entry
first_entry-has_entry Object.no_field = inl (refl, refl)
first_entry-has_entry (Object.field key (Json.object entry) rest) =
    elim (Bool-cases (text_eq key (text "last"))) [
      | inl e ↦ rw (e, first_entry) (first_entry-has_entry rest)
      | inr e ↦ inr (rw e refl, (entry, rw (e, first_entry) refl))
    ]
first_entry-has_entry (Object.field key Json.null rest) = first_entry-has_entry rest
first_entry-has_entry (Object.field key (Json.boolean b) rest) = first_entry-has_entry rest
first_entry-has_entry (Object.field key (Json.number s) rest) = first_entry-has_entry rest
first_entry-has_entry (Object.field key (Json.string s) rest) = first_entry-has_entry rest
first_entry-has_entry (Object.field key (Json.array a) rest) = first_entry-has_entry rest

module _ (symbol : Symbol) (timeframe : Timeframe) (exchange : Text) where
  cells_candle-IsOf :
      (row : List Json) (c : Candle)
      → cells_candle symbol timeframe exchange row ≡ some c
      → IsOf symbol timeframe exchange c
  unfolding cells_candle
  cells_candle-IsOf row c h = ground (arith, h)

  -- Candles, or an exception.
  abbrev Gives : Except Failure (List Candle) → Type 0
  Gives (ok cs) = AreOf symbol timeframe exchange cs
  Gives (raise e) = Unit {0}

  rows_candles-Gives : (rows : List Row) → Gives (rows_candles symbol timeframe exchange rows)
  unfolding rows_candles
  rows_candles-Gives [] = tt
  rows_candles-Gives (cells row ∷ rows) = elim (Bool-cases (ltb (length row) 7)) [
    | inl short ↦ rw (short, rows_candles) (rows_candles-Gives rows)
    | inr long ↦ elim (Option-cases (cells_candle symbol timeframe exchange row)) [
      | inl e ↦ rw (long, rows_candles, e) tt
      | inr (c, e) ↦
          rw (long, rows_candles, e)
            (joined c (cells_candle-IsOf row c e) (rows_candles symbol timeframe exchange rows)
              (rows_candles-Gives rows))
    ]
  ]
    where
      joined :
          (c : Candle)
          → IsOf symbol timeframe exchange c
          → (r : Except Failure (List Candle)) → Gives r
          → Gives (elim r [ raise e ↦ raise e | ok cs ↦ ok (c ∷ cs) ])
      joined c h (raise e) g = tt
      joined c h (ok cs) g = (h, g)
  rows_candles-Gives (keyed n ∷ rows) = elim (Bool-cases (ltb n 7)) [
    | inl short ↦ rw (short, rows_candles) (rows_candles-Gives rows)
    | inr long ↦ rw (long, rows_candles) tt
  ]
  rows_candles-Gives (unsized ∷ rows) = tt

  usable-Gives : (r : Except Failure (List Candle)) → Gives r → Gives (usable r)
  unfolding usable
  usable-Gives (raise e) g = tt
  usable-Gives (ok []) g = tt
  usable-Gives (ok (c ∷ cs)) g = g

  to_candles-Gives : (rows : Json) → Gives (to_candles rows symbol timeframe exchange)
  unfolding to_candles
  to_candles-Gives rows = elim (Option-cases (rows_of rows)) [
    | inl e ↦ rw (e, to_candles) tt
    | inr (rs, e) ↦ rw (e, to_candles) (usable-Gives _ (rows_candles-Gives rs))
  ]

usable-length :
    (r : Except Failure (List Candle)) (cs : List Candle) → usable r ≡ ok cs → 1 ≤ length cs
unfolding usable
usable-length (raise e) cs h = ground (arith, h)
usable-length (ok []) cs h = ground (arith, h)
usable-length (ok (c ∷ cs)) ds h = ground (arith, h)

to_candles-length :
    (s : Symbol) (t : Timeframe) (x : Text) (rows : Json) (cs : List Candle)
    → to_candles rows s t x ≡ ok cs
    → 1 ≤ length cs
unfolding to_candles
to_candles-length s t x rows cs h = elim (Option-cases (rows_of rows)) [
  | inl e ↦ ground (arith, e, h)
  | inr (rs, e) ↦ usable-length (rows_candles s t x rs) cs (ground (arith, e, h))
]

-- What a fetch gives, by what its request gave.
pub data Fetched (symbol : Symbol) (timeframe : Timeframe) (limit : ℕ)
    : Except Failure Object → Except Failure (List Candle) → Type 0 where
  passed_on : {e : Failure} → Fetched symbol timeframe limit (raise e) (raise e)
  without_entry :
      {result : Object}
      → has_entry result ≡ false
      → Fetched symbol timeframe limit (ok result) (raise (domain no_entry))
  refused :
      {result : Object} {e : Failure}
      → has_entry result ≡ true
      → Fetched symbol timeframe limit (ok result) (raise e)
  found :
      {result : Object} {candles : List Candle}
      → has_entry result ≡ true
      → 1 ≤ length candles
      → (limit ≡ 0) ⊎ (length candles ≤ limit)
      → AreOf symbol timeframe kraken candles
      → Fetched symbol timeframe limit (ok result) (ok candles)

module _ (symbol : Symbol) (timeframe : Timeframe) (limit : ℕ) where
  answer_candles-Fetched :
      (pair : Text) (result : Object)
      → Fetched symbol timeframe limit
          (ok result)
          (answer_candles pair symbol timeframe limit result)
  unfolding answer_candles
  answer_candles-Fetched pair result = elim (first_entry-has_entry result) [
    | inl (h, e) ↦ rw (e, answer_candles) (without_entry h)
    | inr (h, (entry, e)) ↦
        rw (e, answer_candles)
          (mapped h _ (to_candles-Gives symbol timeframe kraken _)
            (to_candles-length symbol timeframe kraken _))
  ]
    where
      mapped :
          has_entry result ≡ true
          → (r : Except Failure (List Candle)) → Gives symbol timeframe kraken r
          → ((cs : List Candle) → r ≡ ok cs → 1 ≤ length cs)
          → Fetched symbol timeframe limit
              (ok result)
              (elim r [ raise e ↦ raise e | ok cs ↦ ok (last_items limit cs) ])
      mapped h (raise e) g some_one = refused h
      mapped h (ok cs) g some_one =
          let (least, most) = length-last_items limit cs (some_one cs refl) in
          found h least most (last_items-AreOf symbol timeframe kraken limit cs g)

module _ {S : Type 0} (show : ℕ → Text) (send : Text → List (Text × Text) → S → Answer Json × S)
    (policy : Policy S Object) where
  -- A fetch of candles always ends, with what its one request under the policy leaves of the
  -- outside. It passes on what the request raises. It gives candles only if a field of the result
  -- other than `last` holds an object; then it may give one candle at least and `limit` at most
  -- (any number if that is 0), all of the symbol and the timeframe. Any other result, such as one
  -- of lists of rows and `last`, raises an error that no entry was found.
  pub fetch_candles-Fetched :
      (symbol : Symbol) (timeframe : Timeframe) (since : Option ℕ) (limit : ℕ) (w : Breaker × S)
      → (r : Except Failure Object) × (o : Except Failure (List Candle)) × (w' : Breaker × S) × (run
            policy
            (fetch_ohlc show send policy (to_kraken_pair symbol) (interval timeframe) (to_ms since))
            w
          ≡ some (r, w'))
        × (fetch_candles show send policy symbol timeframe since limit w ≡ some (o, w'))
        × Fetched symbol timeframe limit r o
  unfolding fetch_candles fetched
  fetch_candles-Fetched symbol timeframe since limit w =
      let (r, w', q) =
        run-Ends policy
          (fetch_ohlc show send policy (to_kraken_pair symbol) (interval timeframe) (to_ms since))
          w in
      ended r w' q
    where
      ended :
          (r : Except Failure Object) (w' : Breaker × S)
          → run policy
              (fetch_ohlc show send policy
                (to_kraken_pair symbol)
                (interval timeframe)
                (to_ms since))
              w
            ≡ some (r, w')
          → (r1 : Except Failure Object) × (o : Except Failure (List Candle)) × (w1 : Breaker × S)
            × (run policy
                  (fetch_ohlc show send policy
                    (to_kraken_pair symbol)
                    (interval timeframe)
                    (to_ms since))
                  w
                ≡ some (r1, w1))
            × (fetch_candles show send policy symbol timeframe since limit w ≡ some (o, w1))
            × Fetched symbol timeframe limit r1 o
      ended (raise e) w' q = (raise e, raise e, w', q, rw (q, fetched) refl, passed_on)
      ended (ok result) w' q = (
        ok result,
        answer_candles (to_kraken_pair symbol) symbol timeframe limit result,
        w',
        q,
        rw (q, fetched) refl,
        answer_candles-Fetched symbol timeframe limit (to_kraken_pair symbol) result,
      )
