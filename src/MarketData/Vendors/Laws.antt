-- ===== src/MarketData/Vendors/Laws.antt =====
-- What the vendors' boundaries share, proved once: the last candles of a list, and the candles
-- that a mapping makes.
use self_learning_trading_ag.Base.{
  Bool, ℕ, zero, suc, ◌-◌, ◌≤◌, ◌≡◌, refl, ◌⊎◌, inl, inr, Option, none, some, List, [], ◌∷◌, Text,
  Except, ok, raise, length, arith,
}
use self_learning_trading_ag.Core.Errors.{DomainError}
use self_learning_trading_ag.Int.{ℤ}
use self_learning_trading_ag.Tooling.Policy.{
  Failure, domain, Call, Breaker, Policy, run, settle, retry_run, core,
}
use self_learning_trading_ag.Tooling.Policy.Laws.{retry_run-Tries}
use self_learning_trading_ag.MarketData.Entities.{Symbol, Timeframe, Candle}
use self_learning_trading_ag.MarketData.Vendors.{drop, last_items, ◌>>=◌}

-- A predicate of what an option holds.
abbrev pub Holds : {A : Type 0} → (A → Type 0) → Option A → Type 0
Holds P none = Unit {0}
Holds P (some a) = P a

pub bind-Holds :
    {A B : Type 0} (P : B → Type 0) (o : Option A) (k : A → Option B)
    → ((a : A) → Holds P (k a))
    → Holds P (o >>= k)
bind-Holds P none k h = tt
bind-Holds P (some a) k h = h a

-- Candles of one symbol, timeframe and exchange.
abbrev pub IsOf : Symbol → Timeframe → Text → Candle → Type 0
IsOf symbol timeframe exchange c =
    (c.symbol ≡ symbol) × (c.timeframe ≡ timeframe) × (c.exchange ≡ exchange)

abbrev pub AreOf : Symbol → Timeframe → Text → List Candle → Type 0
AreOf symbol timeframe exchange [] = Unit {0}
AreOf symbol timeframe exchange (c ∷ cs) =
    IsOf symbol timeframe exchange c × AreOf symbol timeframe exchange cs

length-drop : {A : Type 0} (n : ℕ) (xs : List A) → length (drop n xs) ≡ length xs - n
unfolding drop
length-drop zero xs = omega arith
length-drop (suc n) [] = ground arith
length-drop (suc n) (x ∷ xs) = ground (arith, length-drop n xs)

drop-AreOf :
    (s : Symbol) (t : Timeframe) (e : Text) (n : ℕ) (cs : List Candle)
    → AreOf s t e cs
    → AreOf s t e (drop n cs)
unfolding drop
drop-AreOf s t e zero cs h = h
drop-AreOf s t e (suc n) [] h = tt
drop-AreOf s t e (suc n) (c ∷ cs) (_, h) = drop-AreOf s t e n cs h

pub last_items-AreOf :
    (s : Symbol) (t : Timeframe) (e : Text) (n : ℕ) (cs : List Candle)
    → AreOf s t e cs
    → AreOf s t e (last_items n cs)
unfolding last_items
last_items-AreOf s t e zero cs h = h
last_items-AreOf s t e (suc n) cs h = drop-AreOf s t e (length cs - suc n) cs h

-- The last items of a list that has some are one at least, and as many as the limit says at most;
-- a limit of zero is none.
pub length-last_items :
    {A : Type 0} (n : ℕ) (xs : List A)
    → 1 ≤ length xs
    → (1 ≤ length (last_items n xs)) × ((n ≡ 0) ⊎ (length (last_items n xs) ≤ n))
unfolding last_items
length-last_items zero xs h = (h, inl refl)
length-last_items (suc n) xs h = (
  omega (arith, h, length-drop (length xs - suc n) xs),
  inr (omega (arith, length-drop (length xs - suc n) xs)),
)

-- A policy always gives an answer.
abbrev pub Ends : {S T : Type 0} → Policy S T → Call S T → Breaker × S → Type 0
Ends {S} {T} p fn w = (r : Except Failure T) × (w' : Breaker × S) × (run p fn w ≡ some (r, w'))

module _ {S T : Type 0} (b : Bool) (limiter : Option (S → S))
    (timeout : Option (Call S T → Call S T)) (sleep : ℕ → S → S) where
  abbrev with_retry : Option ℤ → Policy S T
  with_retry retry = record {
    retry = retry;
    has_breaker = b;
    limiter = limiter;
    timeout = timeout;
    sleep = sleep;
  }

  with_retry-Ends :
      (retry : Option ℤ) (fn : Call S T) (w : Breaker × S) → Ends (with_retry retry) fn w
  unfolding run
  with_retry-Ends none fn w = (_, _, refl)
  with_retry-Ends (some retries) fn w =
      let (n, r, w', q, tries, few, end) =
        retry_run-Tries retries (λ n (b', s'). (b', sleep n s'))
          (core (with_retry (some retries)) fn) w in
      given (settle r) w' q
    where
      given :
          (o : Except DomainError T) (w' : Breaker × S)
          → retry_run retries
              (λ n (b', s'). (b', sleep n s'))
              (core (with_retry (some retries)) fn)
              w
            ≡ some (o, w')
          → Ends (with_retry (some retries)) fn w
      given (ok t) w' q = (ok t, w', rw (q, run) refl)
      given (raise x) w' q = (raise (domain x), w', rw (q, run) refl)

pub run-Ends : {S T : Type 0} (p : Policy S T) (fn : Call S T) (w : Breaker × S) → Ends p fn w
run-Ends p fn w = with_retry-Ends p.has_breaker p.limiter p.timeout p.sleep p.retry fn w
