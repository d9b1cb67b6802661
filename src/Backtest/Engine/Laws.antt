-- ===== src/Backtest/Engine/Laws.antt =====
-- What the simulation keeps, whatever the strategy answers.
use self_learning_trading_ag.Base.{
  ℕ, suc, ◌+◌, ◌*◌, ◌≤◌, ◌≡◌, inl, inr, refl, sym, subst, Bool, true, false, Option, none, some,
  List, [], ◌∷◌, ◌++◌, arith, text, Except, ok, raise, ◌>>=◌, length, length-append, if◌then◌else◌,
  Bool-cases,
}
use self_learning_trading_ag.Int.{pos}
use self_learning_trading_ag.Decimal.{Decimal, of_int, zero_dec, sub, mul, div, lt, max_dec}
use self_learning_trading_ag.MarketData.Entities.{Candle}
use self_learning_trading_ag.Strategies.{SignalDirection, buy, sell, hold}
use self_learning_trading_ag.Backtest.Entities.{BacktestConfig, BacktestTrade, Ports}
use self_learning_trading_ag.Backtest.Engine.{
  Escape, division_by_zero, take, Simulation, begin, closing, enter, leave, trade, mark, appraise,
  direction, step, loop,
}

-- A trade that is closed: bought and sold.
pub record IsClosed (config : BacktestConfig) (t : BacktestTrade) : Type 0 where
  pub of_symbol : t.symbol ≡ config.symbol
  pub is_long : t.side ≡ text "long"
  pub closed : (at : ℕ) × (t.closed_at ≡ some at)
  pub sold : (price : Decimal) × (t.exit ≡ some price)
  pub valued : (pnl : Decimal) × (t.pnl ≡ some pnl)

pub data AllClosed (config : BacktestConfig) : List BacktestTrade → Type 0 where
  none_yet : AllClosed config []
  one_more :
      {t : BacktestTrade} {ts : List BacktestTrade}
      → IsClosed config t
      → AllClosed config ts
      → AllClosed config (t ∷ ts)

pub AllClosed-append :
    {config : BacktestConfig} (ts : List BacktestTrade) {t : BacktestTrade}
    → AllClosed config ts
    → IsClosed config t
    → AllClosed config (ts ++ (t ∷ []))
AllClosed-append [] none_yet h = one_more h none_yet
AllClosed-append (u ∷ us) (one_more k r) h = one_more k (AllClosed-append us r h)

pub closing-IsClosed :
    (config : BacktestConfig) (c : Candle) (s : Simulation) → IsClosed config (closing config c s)
unfolding closing
closing-IsClosed config c s = record {
  of_symbol = refl;
  is_long = refl;
  closed = (_, refl);
  sold = (_, refl);
  valued = (_, refl);
}

-- One for a position that is open.
abbrev pub open_count : Bool → ℕ
open_count true = 1
open_count false = 0

-- The invariant of the loop after n candles: all the money is either capital or position, and a
-- trade takes a candle to buy and one to sell.
pub record IsSimulation (config : BacktestConfig) (n : ℕ) (s : Simulation) : Type 0 where
  pub spent : s.holds ≡ true → s.capital ≡ zero_dec
  pub flat : s.holds ≡ false → s.quantity ≡ zero_dec
  pub few : 2 * length s.trades + open_count s.holds ≤ n
  pub all_closed : AllClosed config s.trades

-- An invariant of what a call returns.
abbrev pub Returns : {A : Type 0} → (A → Type 0) → Except Escape A → Type 0
Returns P (ok a) = P a
Returns P (raise e) = Unit {0}

pub bind-Returns :
    {A B : Type 0} (P : A → Type 0) (Q : B → Type 0) (r : Except Escape A) (f : A → Except Escape B)
    → Returns P r
    → ((a : A) → P a → Returns Q (f a))
    → Returns Q (r >>= f)
bind-Returns P Q (ok a) f h k = k a h
bind-Returns P Q (raise e) f h k = tt

enter-IsSimulation :
    (config : BacktestConfig) (n : ℕ) (c : Candle) (s : Simulation)
    → s.holds ≡ false
    → IsSimulation config n s
    → Returns (IsSimulation config (suc n)) (enter c s)
unfolding enter
enter-IsSimulation config n c s e h = by_quantity (div s.capital c.close)
  where
    by_quantity :
        (q : Option Decimal)
        → Returns (IsSimulation config (suc n)) (elim q [
          | none ↦ raise division_by_zero
          | some quantity ↦ ok (record s {
            holds = true;
            entry_at = c.opened_at;
            entry_price = c.close;
            quantity = quantity;
            capital = zero_dec;
          })
        ])
    by_quantity none = tt
    by_quantity (some q) = record {
      spent = λ _. refl;
      flat = λ x. ground (arith, x);
      few = omega (arith, h.few, subst (λ b. 2 * length s.trades + open_count b ≤ n) e h.few);
      all_closed = h.all_closed;
    }

leave-IsSimulation :
    (config : BacktestConfig) (n : ℕ) (c : Candle) (s : Simulation)
    → s.holds ≡ true
    → IsSimulation config n s
    → IsSimulation config (suc n) (leave config c s)
unfolding leave
leave-IsSimulation config n c s e h = record {
  spent = λ x. ground (arith, x);
  flat = λ _. refl;
  few = omega (
    arith,
    length-append s.trades (closing config c s ∷ []),
    subst (λ b. 2 * length s.trades + open_count b ≤ n) e h.few,
  );
  all_closed = AllClosed-append s.trades h.all_closed (closing-IsClosed config c s);
}

-- The next candle leaves the simulation as it is.
stay :
    {config : BacktestConfig} {n : ℕ} {s : Simulation}
    → IsSimulation config n s
    → IsSimulation config (suc n) s
stay h = record {
  spent = h.spent;
  flat = h.flat;
  few = omega (arith, h.few);
  all_closed = h.all_closed;
}

trade-IsSimulation :
    (config : BacktestConfig) (n : ℕ) (c : Candle) (d : SignalDirection) (s : Simulation)
    → IsSimulation config n s
    → Returns (IsSimulation config (suc n)) (trade config c d s)
unfolding trade
trade-IsSimulation config n c hold s h = stay h
trade-IsSimulation config n c buy s h = elim (Bool-cases s.holds) [
  | inl e ↦
      subst (λ b. Returns (IsSimulation config (suc n)) (if b then ok s else enter c s)) (sym e)
        (stay h)
  | inr e ↦
      subst (λ b. Returns (IsSimulation config (suc n)) (if b then ok s else enter c s)) (sym e)
        (enter-IsSimulation config n c s e h)
]
trade-IsSimulation config n c sell s h = elim (Bool-cases s.holds) [
  | inl e ↦
      subst (λ b. Returns (IsSimulation config (suc n)) (if b then ok (leave config c s) else ok s))
        (sym e) (leave-IsSimulation config n c s e h)
  | inr e ↦
      subst (λ b. Returns (IsSimulation config (suc n)) (if b then ok (leave config c s) else ok s))
        (sym e) (stay h)
]

appraise-IsSimulation :
    (config : BacktestConfig) (n : ℕ) (c : Candle) (s : Simulation)
    → IsSimulation config n s
    → Returns (IsSimulation config n) (appraise c s)
unfolding appraise
appraise-IsSimulation config n c s h = by_peak (lt zero_dec peak) (div (sub peak (mark c s)) peak)
  where
    peak : Decimal
    peak = max_dec s.peak (mark c s)

    kept : (m : Decimal) → IsSimulation config n (record s { peak = peak; max_dd = m })
    kept m = record { spent = h.spent; flat = h.flat; few = h.few; all_closed = h.all_closed }

    by_peak :
        (b : Bool) (q : Option Decimal)
        → Returns (IsSimulation config n) (
            if b
            then elim q [
              | none ↦ raise division_by_zero
              | some part ↦ ok (record s {
                peak = peak;
                max_dd = max_dec s.max_dd (mul part (of_int (pos 100)));
              })
            ]
            else ok (record s { peak = peak }))
    by_peak false q = kept s.max_dd
    by_peak true none = tt
    by_peak true (some q) = kept _

pub begin-IsSimulation :
    (config : BacktestConfig) (c : Candle) → IsSimulation config 0 (begin config c)
unfolding begin
begin-IsSimulation config c = record {
  spent = λ x. ground (arith, x);
  flat = λ _. refl;
  few = ground arith;
  all_closed = none_yet;
}

-- The index after the candles that are left.
abbrev pub advance : ℕ → List Candle → ℕ
advance n [] = n
advance n (c ∷ cs) = advance (suc n) cs

pub advance-length : (n : ℕ) (cs : List Candle) → advance n cs ≡ n + length cs
advance-length n [] = omega arith
advance-length n (c ∷ cs) = omega (arith, advance-length (suc n) cs)

module _ {F : Type 0} (p : Ports F) (config : BacktestConfig) (candles : List Candle)
    (feats : List F) where
  step-IsSimulation :
      (n i : ℕ) (c : Candle) (s : Simulation)
      → IsSimulation config n s
      → Returns (IsSimulation config (suc n)) (step p config candles feats i c s)
  unfolding step
  step-IsSimulation n i c s h =
      bind-Returns (λ _. Unit {0}) (IsSimulation config (suc n))
        (direction p config (take (suc i) candles) (take (suc i) feats)) _ (anything _)
        (λ d _.
          bind-Returns (IsSimulation config (suc n)) (IsSimulation config (suc n))
            (trade config c d s) _ (trade-IsSimulation config n c d s h)
            (λ s' h'. appraise-IsSimulation config (suc n) c s' h'))
    where
      anything : (r : Except Escape SignalDirection) → Returns (λ _. Unit {0}) r
      anything (ok _) = tt
      anything (raise _) = tt

  pub loop-IsSimulation :
      (n i : ℕ) (rest : List Candle) (s : Simulation)
      → IsSimulation config n s
      → Returns (IsSimulation config (advance n rest)) (loop p config candles feats i rest s)
  unfolding loop
  loop-IsSimulation n i [] s h = h
  loop-IsSimulation n i (c ∷ rest) s h =
      bind-Returns (IsSimulation config (suc n)) (IsSimulation config (advance (suc n) rest))
        (step p config candles feats i c s) _ (step-IsSimulation n i c s h)
        (λ s' h'. loop-IsSimulation (suc n) (suc i) rest s' h')
