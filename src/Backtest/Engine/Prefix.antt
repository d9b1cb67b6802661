-- ===== src/Backtest/Engine/Prefix.antt =====
-- The simulation does not look ahead.
use self_learning_trading_ag.Base.{
  ℕ, zero, suc, ◌+◌, ◌≤◌, ◌≡◌, refl, ◌∙◌, ap, List, [], ◌∷◌, ◌++◌, arith, Except, ok, raise, ◌>>=◌,
  length,
}
use self_learning_trading_ag.MarketData.Entities.{Candle}
use self_learning_trading_ag.Backtest.Entities.{BacktestConfig, Ports}
use self_learning_trading_ag.Backtest.Engine.{Escape, take, Simulation, step, loop}

take-append : {A : Type 0} (n : ℕ) (xs ys : List A) → n ≤ length xs → take n (xs ++ ys) ≡ take n xs
unfolding take
take-append zero xs ys h = refl
take-append (suc n) [] ys h = ground arith
take-append (suc n) (x ∷ xs) ys h = ap (λ l. x ∷ l) (take-append n xs ys (omega (arith, h)))

take-take : {A : Type 0} (n m : ℕ) (xs : List A) → n ≤ m → take n (take m xs) ≡ take n xs
unfolding take
take-take zero m xs h = refl
take-take (suc n) zero xs h = ground arith
take-take (suc n) (suc m) [] h = refl
take-take (suc n) (suc m) (x ∷ xs) h = ap (λ l. x ∷ l) (take-take n m xs (omega (arith, h)))

bind-rest :
    {A B : Type 0} (r : Except Escape A) (f : A → Except Escape B) (g : A → Except Escape A)
    → (h : A → Except Escape B) → ((a : A) → f a ≡ (g a >>= h))
    → (r >>= f) ≡ ((r >>= g) >>= h)
bind-rest (ok a) f g h k = k a
bind-rest (raise e) f g h k = refl

bind-same :
    {A B : Type 0} {r r' : Except Escape A} (f g : A → Except Escape B)
    → r ≡ r'
    → ((a : A) → f a ≡ g a)
    → (r >>= f) ≡ (r' >>= g)
bind-same {r' = r'} f g e k = ap (λ z. z >>= f) e ∙ same r'
  where
    same : (z : Except Escape _) → (z >>= f) ≡ (z >>= g)
    same (ok a) = k a
    same (raise x) = refl

module _ {F : Type 0} (p : Ports F) (config : BacktestConfig) where
  -- The index after the given candles.
  abbrev pub after : ℕ → List Candle → ℕ
  after i [] = i
  after i (c ∷ cs) = after (suc i) cs

  loop-append :
      (candles : List Candle) (feats : List F) (i : ℕ) (xs ys : List Candle) (s : Simulation)
      → loop p config candles feats i (xs ++ ys) s ≡ (
          loop p config candles feats i xs s >>= λ s'.
          loop p config candles feats (after i xs) ys s')
  unfolding loop
  loop-append candles feats i [] ys s = refl
  loop-append candles feats i (c ∷ xs) ys s =
      bind-rest (step p config candles feats i c s) _ _ _
        (λ s'. loop-append candles feats (suc i) xs ys s')

  after-length : (i : ℕ) (xs : List Candle) → after i xs ≡ i + length xs
  after-length i [] = omega arith
  after-length i (c ∷ xs) = omega (arith, after-length (suc i) xs)

  step-prefix :
      (xs ys : List Candle) (feats : List F) (i : ℕ) (c : Candle) (s : Simulation)
      → suc i ≤ length xs
      → step p config (xs ++ ys) feats i c s ≡ step p config xs (take (length xs) feats) i c s
  unfolding step
  step-prefix xs ys feats i c s h =
      rw (take-append (suc i) xs ys h, take-take (suc i) (length xs) feats h) refl

  loop-prefix :
      (xs ys : List Candle) (feats : List F) (i : ℕ) (rest : List Candle) (s : Simulation)
      → i + length rest ≤ length xs
      → loop p config (xs ++ ys) feats i rest s ≡ loop p config xs (take (length xs) feats) i rest s
  unfolding loop step
  loop-prefix xs ys feats i [] s h = refl
  loop-prefix xs ys feats i (c ∷ rest) s h =
      bind-same _ _ (step-prefix xs ys feats i c s (omega (arith, h)))
        (λ s'. loop-prefix xs ys feats (suc i) rest s' (omega (arith, h)))

  -- The simulation never looks ahead: over a series of candles it first reaches the state, or the
  -- exception, that it reaches over the first part alone with the features of that part, whatever
  -- the later candles and features are; then it goes on from there.
  pub loop-causal :
      (xs ys : List Candle) (feats : List F) (s : Simulation)
      → loop p config (xs ++ ys) feats 0 (xs ++ ys) s ≡ (
          loop p config xs (take (length xs) feats) 0 xs s >>= λ s'.
          loop p config (xs ++ ys) feats (length xs) ys s')
  loop-causal xs ys feats s =
      loop-append (xs ++ ys) feats 0 xs ys s
      ∙ bind-same _ _ (loop-prefix xs ys feats 0 xs s (omega arith)) (λ s'.
        ap (λ n. loop p config (xs ++ ys) feats n ys s') (omega (arith, after-length 0 xs)))
