-- ===== src/MarketData/Vendors/Binance/Sorting.antt =====
-- The order of the candles of a fetch.
use self_learning_trading_ag.Base.{
  ℕ, suc, ◌≤◌, ◌≡◌, refl, ◌∙◌, ap, inl, inr, Bool, true, false, ◌||◌, ◌==◌, List, [], ◌∷◌, arith,
  leb, Bool-cases,
}
use self_learning_trading_ag.MarketData.Entities.{Candle}
use self_learning_trading_ag.MarketData.Vendors.{to_timestamp}
use self_learning_trading_ag.MarketData.Vendors.Binance.Adapter.{
  insert_candle, sorted_candles, second, in_seconds, unique_from, sort_unique,
}

-- A predicate of every candle.
abbrev pub All : (Candle → Type 0) → List Candle → Type 0
All P [] = Unit {0}
All P (c ∷ cs) = P c × All P cs

-- Whether a candle opens within a second.
abbrev pub has_second : ℕ → List Candle → Bool
has_second n [] = false
has_second n (c ∷ cs) = (second c == n) || has_second n cs

-- Candles that open one after the other, no two in one second, and none before the n-th second.
pub data RisingFrom : ℕ → List Candle → Type 0 where
  no_more : {n : ℕ} → RisingFrom n []
  next :
      {n : ℕ} {c : Candle} {cs : List Candle}
      → n ≤ second c
      → RisingFrom (suc (second c)) cs
      → RisingFrom n (c ∷ cs)

-- Candles in the order of their times.
data InOrder : ℕ → List Candle → Type 0 where
  empty : {t : ℕ} → InOrder t []
  then_one :
      {t : ℕ} {c : Candle} {cs : List Candle}
      → t ≤ c.opened_at
      → InOrder c.opened_at cs
      → InOrder t (c ∷ cs)

insert_candle-InOrder :
    (c : Candle) {t : ℕ} {cs : List Candle}
    → t ≤ c.opened_at
    → InOrder t cs
    → InOrder t (insert_candle c cs)
unfolding insert_candle
insert_candle-InOrder c h empty = then_one h empty
insert_candle-InOrder c h (then_one {c = d} {cs = ds} k r) =
    elim (Bool-cases (leb c.opened_at d.opened_at)) [
      | inl e ↦ rw (e, insert_candle) (then_one h (then_one (ground (arith, e)) r))
      | inr e ↦ rw (e, insert_candle) (then_one k (insert_candle-InOrder c (ground (arith, e)) r))
    ]

sorted_candles-InOrder : (cs : List Candle) → InOrder 0 (sorted_candles cs)
unfolding sorted_candles
sorted_candles-InOrder [] = empty
sorted_candles-InOrder (c ∷ cs) = insert_candle-InOrder c (omega arith) (sorted_candles-InOrder cs)

later_second : (a b : ℕ) → a ≤ b → to_timestamp a ≤ to_timestamp b
later_second a b h = omega (arith, h)

InOrder_earlier : {t u : ℕ} {cs : List Candle} → t ≤ u → InOrder u cs → InOrder t cs
InOrder_earlier h empty = empty
InOrder_earlier h (then_one k r) = then_one (omega (arith, h, k)) r

not_first : (n x : ℕ) (xs : List ℕ) → in_seconds n (x ∷ xs) ≡ false → (x == n) ≡ false
unfolding in_seconds
not_first n x xs e = ground (arith, e)

-- After a candle that is kept, each kept one is in a later second.
unique_from-RisingFrom :
    (t : ℕ) (seen : List ℕ) (cs : List Candle)
    → InOrder t cs
    → RisingFrom (suc (to_timestamp t)) (unique_from (to_timestamp t ∷ seen) cs)
unfolding unique_from
unique_from-RisingFrom t seen [] empty = no_more
unique_from-RisingFrom t seen (c ∷ cs) (then_one h r) =
    elim (Bool-cases (in_seconds (second c) (to_timestamp t ∷ seen))) [
      | inl e ↦ rw (e, unique_from) (unique_from-RisingFrom t seen cs (InOrder_earlier h r))
      | inr e ↦
          rw (e, unique_from)
            (next (apart e) (unique_from-RisingFrom c.opened_at (to_timestamp t ∷ seen) cs r))
    ]
  where
    apart : in_seconds (second c) (to_timestamp t ∷ seen) ≡ false → suc (to_timestamp t) ≤ second c
    apart e = ground (arith, not_first _ _ seen e, later_second t c.opened_at h)

sort_unique-RisingFrom : (cs : List Candle) → InOrder 0 cs → RisingFrom 0 (unique_from [] cs)
unfolding unique_from in_seconds
sort_unique-RisingFrom [] empty = no_more
sort_unique-RisingFrom (c ∷ cs) (then_one h r) =
    next (omega arith) (unique_from-RisingFrom c.opened_at [] cs r)

module _ (P : Candle → Type 0) where
  insert_candle-All : (c : Candle) (cs : List Candle) → P c → All P cs → All P (insert_candle c cs)
  unfolding insert_candle
  insert_candle-All c [] p h = (p, tt)
  insert_candle-All c (d ∷ ds) p (q, h) = elim (Bool-cases (leb c.opened_at d.opened_at)) [
    | inl e ↦ rw (e, insert_candle) (p, (q, h))
    | inr e ↦ rw (e, insert_candle) (q, insert_candle-All c ds p h)
  ]

  sorted_candles-All : (cs : List Candle) → All P cs → All P (sorted_candles cs)
  unfolding sorted_candles
  sorted_candles-All [] h = tt
  sorted_candles-All (c ∷ cs) (p, h) =
      insert_candle-All c (sorted_candles cs) p (sorted_candles-All cs h)

  unique_from-All : (seen : List ℕ) (cs : List Candle) → All P cs → All P (unique_from seen cs)
  unfolding unique_from
  unique_from-All seen [] h = tt
  unique_from-All seen (c ∷ cs) (p, h) = elim (Bool-cases (in_seconds (second c) seen)) [
    | inl e ↦ rw (e, unique_from) (unique_from-All seen cs h)
    | inr e ↦ rw (e, unique_from) (p, unique_from-All (second c ∷ seen) cs h)
  ]

has_second-insert_candle :
    (n : ℕ) (c : Candle) (cs : List Candle)
    → has_second n (insert_candle c cs) ≡ ((second c == n) || has_second n cs)
unfolding insert_candle
has_second-insert_candle n c [] = refl
has_second-insert_candle n c (d ∷ ds) = ground (arith, has_second-insert_candle n c ds)

has_second-sorted_candles :
    (n : ℕ) (cs : List Candle) → has_second n (sorted_candles cs) ≡ has_second n cs
unfolding sorted_candles
has_second-sorted_candles n [] = refl
has_second-sorted_candles n (c ∷ cs) =
    has_second-insert_candle n c (sorted_candles cs)
    ∙ ap (λ b. (second c == n) || b) (has_second-sorted_candles n cs)

same_second :
    (a n : ℕ) (seen : List ℕ)
    → in_seconds a seen ≡ true
    → (a == n) ≡ true
    → in_seconds n seen ≡ true
unfolding in_seconds
same_second a n [] h e = h
same_second a n (x ∷ xs) h e = ground (arith, same_second a n xs)

has_second-unique_from :
    (n : ℕ) (seen : List ℕ) (cs : List Candle)
    → (in_seconds n seen || has_second n (unique_from seen cs))
      ≡ (in_seconds n seen || has_second n cs)
unfolding unique_from in_seconds
has_second-unique_from n seen [] = refl
has_second-unique_from n seen (c ∷ cs) = ground (
  arith,
  has_second-unique_from n seen cs,
  has_second-unique_from n (second c ∷ seen) cs,
  same_second (second c) n seen,
)

-- What a fetch sorts opens one after the other, with no two candles in one second; every candle of
-- it is one of those that were fetched, so that what holds of these holds of it; and it has a
-- candle in every second in which one was fetched.
pub sort_unique-Rising :
    (P : Candle → Type 0) (cs : List Candle)
    → All P cs
    → RisingFrom 0 (sort_unique cs)
      × All P (sort_unique cs)
      × ((n : ℕ) → has_second n (sort_unique cs) ≡ has_second n cs)
unfolding sort_unique in_seconds
sort_unique-Rising P cs h = (
  sort_unique-RisingFrom (sorted_candles cs) (sorted_candles-InOrder cs),
  unique_from-All P [] (sorted_candles cs) (sorted_candles-All P cs h),
  λ n. has_second-unique_from n [] (sorted_candles cs) ∙ has_second-sorted_candles n cs,
)
