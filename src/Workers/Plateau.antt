-- ===== src/Workers/Plateau.antt =====
-- The loop ends.
use self_learning_trading_ag.Base.{
  ℕ, zero, suc, ◌+◌, ◌-◌, ◌*◌, ◌≤◌, ◌<◌, ◌≡◌, refl, subst, ◌⊎◌, inl, inr, Bool, true, false, ◌||◌,
  Option, none, some, Except, arith, Bool-cases,
}
use self_learning_trading_ag.Int.{ℤ, pos, negsuc, leb_ℤ}
use self_learning_trading_ag.Workers.Loop.{
  Metric, Knobs, LoopState, start, round_metric, improves, record_metric, max_rounds_reached, play,
  run_forever,
}

-- A bound on how often a metric can improve, as there is for the floats of an interval: a rank
-- that a greater metric has a greater one of.
pub record Ranks (m : Metric) : Type 0 where
  pub rank : m.Float → ℕ
  pub top : ℕ
  pub rank-gt : (a b : m.Float) → m.gt a b ≡ true → rank b < rank a
  pub rank-top : (a : m.Float) → rank a ≤ top

-- The rounds without an improvement after which the loop ends: one at least.
abbrev pub patience : ℤ → ℕ
patience (pos (suc n)) = suc n
patience _ = 1

module _ (m : Metric) (k : Ranks m) (W : Type 0) where
  -- How many improvements may still come.
  abbrev left : Option m.Float → ℕ
  left none = suc k.top
  left (some best) = k.top - k.rank best

  improves-left :
      (metric : m.Float) (best : Option m.Float)
      → improves m W metric best ≡ true
      → left (some metric) < left best
  unfolding improves
  improves-left metric none h = omega (arith, k.rank-top metric)
  improves-left metric (some best) h =
      omega (arith, k.rank-gt metric best h, k.rank-top metric, k.rank-top best)

  module _ (config : Knobs) (step : W → Except (Unit {0}) m.Float × W) where
    abbrev limit : ℕ
    limit = patience config.max_stale_rounds

    -- What is left of the rounds that r improvements allow.
    abbrev budget : ℕ → ℕ
    budget zero = 0
    budget (suc r) = limit + budget r

    budget_mono : (a b : ℕ) → a ≤ b → budget a ≤ budget b
    budget_mono zero b h = omega arith
    budget_mono (suc a) zero h = ground arith
    budget_mono (suc a) (suc b) h = omega (arith, budget_mono a b (omega (arith, h)))

    budget-mul : (r : ℕ) → budget r ≡ r * limit
    budget-mul zero = ground arith
    budget-mul (suc r) = grind (arith, budget-mul r)

    -- Another round is played only while the stale rounds are fewer than the limit.
    patient : (n : ℕ) → leb_ℤ config.max_stale_rounds (pos n) ≡ false → n < limit
    patient n h = by_limit config.max_stale_rounds h
      where
        by_limit : (z : ℤ) → leb_ℤ z (pos n) ≡ false → n < patience z
        by_limit (pos zero) e = ground arith
        by_limit (pos (suc l)) e = ground arith
        by_limit (negsuc l) e = ground arith

    -- The rounds that may still come in a state.
    abbrev ahead : LoopState m W → ℕ
    ahead s = budget (left s.best) + (limit - s.stale_rounds)

    record_metric-ahead :
        (metric : m.Float) (s : LoopState m W)
        → s.stale_rounds < limit
        → ahead (record_metric m W metric s) < ahead s
    unfolding record_metric
    record_metric-ahead metric s h = elim (Bool-cases (improves m W metric s.best)) [
      | inl e ↦
          rw (e, record_metric)
            (omega (
              arith,
              h,
              budget_mono (suc (left (some metric))) (left s.best) (improves-left metric s.best e),
            ))
      | inr e ↦ rw (e, record_metric) (omega (arith, h))
    ]

    -- Every round leaves fewer rounds to come, and counts itself.
    play-ahead :
        (s : LoopState m W) → s.stale_rounds < limit → ahead (play m W config step s) < ahead s
    unfolding play
    play-ahead s h = record_metric-ahead _ (record s { round_n = suc s.round_n; world = _ }) h

    play-round_n : (s : LoopState m W) → (play m W config step s).round_n ≡ suc s.round_n
    unfolding play record_metric
    play-round_n s =
        elim (Bool-cases (improves m W (round_metric m W (step s.world).0 s.best) s.best)) [
          | inl e ↦ rw (e, play, record_metric) refl
          | inr e ↦ rw (e, play, record_metric) refl
        ]

    -- Why the loop ends in a state.
    abbrev pub Done : (ℕ → Bool) → LoopState m W → Type 0
    Done stopped s =
        (stopped s.round_n ≡ true)
        ⊎ (max_rounds_reached m W config.max_rounds s.round_n ≡ true)
        ⊎ (leb_ℤ config.max_stale_rounds (pos s.stale_rounds) ≡ true)

    abbrev pub Ends : (ℕ → Bool) → (fuel rounds : ℕ) → LoopState m W → Type 0
    Ends stopped fuel rounds s =
        (s' : LoopState m W) × (run_forever m W config step stopped fuel s ≡ some s')
        × (s'.round_n ≤ s.round_n + rounds)
        × Done stopped s'

    run_forever-Ends :
        (stopped : ℕ → Bool) (fuel : ℕ) (s : LoopState m W)
        → s.stale_rounds < limit
        → ahead s < fuel
        → Ends stopped fuel (ahead s) s
    unfolding run_forever
    run_forever-Ends stopped zero s h few = ground arith
    run_forever-Ends stopped (suc fuel) s h few =
        elim (Bool-cases
          (stopped s.round_n || max_rounds_reached m W config.max_rounds s.round_n)) [
            | inl e ↦ (s, rw (e, run_forever) refl, omega arith, either e)
            | inr e ↦
                elim (Bool-cases
                  (leb_ℤ config.max_stale_rounds (pos (play m W config step s).stale_rounds))) [
                    | inl q ↦ (
                      play m W config step s,
                      rw (e, run_forever, q) refl,
                      omega (arith, play-round_n s, play-ahead s h),
                      inr (inr q),
                    )
                    | inr q ↦
                        let (s', run, few', why) =
                          run_forever-Ends stopped fuel (play m W config step s) (patient _ q)
                            (omega (arith, few, play-ahead s h)) in
                        (
                          s',
                          rw (e, run_forever, q) run,
                          omega (arith, few', play-round_n s, play-ahead s h),
                          why,
                        )
                  ]
          ]
      where
        either :
            (stopped s.round_n || max_rounds_reached m W config.max_rounds s.round_n) ≡ true
            → Done stopped s
        either e = elim (Bool-cases (stopped s.round_n)) [
          | inl a ↦ inl a
          | inr a ↦ inr (inl (ground (arith, a, e)))
        ]

    -- The loop always ends: whatever the rounds measure and whichever of them fail, after at most
    -- (top + 2) * patience rounds, where top bounds the rank of a metric, it has been stopped, or
    -- has played `max_rounds` rounds, or has played its last stale round.
    pub run_forever-ends :
        (stopped : ℕ → Bool) (w : W)
        → (s : LoopState m W) × (run_forever m W config step stopped
              (suc ((k.top + 2) * patience config.max_stale_rounds))
              (start m W w)
            ≡ some s)
          × (s.round_n ≤ (k.top + 2) * patience config.max_stale_rounds)
          × Done stopped s
    run_forever-ends stopped w =
        let (s, run, few, why) =
          run_forever-Ends stopped (suc (ahead (start m W w))) (start m W w)
            (positive config.max_stale_rounds) (omega arith) in
        (
          s,
          subst (λ n. run_forever m W config step stopped (suc n) (start m W w) ≡ some s) all run,
          subst (λ n. s.round_n ≤ n) all (omega (arith, few)),
          why,
        )
      where
        positive : (z : ℤ) → 0 < patience z
        positive (pos zero) = omega arith
        positive (pos (suc l)) = omega arith
        positive (negsuc l) = omega arith

        all : ahead (start m W w) ≡ (k.top + 2) * patience config.max_stale_rounds
        all = grind (arith, budget-mul (suc k.top))
