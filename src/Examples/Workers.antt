-- ===== src/Examples/Workers.antt =====
-- Tests and witnesses of the improvement loop.
use self_learning_trading_ag.Base.{
  ℕ, suc, ◌*◌, ◌≤◌, ◌≡◌, refl, false, none, some, Except, ok, raise, leb, ltb, arith, if◌then◌else◌,
}
use self_learning_trading_ag.Int.{pos}
use self_learning_trading_ag.Workers.Loop.{
  Metric, Knobs, LoopState, start, round_metric, improves, record_metric, max_rounds_reached, play,
  run_forever,
}
use self_learning_trading_ag.Workers.Plateau.{Ranks, Done, run_forever-ends}

abbrev capped : ℕ → ℕ
capped n = if leb n 100 then n else 100

-- Rates in percent.
abbrev percent : Metric
percent = record { Float = ℕ; gt = λ a b. ltb (capped b) (capped a); zero_float = 0 }

abbrev ranks : Ranks percent
ranks = record {
  rank = capped;
  top = 100;
  rank-gt = λ a b h. ground (arith, h);
  rank-top = λ a. ground arith;
}

abbrev knobs : Knobs
knobs = record { max_stale_rounds = pos 3; max_rounds = none }

-- A step that measures the number of rounds, up to 40, and fails in the sixth round.
abbrev rising : ℕ → Except (Unit {0}) ℕ × ℕ
rising n = (if leb n 4 then ok (10 * n) else if leb n 5 then raise tt else ok 40, suc n)

-- Five rounds improve, and the next three are stale.
plateau_found :
    run_forever percent ℕ knobs rising (λ n. false) 20 (start percent ℕ 0)
    ≡ some (record { best = some 40; stale_rounds = 3; round_n = 8; world = 8 })
unfolding run_forever play round_metric record_metric improves max_rounds_reached
plateau_found = refl

run_forever-ends_example :
    (s : LoopState percent ℕ) × (run_forever percent ℕ knobs rising
        (λ n. false)
        307
        (start percent ℕ 0)
      ≡ some s)
    × (s.round_n ≤ 306)
    × Done percent ranks ℕ knobs rising (λ n. false) s
run_forever-ends_example = run_forever-ends percent ranks ℕ knobs rising (λ n. false) 0
