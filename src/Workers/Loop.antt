-- ===== src/Workers/Loop.antt =====
-- app/workers/runner.py: `ImproveUntilPlateau`.
--
-- A metric is a float: a type with its comparison and its zero. The step of a round is a function
-- of the world that it runs in. Whether the stop signal has come is asked before every round, and
-- answered by the number of rounds so far; the waiting between two rounds is left out.
use self_learning_trading_ag.Base.{
  ℕ, zero, suc, Bool, true, false, ◌||◌, Option, none, some, Except, ok, raise,
}
use self_learning_trading_ag.Int.{ℤ, pos, leb_ℤ}

pub record Metric : Type 1 where
  pub Float : Type 0
  pub gt : Float → Float → Bool
  pub zero_float : Float

pub record Knobs : Type 0 where
  pub max_stale_rounds : ℤ
  pub max_rounds : Option ℤ

module _ (m : Metric) (W : Type 0) where
  -- The fields of the loop, and the world.
  pub record LoopState : Type 0 where
    pub best : Option m.Float
    pub stale_rounds : ℕ
    pub round_n : ℕ
    pub world : W

  -- `__init__`
  abbrev pub start : W → LoopState
  start w = record { best = none; stale_rounds = 0; round_n = 0; world = w }

  -- A failed round counts as one with the best metric so far.
  unfoldable pub round_metric : Except (Unit {0}) m.Float → Option m.Float → m.Float
  round_metric (ok metric) best = metric
  round_metric (raise _) (some best) = best
  round_metric (raise _) none = m.zero_float

  -- `previous is None or metric > previous`
  unfoldable pub improves : m.Float → Option m.Float → Bool
  improves metric none = true
  improves metric (some previous) = m.gt metric previous

  -- `_record`
  unfoldable pub record_metric : m.Float → LoopState → LoopState
  record_metric metric s = elim (improves metric s.best) [
    | true ↦ record s { best = some metric; stale_rounds = 0 }
    | false ↦ record s { stale_rounds = suc s.stale_rounds }
  ]

  -- `_max_rounds_reached`
  unfoldable pub max_rounds_reached : Option ℤ → ℕ → Bool
  max_rounds_reached none n = false
  max_rounds_reached (some limit) n = leb_ℤ limit (pos n)

  module _ (config : Knobs) (step : W → Except (Unit {0}) m.Float × W) where
    -- `_run_round` and `_record`
    unfoldable pub play : LoopState → LoopState
    play s =
        let (r, w) = step s.world in
        record_metric (round_metric r s.best) (record s { round_n = suc s.round_n; world = w })

    -- `run_forever`; `none` is out of fuel.
    unfoldable pub run_forever : (stopped : ℕ → Bool) (fuel : ℕ) → LoopState → Option LoopState
    run_forever stopped zero s = none
    run_forever stopped (suc fuel) s =
        elim (stopped s.round_n || max_rounds_reached config.max_rounds s.round_n) [
          | true ↦ some s
          | false ↦ elim (leb_ℤ config.max_stale_rounds (pos (play s).stale_rounds)) [
            | true ↦ some (play s)
            | false ↦ run_forever stopped fuel (play s)
          ]
        ]
