-- ===== src/Examples/Waiting.antt =====
-- Tests and witnesses of the rate limiter and of the sleeps.
use self_learning_trading_ag.Base.{◌+◌, ◌≡◌, refl, some, [], ◌∷◌, arith}
use self_learning_trading_ag.Tooling.Waiting.{
  Sleeping, acquire, call_times, Spaced, call_times-Spaced, backoff,
}

-- A sleep that is one tick too long.
abbrev drowsy : Sleeping
drowsy = record {
  wake = λ duration now. now + duration + 1;
  wake-least = λ duration now. omega arith;
}

-- Two calls at once, and one after a pause of 500.
burst :
    call_times drowsy (0 ∷ (500 ∷ (0 ∷ []))) (record { gap = some 200; last = 0 }) 1000
    ≡ 1000 ∷ (1201 ∷ (1701 ∷ []))
unfolding call_times acquire
burst = refl

call_times-Spaced_example :
    Spaced drowsy 200 0
      (call_times drowsy (0 ∷ (500 ∷ (0 ∷ []))) (record { gap = some 200; last = 0 }) 1000)
call_times-Spaced_example = call_times-Spaced drowsy 200 0 1000 (0 ∷ (500 ∷ (0 ∷ [])))

backoff_test : backoff 300 8000 6 ≡ 8000
unfolding backoff
backoff_test = refl
