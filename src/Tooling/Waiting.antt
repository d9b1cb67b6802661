-- ===== src/Tooling/Waiting.antt =====
-- app/infrastructure/tooling/policy.py: the rate limiter, and the sleeps of the retries. A time is
-- a number of ticks of the clock, exact where the source has floats; one call of the limiter ends
-- before the next one starts.
use self_learning_trading_ag.Base.{
  ℕ, ◌+◌, ◌-◌, ◌*◌, ◌^◌, ◌≤◌, inl, inr, Bool, true, false, Option, none, some, List, [], ◌∷◌, arith,
  leb, ltb, Bool-cases, if◌then◌else◌,
}

-- `asyncio.sleep`: the time after a sleep, which is as long as asked for at least.
pub record Sleeping : Type 0 where
  pub wake : (duration now : ℕ) → ℕ
  pub wake-least : (duration now : ℕ) → now + duration ≤ wake duration now

-- `RateLimiter`: `1.0 / per_second`, unless the rate is not positive, and `_last`.
pub record RateLimiter : Type 0 where
  pub gap : Option ℕ
  pub last : ℕ

module _ (z : Sleeping) where
  -- `acquire`: the limiter and the time after it.
  unfoldable pub acquire : RateLimiter → ℕ → RateLimiter × ℕ
  acquire l now = elim l.gap [
    | none ↦ (l, now)
    | some gap ↦ elim (ltb now (l.last + gap)) [
      | true ↦ let now' = z.wake (l.last + gap - now) now in (record l { last = now' }, now')
      | false ↦ (record l { last = now }, now)
    ]
  ]

  -- The times at which calls start, where each is followed by a pause before the next one.
  unfoldable pub call_times : List ℕ → RateLimiter → ℕ → List ℕ
  call_times [] l now = []
  call_times (pause ∷ pauses) l now =
      let (l', now') = acquire l now in now' ∷ call_times pauses l' (now' + pause)

  -- Times of which the first comes a gap after a time at least, and each a gap after the one
  -- before it.
  pub data Spaced (gap : ℕ) : ℕ → List ℕ → Type 0 where
    no_call : {t : ℕ} → Spaced gap t []
    call : {t u : ℕ} {us : List ℕ} → t + gap ≤ u → Spaced gap u us → Spaced gap t (u ∷ us)

  -- Under a positive rate every call starts a gap after the one before it at least, the first a
  -- gap after the last call so far, whatever the pauses between the calls are.
  pub call_times-Spaced :
      (gap last now : ℕ) (pauses : List ℕ)
      → Spaced gap last (call_times pauses (record { gap = some gap; last = last }) now)
  unfolding call_times acquire
  call_times-Spaced gap last now [] = no_call
  call_times-Spaced gap last now (pause ∷ pauses) = elim (Bool-cases (ltb now (last + gap))) [
    | inl early ↦
        let now' = z.wake (last + gap - now) now in
        rw (early, call_times, acquire)
          (call (ground (arith, early, z.wake-least (last + gap - now) now))
            (call_times-Spaced gap now' (now' + pause) pauses))
    | inr late ↦
        rw (late, call_times, acquire)
          (call (ground (arith, late)) (call_times-Spaced gap now (now + pause) pauses))
  ]

-- `min(self.backoff_base_sec * (2 ** (attempt - 1)), self.max_backoff_sec)`
unfoldable pub backoff : (base most attempt : ℕ) → ℕ
backoff base most attempt =
    let asked = base * 2 ^ (attempt - 1) in if leb asked most then asked else most

-- `_sleep`: `scaled` is the multiplication with `0.5 + random.random()`.
unfoldable pub sleep_time : (scaled : ℕ → ℕ) (jitter : Bool) → (base most attempt : ℕ) → ℕ
sleep_time scaled jitter base most attempt =
    if jitter then scaled (backoff base most attempt) else backoff base most attempt
