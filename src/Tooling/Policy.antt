-- ===== src/Tooling/Policy.antt =====
-- app/infrastructure/tooling/policy.py: retry, circuit breaker, and their composition round one
-- call of a provider.
--
-- A call is a function of the state of what it calls. The wait between two attempts, the rate
-- limiter and `asyncio.wait_for` are functions on that state and on calls: they depend on the
-- clock. A cancelled task is not modelled.
pub mod Laws
pub mod Breaking
use self_learning_trading_ag.Base.{
  ℕ, zero, suc, ◌+◌, Bool, true, false, not, ◌||◌, Option, none, some, Except, ok, raise, text,
  if◌then◌else◌,
}
use self_learning_trading_ag.Int.{ℤ, pos, leb_ℤ}
use self_learning_trading_ag.Core.Errors.{DomainError, provider_unavailable, retryable}

-- What a call raises: an error of the taxonomy, or any other exception.
pub data Failure : Type 0 where
  domain : DomainError → Failure
  other : Failure

abbrev pub Call : Type 0 → Type 0 → Type 0
Call S T = S → Except Failure T × S

-- `ProviderUnavailableError("unexpected provider failure", ...)`
abbrev pub unexpected : DomainError
unexpected = record {
  class = provider_unavailable;
  message = text "unexpected provider failure";
  provider = none;
}

-- `ProviderUnavailableError("circuit_open", provider="tooling")`
abbrev pub circuit_open : DomainError
circuit_open = record {
  class = provider_unavailable;
  message = text "circuit_open";
  provider = some (text "tooling");
}

module _ {T : Type 0} where
  -- The end of `RetryPolicy.run`: what the last attempt gives, any other exception wrapped.
  unfoldable pub settle : Except Failure T → Except DomainError T
  settle (ok t) = ok t
  settle (raise (domain e)) = raise e
  settle (raise other) = raise unexpected

  -- Whether the loop tries again after the attempt of this number.
  unfoldable pub tries_again : ℤ → ℕ → Except Failure T → Bool
  tries_again retries attempts (ok t) = false
  tries_again retries attempts (raise (domain e)) =
      not (not (retryable e.class) || leb_ℤ retries (pos attempts))
  tries_again retries attempts (raise other) = false

module _ {S T : Type 0} where
  -- The loop of `RetryPolicy.run` after the given number of attempts; `none` is out of fuel.
  unfoldable pub retry_from :
      ℤ → (ℕ → S → S) → Call S T → (fuel attempts : ℕ) → S → Option (Except DomainError T × S)
  retry_from retries sleep fn zero attempts s = none
  retry_from retries sleep fn (suc fuel) attempts s =
      let (r, s') = fn s in
      elim (tries_again retries (suc attempts) r) [
        | true ↦ retry_from retries sleep fn fuel (suc attempts) (sleep (suc attempts) s')
        | false ↦ some (settle r, s')
      ]

-- The attempts that the loop can make: `retries`, and one in any case.
abbrev pub most : ℤ → ℕ
most (pos (suc n)) = suc n
most _ = 1

-- `RetryPolicy.run`
unfoldable pub retry_run :
    {S T : Type 0} → ℤ → (ℕ → S → S) → Call S T → S → Option (Except DomainError T × S)
retry_run retries sleep fn s = retry_from retries sleep fn (most retries) 0 s

pub record Breaker : Type 0 where
  pub failure_threshold : ℤ
  pub failures : ℕ
  pub is_open : Bool

-- What the breaker notes of a call: only an error of the taxonomy counts as a failure.
unfoldable pub note : {T : Type 0} → Except Failure T → Breaker → Breaker
note (ok t) b = record b { failures = 0 }
note (raise (domain e)) b = record b {
  failures = suc b.failures;
  is_open = if leb_ℤ b.failure_threshold (pos (suc b.failures)) then true else b.is_open;
}
note (raise other) b = b

module _ {S T : Type 0} where
  -- `CircuitBreaker.run`
  unfoldable pub breaker_run : Call S T → Call (Breaker × S) T
  breaker_run fn (b, s) =
      if b.is_open
      then (raise (domain circuit_open), (b, s))
      else let (r, s') = fn s in (r, (note r b, s'))

-- `CircuitBreaker.reset`
unfoldable pub reset : Breaker → Breaker
reset b = record b { is_open = false; failures = 0 }

-- `Policy`, where `timed` is `asyncio.wait_for` with the policy's timeout if it has one, and
-- `acquire` is the limiter's; `sleep` belongs to the retries. Without a breaker the state's is idle.
pub record Policy (S T : Type 0) : Type 0 where
  pub retry : Option ℤ
  pub has_breaker : Bool
  pub limiter : Option (S → S)
  pub timeout : Option (Call S T → Call S T)
  pub sleep : ℕ → S → S

module _ {S T : Type 0} (p : Policy S T) (fn : Call S T) where
  -- `_guarded`
  unfoldable pub guarded : Call S T
  guarded = elim p.timeout [ none ↦ fn | some timed ↦ timed fn ]

  -- `_limited`
  unfoldable pub limited : Call S T
  limited s = elim p.limiter [ none ↦ guarded s | some acquire ↦ guarded (acquire s) ]

  -- `_core`
  unfoldable pub core : Call (Breaker × S) T
  core (b, s) =
      if p.has_breaker then breaker_run limited (b, s) else let (r, s') = limited s in (r, (b, s'))

  -- `Policy.run`; without a retry policy what the core raises is passed on as it is.
  unfoldable pub run : Breaker × S → Option (Except Failure T × (Breaker × S))
  run (b, s) = elim p.retry [
    | none ↦ some (core (b, s))
    | some retries ↦ elim (retry_run retries (λ n (b', s'). (b', p.sleep n s')) core (b, s)) [
      | none ↦ none
      | some (ok t, w) ↦ some (ok t, w)
      | some (raise e, w) ↦ some (raise (domain e), w)
    ]
  ]
