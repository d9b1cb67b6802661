-- ===== src/Tooling/Policy/Laws.antt =====
-- What the retries and the breaker guarantee, whatever the call does.
use self_learning_trading_ag.Base.{
  ℕ, zero, suc, ◌+◌, ◌≤◌, ◌≡◌, refl, ◌∙◌, ap, ◌⊎◌, inl, inr, true, false, some, arith, Except, ok,
  raise, Bool-cases,
}
use self_learning_trading_ag.Int.{ℤ, pos, negsuc, leb_ℤ}
use self_learning_trading_ag.Core.Errors.{DomainError, retryable}
use self_learning_trading_ag.Tooling.Policy.{
  Failure, domain, other, Call, settle, tries_again, retry_from, retry_run, most,
}

module _ {S T : Type 0} (sleep : ℕ → S → S) (fn : Call S T) where
  -- The attempts after a given number of attempts: how many more there are, what the last one
  -- gives, and the state it leaves. Each but the last fails with an error that may be retried, and
  -- the loop sleeps after it.
  pub data Tries : ℕ → S → ℕ → Except Failure T → S → Type 0 where
    last : {a : ℕ} {s s' : S} {r : Except Failure T} → fn s ≡ (r, s') → Tries a s 1 r s'
    again :
        {a n : ℕ} {s s1 s' : S} {e : DomainError} {r : Except Failure T}
        → fn s ≡ (raise (domain e), s1)
        → retryable e.class ≡ true
        → Tries (suc a) (sleep (suc a) s1) n r s'
        → Tries a s (suc n) r s'

  -- A result after which no attempt follows, whatever their number.
  pub data Final : Except Failure T → Type 0 where
    returned : (t : T) → Final (ok t)
    refused : (e : DomainError) → retryable e.class ≡ false → Final (raise (domain e))
    broken : Final (raise other)

  -- The outcome of the loop after a attempts with the given fuel.
  abbrev pub Retried : (retries : ℤ) (fuel a : ℕ) (s : S) → Type 0
  Retried retries fuel a s =
      (n : ℕ) × (r : Except Failure T) × (s' : S) × (retry_from retries sleep fn fuel a s
        ≡ some (settle r, s'))
      × Tries a s n r s'
      × (n ≤ fuel)
      × (Final r ⊎ (a + n ≡ most retries))

  -- Whether the attempt after a others is the last, with what is known of it either way.
  abbrev Stops : (retries : ℤ) (fuel a : ℕ) (r : Except Failure T) → Type 0
  Stops retries fuel a r =
      ((tries_again retries (suc a) r ≡ false) × (Final r ⊎ (suc a ≡ most retries)))
      ⊎ ((e : DomainError) × (r ≡ raise (domain e))
          × (retryable e.class ≡ true)
          × (tries_again retries (suc a) r ≡ true)
          × (1 ≤ fuel))

  bounded :
      (retries : ℤ) (fuel a : ℕ)
      → suc fuel + a ≡ most retries
      → (leb_ℤ retries (pos (suc a)) ≡ true) × (suc a ≡ most retries)
        ⊎ (leb_ℤ retries (pos (suc a)) ≡ false) × (1 ≤ fuel)
  bounded (pos zero) fuel a h = inl (ground arith, ground arith)
  bounded (pos (suc n)) fuel a h = ground arith
  bounded (negsuc n) fuel a h = inl (ground arith, ground arith)

  stops :
      (retries : ℤ) (fuel a : ℕ) (r : Except Failure T)
      → suc fuel + a ≡ most retries
      → Stops retries fuel a r
  unfolding tries_again
  stops retries fuel a (ok t) h = inl (refl, inl (returned t))
  stops retries fuel a (raise other) h = inl (refl, inl broken)
  stops retries fuel a (raise (domain e)) h = elim (Bool-cases (retryable e.class)) [
    | inl may ↦ elim (bounded retries fuel a h) [
      | inl (q, done) ↦ inl (rw (may, q) refl, inr done)
      | inr (q, more) ↦ inr (e, refl, may, rw (may, q) refl, more)
    ]
    | inr never ↦ inl (rw never refl, inl (refused e never))
  ]

  retry_from-last :
      (retries : ℤ) (fuel a : ℕ) (s : S)
      → tries_again retries (suc a) (fn s).0 ≡ false
      → retry_from retries sleep fn (suc fuel) a s ≡ some (settle (fn s).0, (fn s).1)
  unfolding retry_from
  retry_from-last retries fuel a s t = rw (t, retry_from) refl

  retry_from-again :
      (retries : ℤ) (fuel a : ℕ) (s : S)
      → tries_again retries (suc a) (fn s).0 ≡ true
      → retry_from retries sleep fn (suc fuel) a s
        ≡ retry_from retries sleep fn fuel (suc a) (sleep (suc a) (fn s).1)
  unfolding retry_from
  retry_from-again retries fuel a s t = rw (t, retry_from) refl

  -- One attempt, given what the attempts after it come to.
  attempt-Retried :
      (retries : ℤ) (fuel a : ℕ) (s : S)
      → Stops retries fuel a (fn s).0
      → (1 ≤ fuel → (s1 : S) → Retried retries fuel (suc a) s1)
      → Retried retries (suc fuel) a s
  attempt-Retried retries fuel a s (inl (t, inl f)) rest =
      (1, (fn s).0, (fn s).1, retry_from-last retries fuel a s t, last refl, ground arith, inl f)
  attempt-Retried retries fuel a s (inl (t, inr f)) rest = (
    1,
    (fn s).0,
    (fn s).1,
    retry_from-last retries fuel a s t,
    last refl,
    ground arith,
    inr (omega (arith, f)),
  )
  attempt-Retried retries fuel a s (inr (x, same, may, t, f)) rest =
      let (n, r1, s1, run, tries, few, end) = rest f (sleep (suc a) (fn s).1) in
      (
        suc n,
        r1,
        s1,
        retry_from-again retries fuel a s t ∙ run,
        again (ap (λ z. (z, (fn s).1)) same) may tries,
        ground arith,
        later n end,
      )
    where
      later :
          {r1 : Except Failure T} (n : ℕ)
          → Final r1 ⊎ (suc a + n ≡ most retries)
          → Final r1 ⊎ (a + suc n ≡ most retries)
      later n (inl f) = inl f
      later n (inr f) = inr (omega (arith, f))

  retry_from-Retried :
      (retries : ℤ) (fuel a : ℕ) (s : S)
      → suc fuel + a ≡ most retries
      → Retried retries (suc fuel) a s
  retry_from-Retried retries zero a s h =
      attempt-Retried retries zero a s (stops retries zero a (fn s).0 h) (λ x. ground arith)
  retry_from-Retried retries (suc fuel) a s h =
      attempt-Retried retries (suc fuel) a s (stops retries (suc fuel) a (fn s).0 h)
        (λ _ s1. retry_from-Retried retries fuel (suc a) s1 (omega (arith, h)))

  -- All attempts, counted from none.
  whole :
      (retries : ℤ) (fuel : ℕ) (s : S)
      → Retried retries fuel 0 s
      → (n : ℕ) × (r : Except Failure T) × (s' : S) × (retry_from retries sleep fn fuel 0 s
          ≡ some (settle r, s'))
        × Tries 0 s n r s'
        × (n ≤ fuel)
        × (Final r ⊎ (n ≡ most retries))
  whole retries fuel s (n, r, s', run, tries, few, inl f) = (n, r, s', run, tries, few, inl f)
  whole retries fuel s (n, r, s', run, tries, few, inr f) =
      (n, r, s', run, tries, few, inr (omega (arith, f)))

-- How the loop of the retries ends: after n attempts, with the outcome of the last of them.
abbrev pub EndsTrying : {S T : Type 0} → (retries : ℤ) → (ℕ → S → S) → Call S T → S → Type 0
EndsTrying {S} {T} retries sleep fn s =
    (n : ℕ) × (r : Except Failure T) × (s' : S) × (retry_run retries sleep fn s
      ≡ some (settle r, s'))
    × Tries sleep fn 0 s n r s'
    × (n ≤ most retries)
    × (Final sleep fn r ⊎ (n ≡ most retries))

-- The loop of the retries always ends. It makes at least one attempt and at most `retries` (one if
-- `retries` is below one); each attempt but the last failed with an error that may be retried and
-- is followed by a sleep; the last one returned, or failed with an error that may not be retried
-- or with another exception, or used up the attempts; and its outcome is the one that is given,
-- an exception that is no error of the taxonomy as an unavailable provider.
pub retry_run-Tries :
    {S T : Type 0} (retries : ℤ) (sleep : ℕ → S → S) (fn : Call S T) (s : S)
    → EndsTrying retries sleep fn s
unfolding retry_run
retry_run-Tries (pos zero) sleep fn s =
    whole sleep fn (pos zero) 1 s (retry_from-Retried sleep fn (pos zero) 0 0 s (ground arith))
retry_run-Tries (pos (suc k)) sleep fn s =
    whole sleep fn (pos (suc k)) (suc k) s
      (retry_from-Retried sleep fn (pos (suc k)) k 0 s (ground arith))
retry_run-Tries (negsuc k) sleep fn s =
    whole sleep fn (negsuc k) 1 s (retry_from-Retried sleep fn (negsuc k) 0 0 s (ground arith))
