-- ===== src/Tooling/Policy/Breaking.antt =====
-- What the circuit breaker guarantees.
use self_learning_trading_ag.Base.{
  ℕ, zero, suc, ◌+◌, ◌≤◌, ◌≡◌, refl, subst, if◌then◌else◌, ◌∙◌, ap, ◌⊎◌, inl, inr, Bool, true,
  false, Option, none, some, arith, Except, ok, raise,
}
use self_learning_trading_ag.Int.{ℤ, pos, negsuc, leb_ℤ, ◌<ℤ◌, ◌≤ℤ◌}
use self_learning_trading_ag.Core.Errors.{DomainError, retryable}
use self_learning_trading_ag.Tooling.Policy.{
  Failure, domain, other, Call, settle, tries_again, retry_from, retry_run, most, Breaker, note,
  breaker_run, reset, Policy, run, core, circuit_open,
}

-- The breakers that calls and resets make of a new one, each with the number of errors of the
-- taxonomy that its calls have raised since the last call that returned and the last reset. Other
-- exceptions and refused calls are not counted.
pub data Reached (limit : ℤ) : ℕ → Breaker → Type 1 where
  fresh : Reached limit 0 (record { failure_threshold = limit; failures = 0; is_open = false })
  returned :
      {n : ℕ} {b : Breaker} {S T : Type 0} (fn : Call S T) (s : S) (t : T)
      → b.is_open ≡ false
      → (fn s).0 ≡ ok t
      → Reached limit n b
      → Reached limit 0 (breaker_run fn (b, s)).1.0
  erred :
      {n : ℕ} {b : Breaker} {S T : Type 0} (fn : Call S T) (s : S) (e : DomainError)
      → b.is_open ≡ false
      → (fn s).0 ≡ raise (domain e)
      → Reached limit n b
      → Reached limit (suc n) (breaker_run fn (b, s)).1.0
  crashed :
      {n : ℕ} {b : Breaker} {S T : Type 0} (fn : Call S T) (s : S)
      → b.is_open ≡ false
      → (fn s).0 ≡ raise other
      → Reached limit n b
      → Reached limit n (breaker_run fn (b, s)).1.0
  refused :
      {n : ℕ} {b : Breaker} {S T : Type 0} (fn : Call S T) (s : S)
      → b.is_open ≡ true
      → Reached limit n b
      → Reached limit n (breaker_run fn (b, s)).1.0
  put_back : {n : ℕ} {b : Breaker} → Reached limit n b → Reached limit 0 (reset b)

-- What holds of a breaker that has counted n errors.
pub record IsSound (limit : ℤ) (n : ℕ) (b : Breaker) : Type 0 where
  pub threshold_kept : b.failure_threshold ≡ limit
  pub counted : b.failures ≡ n
  pub closed_below : b.is_open ≡ false → (n ≡ 0) ⊎ (pos n <ℤ limit)
  pub open_above : b.is_open ≡ true → (1 ≤ n) × (limit ≤ℤ pos n)

-- The breaker with these three fields.
abbrev breaker : ℤ → ℕ → Bool → Breaker
breaker limit n o = record { failure_threshold = limit; failures = n; is_open = o }

put_back-IsSound : {limit : ℤ} (th : ℤ) → th ≡ limit → IsSound limit 0 (breaker th 0 false)
put_back-IsSound th e = record {
  threshold_kept = e;
  counted = refl;
  closed_below = λ _. inl refl;
  open_above = λ o. ground (arith, o);
}

erred-IsSound :
    {limit : ℤ} (T : Type 0) (th : ℤ) (k n : ℕ) (e : DomainError)
    → IsSound limit n (breaker th k false)
    → IsSound limit (suc n) (note {T = T} (raise (domain e)) (breaker th k false))
unfolding note
erred-IsSound {limit} T th k n e h = record {
  threshold_kept = h.threshold_kept;
  counted = ap suc h.counted;
  closed_below =
      λ o. subst (λ l. (suc n ≡ 0) ⊎ (pos (suc n) <ℤ l)) h.threshold_kept (closed th h.counted o);
  open_above =
      λ o. subst (λ l. (1 ≤ suc n) × (l ≤ℤ pos (suc n))) h.threshold_kept (opened th h.counted o);
}
  where
    closed :
        (l : ℤ)
        → k ≡ n
        → (if leb_ℤ l (pos (suc k)) then true else false) ≡ false
        → (suc n ≡ 0) ⊎ (pos (suc n) <ℤ l)
    closed l c o = inr (subst (λ m. pos (suc m) <ℤ l) c (ground arith))

    opened :
        (l : ℤ)
        → k ≡ n
        → (if leb_ℤ l (pos (suc k)) then true else false) ≡ true
        → (1 ≤ suc n) × (l ≤ℤ pos (suc n))
    opened l c o = (ground arith, subst (λ m. l ≤ℤ pos (suc m)) c (ground arith))

-- A closed breaker, field by field.
closed-IsSound :
    {limit : ℤ} {n : ℕ} (b : Breaker)
    → b.is_open ≡ false
    → IsSound limit n b
    → IsSound limit n (breaker b.failure_threshold b.failures false)
closed-IsSound {limit} {n} b c h =
    subst (λ o. IsSound limit n (breaker b.failure_threshold b.failures o)) c h

-- The breaker after a call that it refuses.
breaker_run_refused :
    {S T : Type 0} (b : Breaker) (fn : Call S T) (s : S)
    → b.is_open ≡ true
    → (breaker_run fn (b, s)).1.0 ≡ b
unfolding breaker_run
breaker_run_refused b fn s o = rw (o, breaker_run) refl

-- The breaker after a call that it lets through.
breaker_run-closed :
    {S T : Type 0} (b : Breaker) (fn : Call S T) (s : S) {r : Except Failure T}
    → b.is_open ≡ false
    → (fn s).0 ≡ r
    → (breaker_run fn (b, s)).1.0 ≡ note r (breaker b.failure_threshold b.failures false)
unfolding breaker_run
breaker_run-closed b fn s o e = rw (o, breaker_run, e) refl

-- A breaker is open exactly while the errors of the taxonomy that its calls have raised since the
-- last call that returned, or since the last reset, reach its threshold; it counts exactly these,
-- and its threshold never changes.
pub Reached-IsSound : {limit : ℤ} {n : ℕ} {b : Breaker} → Reached limit n b → IsSound limit n b
unfolding reset breaker_run note
Reached-IsSound fresh = put_back-IsSound _ refl
Reached-IsSound (returned {b} fn s t c e r) =
    rw (breaker_run-closed b fn s c e)
      (put_back-IsSound b.failure_threshold (Reached-IsSound r).threshold_kept)
Reached-IsSound (erred {n} {b} {T} fn s x c e r) =
    rw (breaker_run-closed b fn s c e)
      (erred-IsSound T b.failure_threshold b.failures n x (closed-IsSound b c (Reached-IsSound r)))
Reached-IsSound (crashed {b} fn s c e r) =
    rw (breaker_run-closed b fn s c e) (closed-IsSound b c (Reached-IsSound r))
Reached-IsSound (refused {b} fn s c r) = rw (breaker_run_refused b fn s c) (Reached-IsSound r)
Reached-IsSound (put_back {b} r) = put_back-IsSound _ (Reached-IsSound r).threshold_kept

abbrev is_last : ℕ → Bool
is_last zero = true
is_last (suc f) = false

-- The loop stops at its last attempt, and not before.
reaches :
    (retries : ℤ) (f a : ℕ) → suc f + a ≡ most retries → leb_ℤ retries (pos (suc a)) ≡ is_last f
reaches (pos zero) zero a h = ground arith
reaches (pos zero) (suc f) a h = ground arith
reaches (pos (suc n)) zero a h = ground arith
reaches (pos (suc n)) (suc f) a h = ground arith
reaches (negsuc n) zero a h = ground arith
reaches (negsuc n) (suc f) a h = ground arith

module _ {S T : Type 0} (p : Policy S T) (fn : Call S T) (b : Breaker) where
  core-open :
      (s : S)
      → p.has_breaker ≡ true
      → b.is_open ≡ true
      → core p fn (b, s) ≡ (raise (domain circuit_open), (b, s))
  unfolding core breaker_run
  core-open s h o = rw (h, core, o, breaker_run) refl

  -- The sleeps after the attempts that follow the given number of them.
  abbrev pub sleeps : (k a : ℕ) → S → S
  sleeps zero a s = s
  sleeps (suc k) a s = sleeps k (suc a) (p.sleep (suc a) s)

  -- The sleep beside the breaker.
  abbrev asleep : ℕ → Breaker × S → Breaker × S
  asleep n (b', s') = (b', p.sleep n s')

  -- The loop after an attempt with the given outcome.
  abbrev attempted :
      ℤ
      → (f a : ℕ) → Except Failure T × (Breaker × S)
      → Option (Except DomainError T × (Breaker × S))
  attempted retries f a z = elim (tries_again retries (suc a) z.0) [
    | true ↦ retry_from retries asleep (core p fn) f (suc a) (asleep (suc a) z.1)
    | false ↦ some (settle z.0, z.1)
  ]

  retry_from-open :
      (retries : ℤ) (f a : ℕ) (s : S)
      → p.has_breaker ≡ true
      → b.is_open ≡ true
      → suc f + a ≡ most retries
      → retry_from retries asleep (core p fn) (suc f) a (b, s)
        ≡ some (raise circuit_open, (b, sleeps f a s))
  unfolding retry_from tries_again settle retryable
  retry_from-open retries zero a s h o e =
      ap (attempted retries 0 a) (core-open s h o) ∙ rw (reaches retries 0 a e, attempted) refl
  retry_from-open retries (suc f) a s h o e =
      ap (attempted retries (suc f) a) (core-open s h o)
      ∙ rw (reaches retries (suc f) a e, attempted)
          (retry_from-open retries f (suc a) (p.sleep (suc a) s) h o (omega (arith, e)))

  -- The waits of a policy's run.
  abbrev pub waits : Option ℤ → S → S
  waits none s = s
  waits (some (pos (suc n))) s = sleeps n 0 s
  waits (some _) s = s

  -- While the breaker is open the policy never calls the provider: it fails with an open circuit,
  -- leaves the breaker as it is, and nothing but the sleeps between the retries happens.
  pub run-open :
      (s : S)
      → p.has_breaker ≡ true
      → b.is_open ≡ true
      → run p fn (b, s) ≡ some (raise (domain circuit_open), (b, waits p.retry s))
  unfolding run retry_run
  run-open s h o = by_retry p.retry refl
    where
      by_retry :
          (r : Option ℤ)
          → p.retry ≡ r
          → run p fn (b, s) ≡ some (raise (domain circuit_open), (b, waits r s))
      by_retry none e = rw (e, run) (ap some (core-open s h o))
      by_retry (some (pos zero)) e =
          rw (e, run, retry_from-open (pos zero) 0 0 s h o (ground arith)) refl
      by_retry (some (pos (suc n))) e =
          rw (e, run, retry_from-open (pos (suc n)) n 0 s h o (ground arith)) refl
      by_retry (some (negsuc n)) e =
          rw (e, run, retry_from-open (negsuc n) 0 0 s h o (ground arith)) refl
