-- ===== src/Parse/Splits.antt =====
-- `str.split` and `str.partition` at a single character.
use self_learning_trading_ag.Base.{
  ℕ, ◌≡◌, refl, false, List, [], ◌∷◌, ◌++◌, Text, ◌==◌, arith, if◌then◌else◌,
}

-- A character before the first piece.
unfoldable pub push : ℕ → List Text → List Text
push c [] = (c ∷ []) ∷ []
push c (p ∷ ps) = (c ∷ p) ∷ ps

-- `s.split(d)`
unfoldable pub split_on : ℕ → Text → List Text
split_on d [] = [] ∷ []
split_on d (c ∷ s) = let rest = split_on d s in if c == d then [] ∷ rest else push c rest

-- `s.partition(d)` without its middle part: what comes before the first `d`, and after it.
unfoldable pub partition : ℕ → Text → Text × Text
partition d [] = ([], [])
partition d (c ∷ s) =
    let (before, after) = partition d s in if c == d then ([], s) else (c ∷ before, after)

-- The text has no `d`.
abbrev pub Lacks : ℕ → Text → Type 0
Lacks d [] = Unit {0}
Lacks d (c ∷ s) = ((c == d) ≡ false) × Lacks d s

pub split_on-Lacks : (d : ℕ) (s : Text) → Lacks d s → split_on d s ≡ s ∷ []
unfolding split_on push
split_on-Lacks d [] h = refl
split_on-Lacks d (c ∷ s) (a, h) = rw (split_on-Lacks d s h, a) refl

pub split_on-append :
    (d : ℕ) (s rest : Text) → Lacks d s → split_on d (s ++ (d ∷ rest)) ≡ s ∷ split_on d rest
unfolding split_on push
split_on-append d [] rest h = ground arith
split_on-append d (c ∷ s) rest (a, h) = rw (split_on-append d s rest h, a) refl

pub partition-append :
    (d : ℕ) (s rest : Text) → Lacks d s → partition d (s ++ (d ∷ rest)) ≡ (s, rest)
unfolding partition
partition-append d [] rest h = ground arith
partition-append d (c ∷ s) rest (a, h) = rw (partition-append d s rest h, a) refl
