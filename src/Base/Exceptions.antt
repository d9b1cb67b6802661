-- ===== src/Base/Exceptions.antt =====
-- A call that returns a value or raises an exception.
pub data Except {ℓ κ} (E : Type ℓ) (A : Type κ) : Type (ℓ ⊔ κ) where
  ok : A → Except E A
  raise : E → Except E A

module _ {ℓ κ μ} {E : Type ℓ} {A : Type κ} {B : Type μ} where
  infixl 5 ◌>>=◌ ◌>>◌
  abbrev pub ◌>>=◌ : Except E A → (A → Except E B) → Except E B
  ok a >>= f = f a
  raise e >>= f = raise e

  abbrev pub ◌>>◌ : Except E A → Except E B → Except E B
  ok a >> k = k
  raise e >> k = raise e
