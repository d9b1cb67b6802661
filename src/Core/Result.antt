-- ===== src/Core/Result.antt =====
-- app/core/common/result.py: the `Result` that every use case returns. As in the source it is a
-- pair of two optional parts, and nothing but `Ok` and `Err` keeps one of them empty.
use self_learning_trading_ag.Base.{
  ◌≡◌, refl, Bool, true, false, not, Option, none, some, Except, ok, raise,
}

pub record Result (T E : Type 0) : Type 0 where
  pub value : Option T
  pub error : Option E

module _ {T E : Type 0} where
  -- `Ok(value)`
  abbrev pub ok_result : T → Result T E
  ok_result t = record { value = some t; error = none }

  -- `Err(error)`
  abbrev pub err_result : E → Result T E
  err_result e = record { value = none; error = some e }

  unfoldable pub is_ok : Result T E → Bool
  is_ok r = elim r.error [ none ↦ true | some _ ↦ false ]

  unfoldable pub is_err : Result T E → Bool
  is_err r = not (is_ok r)

  -- `ok_value`: the value, or a `ValueError` that carries the error.
  unfoldable pub ok_value : Result T E → Except (Option E) T
  ok_value r = elim r.value [ none ↦ raise r.error | some t ↦ ok t ]

  -- `error_value`: the error, or a `ValueError`.
  unfoldable pub error_value : Result T E → Except (Unit {0}) E
  error_value r = elim r.error [ none ↦ raise tt | some e ↦ ok e ]

unfoldable pub map_err : {T E F : Type 0} → (E → F) → Result T E → Result T F
map_err fn r = elim r.error [
  | none ↦ record { value = r.value; error = none }
  | some e ↦ record { value = none; error = some (fn e) }
]

-- A result that `Ok` or `Err` built.
pub data IsBuilt {T E : Type 0} : Result T E → Type 0 where
  built_ok : (t : T) → IsBuilt (ok_result t)
  built_err : (e : E) → IsBuilt (err_result e)

-- For a result that `Ok` or `Err` built, `ok_value` returns exactly if `is_ok` holds, and
-- `error_value` exactly if `is_err` holds; `map_err` changes the error alone.
pub map_err-IsBuilt :
    {T E F : Type 0} (fn : E → F) {r : Result T E}
    → IsBuilt r
    → IsBuilt (map_err fn r)
      × (is_ok (map_err fn r) ≡ is_ok r)
      × ((map_err fn r).value ≡ r.value)
      × (is_ok r ≡ true → (t : T) × (ok_value r ≡ ok t))
      × (is_err r ≡ true
          → (e : E) × (error_value r ≡ ok e) × (error_value (map_err fn r) ≡ ok (fn e)))
unfolding map_err is_ok is_err ok_value error_value
map_err-IsBuilt fn (built_ok t) = (built_ok t, refl, refl, λ h. (t, refl), λ h. cc)
map_err-IsBuilt fn (built_err e) = (built_err (fn e), refl, refl, λ h. cc, λ h. (e, refl, refl))
