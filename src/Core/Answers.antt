-- ===== src/Core/Answers.antt =====
-- What the routes of FastAPI answer.
use self_learning_trading_ag.Base.{ℕ, none, some, Text}
use self_learning_trading_ag.Core.Result.{Result}
use self_learning_trading_ag.Core.Errors.{DomainError, http_status_for}

-- An answer, an `HTTPException`, or another exception.
pub data Reply (A : Type 0) : Type 0 where
  replied : A → Reply A
  http_error : (status : ℕ) (detail : Text) → Reply A
  exception : Reply A

-- `HTTPException(status_code=http_status_for(error), detail=error.message)` for an error, and what
-- `make` makes of a value.
unfoldable pub reply_result : {A B : Type 0} → Result A DomainError → (A → B) → Reply B
reply_result r make = elim r.error [
  | some e ↦ http_error (http_status_for e) e.message
  | none ↦ elim r.value [ some a ↦ replied (make a) | none ↦ exception ]
]
