-- ===== src/Auth/Service.antt =====
-- app/modules/auth/application/services.py: registration, login, tokens, and API keys.
-- The hash of a password and the secrets of the operating system are parameters.
use self_learning_trading_ag.Base.{
  ℕ, ◌≡◌, Bool, true, not, Option, none, some, Text, text, Except, ok, raise, strip, lower, length,
  ltb, if◌then◌else◌,
}
use self_learning_trading_ag.Core.Result.{Result, ok_result, err_result}
use self_learning_trading_ag.Core.Errors.{DomainError, domain_error}
use self_learning_trading_ag.Auth.Entities.{Role, User, TokenPair, TokenClaims, new_user}
use self_learning_trading_ag.Auth.Tokens.{Manager, issue, verify_access, verify_refresh}
use self_learning_trading_ag.Auth.Repositories.{StoreError}
use self_learning_trading_ag.Auth.Repositories.Users as Users

-- The port of password hashing. What a hasher makes of a password verifies it.
pub record PasswordHasher : Type 0 where
  pub hash : Text → Text
  pub verify : Text → Text → Bool
  pub verify-hash : (password : Text) → verify password (hash password) ≡ true

-- `DomainError(message, provider="auth")`
abbrev pub failed : Text → DomainError
failed message = record { class = domain_error; message = message; provider = some (text "auth") }

-- `DomainError(message)`
abbrev pub too_short : DomainError
too_short = record {
  class = domain_error;
  message = text "password must be at least 8 characters";
  provider = none;
}

-- `username.strip().lower()`
unfoldable pub normalize : Text → Text
normalize s = lower (strip s)

-- Whether a user is missing or disabled.
unfoldable pub active : Option User → Option User
active none = none
active (some u) = if u.disabled then none else some u

module _ (h : PasswordHasher) where
  abbrev pub Registered : Type 0
  Registered = Except StoreError (Result User DomainError) × Users.Table

  -- The saving of a new user.
  unfoldable pub add_user : User → Users.Table → Registered
  add_user u t = elim (Users.save u t) [ raise e ↦ (raise e, t) | ok t' ↦ (ok (ok_result u), t') ]

  -- `AuthService.register`, with the id that `uuid4` gives.
  unfoldable pub register_user :
      (id : ℕ) (username password : Text) → Role → Users.Table → Registered
  register_user id username password role t =
      if ltb (length password) 8
      then (ok (err_result too_short), t)
      else elim (Users.get_by_username (normalize username) t) [
        | raise e ↦ (raise e, t)
        | ok found ↦ elim found [
          | some _ ↦ (ok (err_result (failed (text "user_exists"))), t)
          | none ↦ add_user (new_user id (normalize username) (h.hash password) role) t
        ]
      ]

  module _ (m : Manager) where
    -- `AuthService.login`
    unfoldable pub login :
        (now uuid : ℕ) (username password : Text)
        → Users.Table
        → Except StoreError (Result (TokenPair m.jwt.Token) DomainError)
    login now uuid username password t = elim (Users.get_by_username (normalize username) t) [
      | raise e ↦ raise e
      | ok found ↦ elim found [
        | none ↦ ok (err_result (failed (text "invalid_credentials")))
        | some user ↦
            if not (h.verify password user.password_hash)
            then ok (err_result (failed (text "invalid_credentials")))
            else if user.disabled
            then ok (err_result (failed (text "user_disabled")))
            else ok (ok_result (issue m now uuid user))
      ]
    ]

    -- The end of `refresh`.
    unfoldable pub renew : (now uuid : ℕ) → Option User → Result (TokenPair m.jwt.Token) DomainError
    renew now uuid none = err_result (failed (text "user_disabled"))
    renew now uuid (some user) = ok_result (issue m now uuid user)

    -- `AuthService.refresh`; `get_by_id` looks a user up by the text of an id.
    unfoldable pub refresh :
        (get_by_id : Text → Except StoreError (Option User)) (now uuid : ℕ)
        → m.jwt.Token
        → Except StoreError (Result (TokenPair m.jwt.Token) DomainError)
    refresh get_by_id now uuid token = elim (verify_refresh m now token) [
      | raise e ↦ ok (err_result e)
      | ok claims ↦ elim (get_by_id claims.subject) [
        | raise e ↦ raise e
        | ok found ↦ ok (renew now uuid (active found))
      ]
    ]

    -- `AuthService.verify_access`
    unfoldable pub verify_token : (now : ℕ) → m.jwt.Token → Result TokenClaims DomainError
    verify_token now token = elim (verify_access m now token) [
      | raise e ↦ err_result e
      | ok claims ↦ ok_result claims
    ]

    -- `CurrentUserService.resolve`
    unfoldable pub resolve :
        (get_by_id : Text → Except StoreError (Option User)) (now : ℕ)
        → m.jwt.Token
        → Except StoreError (Result User DomainError)
    resolve get_by_id now token = elim (verify_access m now token) [
      | raise e ↦ ok (err_result e)
      | ok claims ↦ elim (get_by_id claims.subject) [
        | raise e ↦ raise e
        | ok found ↦ elim (active found) [
          | none ↦ ok (err_result (failed (text "user_disabled")))
          | some user ↦ ok (ok_result user)
        ]
      ]
    ]
