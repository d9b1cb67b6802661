-- ===== src/Auth/Routes.antt =====
-- app/modules/auth/presentation: the routes of FastAPI over the services, with the checks of the
-- request bodies. A body that is refused is FastAPI's answer 422.
pub mod Registering
use self_learning_trading_ag.Base.{
  ℕ, ◌≡◌, refl, Bool, true, false, not, ◌&&◌, ◌||◌, Option, none, some, List, [], ◌∷◌, ◌++◌, Text,
  text, text_eq, is_empty, lower, map, length, Except, ok, raise, leb, ◌==◌, if◌then◌else◌,
}
use self_learning_trading_ag.Core.Result.{Result, ok_result, err_result}
use self_learning_trading_ag.Core.Errors.{DomainError, http_status_for}
use self_learning_trading_ag.Parse.Splits.{partition}
use self_learning_trading_ag.Auth.Entities.{
  Role, viewer, analyst, role_value, User, ApiKey, TokenPair,
}
use self_learning_trading_ag.Auth.Tokens.{Manager}
use self_learning_trading_ag.Auth.Repositories.{StoreError}
use self_learning_trading_ag.Auth.Repositories.Users as Users
use self_learning_trading_ag.Auth.Repositories.Keys as Keys
use self_learning_trading_ag.Auth.Service.{PasswordHasher, register_user, login, refresh, resolve}
use self_learning_trading_ag.Auth.ApiKeys.{create_key}
use Prim.Native.Char.{code}

-- What leaves a route beside an `HTTPException`: an exception of the store, or the
-- `AttributeError` of an object that has slots and so no `__dict__`.
pub data Fault : Type 0 where
  store_fault : StoreError → Fault
  no_dict : Fault

pub data Response (A : Type 0) : Type 0 where
  responded : A → Response A
  http_exception : (status : ℕ) (detail : Text) → Response A
  crashed : Fault → Response A

-- `_or_http`: the exception for an error, or nothing.
unfoldable pub or_http : {A : Type 0} → Result A DomainError → Option ℕ → Option (ℕ × Text)
or_http r override = elim r.error [
  | none ↦ none
  | some e ↦ some (elim override [ none ↦ http_status_for e | some status ↦ status ], e.message)
]

pub record RegisterRequest : Type 0 where
  pub username : Text
  pub password : Text
  pub role : Text

-- The bounds of the fields of `RegisterRequest`.
unfoldable pub is_valid : RegisterRequest → Bool
is_valid b =
    leb 3 (length b.username)
    && leb (length b.username) 64
    && leb 8 (length b.password)
    && leb (length b.password) 256

-- The role of a new user: what the body asks for, if it is one of the two that it may ask for.
unfoldable pub chosen_role : Text → Role
chosen_role asked =
    if text_eq asked (text "viewer")
    then viewer
    else if text_eq asked (text "analyst")
    then analyst
    else viewer

-- The token of an `Authorization` header.
unfoldable pub bearer : Text → Option Text
bearer header =
    let (scheme, token) = partition b' ' header in
    if not (text_eq (lower scheme) (text "bearer")) || is_empty token then none else some token

-- The answer that a pair of tokens is turned into: `TokenResponse(**pair.__dict__)`, and a
-- `TokenPair` has no `__dict__`.
unfoldable pub token_response :
    {T A : Type 0} → Result (TokenPair T) DomainError → Option ℕ → Response A
token_response r override = elim (or_http r override) [
  | some (status, detail) ↦ http_exception status detail
  | none ↦ crashed no_dict
]

-- The answer to a registration, given that of the login after it.
unfoldable pub after_registration :
    {A : Type 0} → Except StoreError (Result User DomainError) → Response A → Response A
after_registration (raise e) next = crashed (store_fault e)
after_registration (ok r) next = elim (or_http r (some 400)) [
  | some (status, detail) ↦ http_exception status detail
  | none ↦ next
]

module _ (h : PasswordHasher) (m : Manager) where
  -- The answer of a service, or its exception.
  unfoldable pub answer_tokens :
      {T A : Type 0} → Except StoreError (Result (TokenPair T) DomainError) → Option ℕ → Response A
  answer_tokens (raise e) override = crashed (store_fault e)
  answer_tokens (ok r) override = token_response r override

  -- `POST /auth/token`
  unfoldable pub login_route :
      {A : Type 0} → (now uuid : ℕ) (username password : Text) → Users.Table → Response A
  login_route now uuid username password t =
      answer_tokens (login h m now uuid username password t) (some 401)

  -- `POST /auth/refresh`
  unfoldable pub refresh_route :
      {A : Type 0}
      → (get_by_id : Text → Except StoreError (Option User)) (now uuid : ℕ) → m.jwt.Token
      → Response A
  refresh_route get_by_id now uuid token =
      answer_tokens (refresh h m get_by_id now uuid token) (some 401)

  -- `POST /auth/register`, after the check of the body; the login follows a success.
  unfoldable pub register_checked :
      {A : Type 0} → (id now uuid : ℕ) → RegisterRequest → Users.Table → Response A × Users.Table
  register_checked id now uuid b t =
      let (r, t') = register_user h id b.username b.password (chosen_role b.role) t in
      (after_registration r (login_route now uuid b.username b.password t'), t')

  unfoldable pub register_route :
      {A : Type 0} → (id now uuid : ℕ) → RegisterRequest → Users.Table → Response A × Users.Table
  register_route id now uuid b t =
      if is_valid b
      then register_checked id now uuid b t
      else (http_exception 422 (text "validation_error"), t)

  -- `get_current_user`; `read` is what decodes the text of a token.
  unfoldable pub current_user :
      (get_by_id : Text → Except StoreError (Option User)) (read : Text → m.jwt.Token) (now : ℕ)
      → (header : Text) → Response User
  current_user get_by_id read now header = elim (bearer header) [
    | none ↦ http_exception 401 (text "missing_token")
    | some token ↦ elim (resolve h m get_by_id now (read token)) [
      | raise e ↦ crashed (store_fault e)
      | ok r ↦ elim r.error [
        | some e ↦ http_exception 401 e.message
        | none ↦ elim r.value [ some user ↦ responded user | none ↦ crashed no_dict ]
      ]
    ]
  ]

-- What a key is shown as; `created_at` is shown by `isoformat`.
pub record ApiKeyResponse : Type 0 where
  pub key_id : Text
  pub key_prefix : Text
  pub created_at : Text

abbrev pub key_response : (ℕ → Text) → (ℕ → Text) → ApiKey → ApiKeyResponse
key_response show_id isoformat k = record {
  key_id = show_id k.id;
  key_prefix = k.key_prefix;
  created_at = isoformat k.created_at;
}

module _ (h : PasswordHasher) (show_id isoformat : ℕ → Text) where
  -- `POST /auth/api-keys`, for the user that `get_current_user` gave; `found` is that user in the
  -- repository.
  unfoldable pub create_key_route :
      (id now : ℕ)
      → (found : Option User) (label secret : Text) → Keys.Table
      → Response (ApiKeyResponse × Text) × Keys.Table
  create_key_route id now found label secret t =
      let (r, t') = create_key h id now found label secret t in
      elim r [
        | raise e ↦ (crashed (store_fault e), t')
        | ok result ↦ elim (or_http result none) [
          | some (status, detail) ↦ (http_exception status detail, t')
          | none ↦ elim result.value [
            | some (key, s) ↦ (responded (key_response show_id isoformat key, s), t')
            | none ↦ (crashed no_dict, t')
          ]
        ]
      ]

  -- `GET /auth/api-keys`
  unfoldable pub list_keys_route : User → Keys.Table → List ApiKeyResponse
  list_keys_route user t = map (key_response show_id isoformat) (Keys.list_by_user user.id t)
