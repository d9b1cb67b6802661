-- ===== src/Auth/Routes/Registering.antt =====
-- What a request for a registration can do to the users.
use self_learning_trading_ag.Base.{
  ℕ, ◌≡◌, ◌≢◌, refl, ◌⊎◌, inl, inr, false, Option, none, some, [], ◌∷◌, ◌++◌, Text, Except, ok,
  raise, length, ltb, arith, Bool-cases, Option-cases, if◌then◌else◌,
}
use self_learning_trading_ag.Core.Result.{Result}
use self_learning_trading_ag.Core.Errors.{DomainError}
use self_learning_trading_ag.Auth.Entities.{admin, User, TokenPair, new_user}
use self_learning_trading_ag.Auth.Tokens.{Manager}
use self_learning_trading_ag.Auth.Repositories.{StoreError}
use self_learning_trading_ag.Auth.Repositories.Users as Users
use self_learning_trading_ag.Auth.Service.{PasswordHasher, normalize, register_user, add_user}
use self_learning_trading_ag.Auth.Routes.{
  Response, responded, http_exception, crashed, RegisterRequest, is_valid, chosen_role, or_http,
  token_response, answer_tokens, login_route, after_registration, register_checked, register_route,
}

-- The users after a request: unchanged, or one more, with the name and the password of the body
-- and a role below that of an administrator.
pub data Grown (h : PasswordHasher) (b : RegisterRequest) (t : Users.Table)
    : Users.Table → Type 0 where
  same : Grown h b t t
  added :
      (u : User)
      → u.username ≡ normalize b.username
      → u.password_hash ≡ h.hash b.password
      → u.role ≢ admin
      → u.disabled ≡ false
      → Grown h b t (t ++ (Users.to_row u ∷ []))

chosen_role-admin : (asked : Text) → chosen_role asked ≢ admin
unfolding chosen_role
chosen_role-admin asked e = ground arith

add_user-Grown :
    (h : PasswordHasher) (b : RegisterRequest) (u : User) (t : Users.Table)
    → u.username ≡ normalize b.username
    → u.password_hash ≡ h.hash b.password
    → u.role ≢ admin
    → u.disabled ≡ false
    → Grown h b t (add_user h u t).1
unfolding add_user Users.save
add_user-Grown h b u t n p r d = elim (Bool-cases (Users.is_taken (Users.to_row u) t)) [
  | inl e ↦ rw (e, add_user, Users.save) same
  | inr e ↦ rw (e, add_user, Users.save) (added u n p r d)
]

found-cases :
    (r : Except StoreError (Option User))
    → ((e : StoreError) × (r ≡ raise e)) ⊎ ((u : User) × (r ≡ ok (some u))) ⊎ (r ≡ ok none)
found-cases (raise e) = inl (e, refl)
found-cases (ok (some u)) = inr (inl (u, refl))
found-cases (ok none) = inr (inr refl)

-- An answer that is no success.
abbrev pub IsFailure : {A : Type 0} → Response A → Type 0
IsFailure (responded a) = ⊥
IsFailure (http_exception status detail) = Unit {0}
IsFailure (crashed e) = Unit {0}

token_response-IsFailure :
    {T : Type 0} (A : Type 0) (r : Result (TokenPair T) DomainError) (o : Option ℕ)
    → IsFailure (token_response {A = A} r o)
unfolding token_response
token_response-IsFailure A r o = elim (Option-cases (or_http r o)) [
  | inl e ↦ rw (e, token_response) tt
  | inr (p, e) ↦ rw (e, token_response) tt
]

answer_tokens-IsFailure :
    (h : PasswordHasher) (m : Manager) {T : Type 0} (A : Type 0)
    → (r : Except StoreError (Result (TokenPair T) DomainError)) (o : Option ℕ)
    → IsFailure (answer_tokens h m {A = A} r o)
unfolding answer_tokens
answer_tokens-IsFailure h m A (raise e) o = tt
answer_tokens-IsFailure h m A (ok r) o = token_response-IsFailure A r o

after_registration-IsFailure :
    {A : Type 0} (r : Except StoreError (Result User DomainError)) (next : Response A)
    → IsFailure next
    → IsFailure (after_registration r next)
unfolding after_registration
after_registration-IsFailure (raise e) next h = tt
after_registration-IsFailure (ok r) next h = elim (Option-cases (or_http r (some 400))) [
  | inl e ↦ rw (e, after_registration) h
  | inr (p, e) ↦ rw (e, after_registration) tt
]

module _ (h : PasswordHasher) (id : ℕ) (b : RegisterRequest) (t : Users.Table) where
  abbrev pub users_after : Users.Table
  users_after = (register_user h id b.username b.password (chosen_role b.role) t).1

  register_user-Grown : Grown h b t users_after
  unfolding register_user new_user
  register_user-Grown = elim (Bool-cases (ltb (length b.password) 8)) [
    | inl e ↦ rw (users_after, e, register_user) same
    | inr e ↦ elim (found-cases (Users.get_by_username (normalize b.username) t)) [
      | inl (x, f) ↦ rw (users_after, e, register_user, f) same
      | inr (inl (u, f)) ↦ rw (users_after, e, register_user, f) same
      | inr (inr f) ↦
          rw (users_after, e, register_user, f)
            (add_user-Grown h b
              (new_user id (normalize b.username) (h.hash b.password) (chosen_role b.role)) t refl
              refl (chosen_role-admin b.role) refl)
    ]
  ]

  module _ (m : Manager) (A : Type 0) (now uuid : ℕ) where
    -- Whatever is asked, a request for a registration either leaves the users as they are, or adds
    -- one user that is enabled and is no administrator, with the name and the password of the
    -- body; a body out of its bounds adds none. No request is
    -- answered with tokens: even a registration that is stored ends in an error.
    pub register_route-Grown :
        Grown h b t (register_route h m {A = A} id now uuid b t).1
        × IsFailure (register_route h m {A = A} id now uuid b t).0
        × ((register_route h m {A = A} id now uuid b t).1 ≡ (if is_valid b then users_after else t))
    unfolding register_route register_checked login_route
    register_route-Grown = elim (Bool-cases (is_valid b)) [
      | inl e ↦
          rw (e, register_route)
            (
              register_user-Grown,
              after_registration-IsFailure _ _ (answer_tokens-IsFailure h m A _ _),
              refl,
            )
      | inr e ↦ rw (e, register_route) (same, tt, refl)
    ]
