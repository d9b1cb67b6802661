-- ===== src/Examples/Auth.antt =====
-- Tests and witnesses of registration, login and tokens.
use self_learning_trading_ag.Base.{
  ℕ, ◌≡◌, refl, Option, none, some, [], ◌∷◌, Text, text, text_eq, text_eq_refl, Except, ok, raise,
  ltb, lt→ltb, arith, if◌then◌else◌, length, ◌%◌,
}
use self_learning_trading_ag.Int.{pos}
use self_learning_trading_ag.Core.Result.{err_result}
use self_learning_trading_ag.Auth.Entities.{viewer, User, new_user}
use self_learning_trading_ag.Auth.Tokens.{
  Payload, TokenFault, expired_signature, Jwt, Manager, issue, refusal,
}
use self_learning_trading_ag.Auth.Repositories.{StoreError}
use self_learning_trading_ag.Auth.Repositories.Users as Users
use self_learning_trading_ag.Auth.Service.{PasswordHasher, refresh, resolve}
use self_learning_trading_ag.Auth.Hasher.{
  Pbkdf2, hash_password, verify_password, verify_password-hash_password,
}
use self_learning_trading_ag.Auth.Routes.{RegisterRequest, is_valid, register_route}
use self_learning_trading_ag.Auth.Routes.Registering.{
  Grown, IsFailure, users_after, register_route-Grown,
}
use self_learning_trading_ag.Auth.Laws.{Resolved, refresh-issue, resolve-issue}

-- Tokens that are their payloads.
abbrev open_decode : ℕ → Payload → Except TokenFault Payload
open_decode now p = elim p.exp [
  | none ↦ ok p
  | some e ↦ if ltb now e then ok p else raise expired_signature
]

abbrev open_jwt : Jwt
open_jwt = record {
  Token = Payload;
  encode = λ p. p;
  decode = open_decode;
  decode-encode = λ now p i e a b c d. rw (b, lt→ltb now e d) refl;
}

abbrev manager : Manager
manager = record {
  jwt = open_jwt;
  access_ttl_min = 30;
  refresh_ttl_days = 14;
  show_id = λ n. n ∷ [];
}

-- A hash that is the password.
abbrev plain : PasswordHasher
plain = record { hash = λ s. s; verify = text_eq; verify-hash = text_eq_refl }

abbrev alice : User
alice = new_user 1 (text "alice") (text "correct horse") viewer

abbrev nobody : Text → Except StoreError (Option User)
nobody id = ok none

abbrev always_alice : Text → Except StoreError (Option User)
always_alice id = ok (some alice)

refresh-issue_example :
    refresh plain manager always_alice 150 6 (issue manager 100 5 alice).refresh_token
    ≡ ok (err_result (refusal (text "token_claims_malformed")))
refresh-issue_example =
    refresh-issue plain manager always_alice 100 5 150 6 alice (omega arith) (omega arith)

resolve-issue_example :
    Resolved
      (some alice)
      (resolve plain manager always_alice 150 (issue manager 100 5 alice).access_token)
resolve-issue_example =
    resolve-issue plain manager always_alice 100 5 150 alice (some alice) (omega arith)
      (omega arith) refl

-- A derivation whose bytes are the length of the password and the salt.
abbrev short : Pbkdf2
short = record {
  derive = λ password salt n. (length password % 256) ∷ [];
  derive-AreBytes = λ password salt n. (ground arith, tt);
}

verify_password-hash_password_example :
    verify_password short
      (text "wrong")
      (hash_password short (171 ∷ (7 ∷ [])) (text "correct horse"))
    ≡ ok (
        text_eq
          (short.derive (text "wrong") (171 ∷ (7 ∷ [])) (pos 390000))
          (short.derive (text "correct horse") (171 ∷ (7 ∷ [])) (pos 390000)))
verify_password-hash_password_example =
    verify_password-hash_password short (171 ∷ (7 ∷ [])) (text "correct horse") (text "wrong")
      (omega arith, (omega arith, tt))

-- A body that asks for a role that it may not ask for.
abbrev body : RegisterRequest
body = record { username = text "Mallory"; password = text "let me in"; role = text "admin" }

register_route-Grown_example :
    Grown plain body [] (register_route plain manager {A = ℕ} 7 100 5 body []).1
    × IsFailure (register_route plain manager {A = ℕ} 7 100 5 body []).0
    × ((register_route plain manager {A = ℕ} 7 100 5 body []).1
        ≡ (if is_valid body then users_after plain 7 body [] else []))
register_route-Grown_example = register_route-Grown plain 7 body [] manager ℕ 100 5
