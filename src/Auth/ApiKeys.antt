-- ===== src/Auth/ApiKeys.antt =====
-- app/modules/auth/application/services.py: `ApiKeyService`. The secret, the id and the time are
-- those that the operating system gives.
use self_learning_trading_ag.Base.{
  ℕ, false, not, Option, none, some, [], ◌∷◌, ◌++◌, Text, text, Except, ok, raise, lower, map, ◌==◌,
  if◌then◌else◌,
}
use self_learning_trading_ag.Core.Result.{Result, ok_result, err_result}
use self_learning_trading_ag.Core.Errors.{DomainError}
use self_learning_trading_ag.Auth.Entities.{User, ApiKey}
use self_learning_trading_ag.Auth.Repositories.{StoreError}
use self_learning_trading_ag.Auth.Repositories.Keys as Keys
use self_learning_trading_ag.Auth.Service.{PasswordHasher, failed}

-- `raw.split("_")[0]`
unfoldable pub prefix_of : Text → Text
prefix_of [] = []
prefix_of (c ∷ s) = let rest = prefix_of s in if c == b'_' then [] else c ∷ rest

-- `label.lower().replace(' ', '-')`
unfoldable pub slug : Text → Text
slug label = map (λ c. if c == b' ' then b'-' else c) (lower label)

-- The whole key, of the label and the secret.
abbrev pub raw_key : Text → Text → Text
raw_key label secret = slug label ++ (text "_" ++ secret)

module _ (h : PasswordHasher) where
  -- The key that is stored.
  abbrev pub new_key : (id now : ℕ) → User → (label secret : Text) → ApiKey
  new_key id now user label secret = record {
    id = id;
    user_id = user.id;
    key_prefix = prefix_of (raw_key label secret);
    hashed_key = h.hash (raw_key label secret);
    created_at = now;
    revoked = false;
  }

  -- `create`, once the user is looked up: the key, and the secret without its prefix.
  unfoldable pub create_key :
      (id now : ℕ)
      → Option User
      → (label secret : Text) → Keys.Table
      → Except StoreError (Result (ApiKey × Text) DomainError) × Keys.Table
  create_key id now none label secret t = (ok (err_result (failed (text "user_not_found"))), t)
  create_key id now (some user) label secret t =
      elim (Keys.save (new_key id now user label secret) t) [
        | raise e ↦ (raise e, t)
        | ok t' ↦ (ok (ok_result (new_key id now user label secret, secret)), t')
      ]

  -- `lookup`
  unfoldable pub lookup : Text → Keys.Table → Option ApiKey
  lookup raw t = elim (Keys.find_by_prefix (prefix_of raw) t) [
    | none ↦ none
    | some stored ↦
        if stored.revoked
        then none
        else if not (h.verify raw stored.hashed_key)
        then none
        else some stored
  ]
