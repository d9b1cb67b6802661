-- ===== src/Auth/Repositories.antt =====
-- app/modules/auth/infrastructure/stores/postgres_repos.py: the tables of users and API keys as
-- lists of rows. A commit that breaks a unique column raises and changes nothing.
pub mod Users
pub mod Keys
use self_learning_trading_ag.Base.{
  ℕ, ◌/◌, ◌*◌, ◌≡◌, refl, Bool, true, false, not, ◌||◌, Option, none, some, List, [], ◌∷◌, ◌++◌,
  Text, text, text_eq, text_eq_refl, Except, ok, raise, ◌==◌, if◌then◌else◌, arith, Bool-cases, ap,
}
use self_learning_trading_ag.Auth.Entities.{
  Role, role_value, parse_role, parse_role-role_value, User, ApiKey,
}

pub record UserRow : Type 0 where
  pub id : ℕ
  pub username : Text
  pub password_hash : Text
  pub role : Text
  pub disabled : ℕ

pub record ApiKeyRow : Type 0 where
  pub id : ℕ
  pub user_id : ℕ
  pub key_prefix : Text
  pub hashed_key : Text
  pub created_at : ℕ
  pub revoked : ℕ

-- What a repository raises: a unique column that is taken, or a role that is none.
pub data StoreError : Type 0 where
  integrity_error invalid_role : StoreError

-- `int(flag)` and `bool(n)`
abbrev pub flag : Bool → ℕ
flag true = 1
flag false = 0

abbrev pub is_set : ℕ → Bool
is_set n = not (n == 0)
