-- ===== src/Auth/Entities.antt =====
-- app/modules/auth/domain/entities.py. A UUID is a number, a datetime a number of microseconds.
use self_learning_trading_ag.Base.{
  ℕ, ◌≡◌, refl, Bool, false, Option, none, some, Text, text, text_eq, if◌then◌else◌,
}

pub data Role : Type 0 where
  viewer analyst admin : Role

-- The value of a role.
unfoldable pub role_value : Role → Text
role_value viewer = text "viewer"
role_value analyst = text "analyst"
role_value admin = text "admin"

-- `Role(value)`; `none` is the `ValueError`.
unfoldable pub parse_role : Text → Option Role
parse_role s =
    if text_eq s (text "viewer")
    then some viewer
    else if text_eq s (text "analyst")
    then some analyst
    else if text_eq s (text "admin")
    then some admin
    else none

pub parse_role-role_value : (r : Role) → parse_role (role_value r) ≡ some r
unfolding parse_role role_value text_eq
parse_role-role_value viewer = refl
parse_role-role_value analyst = refl
parse_role-role_value admin = refl

pub record User : Type 0 where
  pub id : ℕ
  pub username : Text
  pub password_hash : Text
  pub role : Role
  pub disabled : Bool

pub record ApiKey : Type 0 where
  pub id : ℕ
  pub user_id : ℕ
  pub key_prefix : Text
  pub hashed_key : Text
  pub created_at : ℕ
  pub revoked : Bool

pub record TokenPair (Token : Type 0) : Type 0 where
  pub access_token : Token
  pub refresh_token : Token
  pub expires_in_sec : ℕ

-- `subject` is what the token carries: the text of an id.
pub record TokenClaims : Type 0 where
  pub subject : Text
  pub role : Role
  pub token_type : Text
  pub expires_at : ℕ

-- `new_user`, with the id that `uuid4` gives.
unfoldable pub new_user : (id : ℕ) (username password_hash : Text) → Role → User
new_user id username password_hash role = record {
  id = id;
  username = username;
  password_hash = password_hash;
  role = role;
  disabled = false;
}
