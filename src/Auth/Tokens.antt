-- ===== src/Auth/Tokens.antt =====
-- app/modules/auth/infrastructure/providers/auth/jwt/manager.py: the tokens of a user.
--
-- PyJWT is a parameter: `encode` signs a payload, and `decode` answers with a payload or with one
-- of the two kinds of exceptions that the manager tells apart. A payload has the keys that the
-- manager writes, each of which may be missing. Times are whole seconds: PyJWT keeps no parts.
use self_learning_trading_ag.Base.{
  ℕ, ◌+◌, ◌*◌, ◌-◌, ◌<◌, ◌≤◌, ◌≡◌, ap, ◌∙◌, refl, Bool, false, Option, none, some, Text, text,
  text_eq, Except, ok, raise, if◌then◌else◌,
}
use self_learning_trading_ag.Core.Errors.{DomainError, authentication}
use self_learning_trading_ag.Auth.Entities.{
  Role, viewer, analyst, admin, role_value, parse_role, User, TokenPair, TokenClaims,
}

pub record Payload : Type 0 where
  pub sub : Option Text
  pub role : Option Text
  pub type : Option Text
  pub iat : Option ℕ
  pub exp : Option ℕ
  pub jti : Option Text

-- What decoding a token can raise.
pub data TokenFault : Type 0 where
  expired_signature invalid_token : TokenFault

-- PyJWT, for one secret and algorithm. A token that `encode` made is decoded to its payload as
-- long as it is not from the future and has not expired.
pub record Jwt : Type 1 where
  pub Token : Type 0
  pub encode : Payload → Token
  pub decode : (now : ℕ) → Token → Except TokenFault Payload
  pub decode-encode :
      (now : ℕ) (p : Payload) (i e : ℕ)
      → p.iat ≡ some i
      → p.exp ≡ some e
      → i ≤ now
      → now < e
      → decode now (encode p) ≡ ok p

-- `AuthenticationError(message, provider="jwt")`
abbrev pub refusal : Text → DomainError
refusal message = record { class = authentication; message = message; provider = some (text "jwt") }

-- `JwtTokenManager`, with the text of an id.
pub record Manager : Type 1 where
  pub jwt : Jwt
  pub access_ttl_min : ℕ
  pub refresh_ttl_days : ℕ
  pub show_id : ℕ → Text

-- `payload.get("type") != expected`
abbrev pub is_type : Option Text → Text → Bool
is_type none expected = false
is_type (some t) expected = text_eq t expected

-- The reading of the claims, with its `except (KeyError, ValueError)`.
unfoldable pub read_claims : Text → Payload → Except DomainError TokenClaims
read_claims expected p = elim p.sub [
  | none ↦ raise (refusal (text "token_claims_malformed"))
  | some subject ↦ elim p.role [
    | none ↦ raise (refusal (text "token_claims_malformed"))
    | some r ↦ elim (parse_role r) [
      | none ↦ raise (refusal (text "token_claims_malformed"))
      | some role ↦ elim p.exp [
        | none ↦ raise (refusal (text "token_claims_malformed"))
        | some e ↦
            ok (record { subject = subject; role = role; token_type = expected; expires_at = e })
      ]
    ]
  ]
]

-- `_verify` of a decoded token.
unfoldable pub check : Text → Except TokenFault Payload → Except DomainError TokenClaims
check expected (raise expired_signature) = raise (refusal (text "token_expired"))
check expected (raise invalid_token) = raise (refusal (text "token_invalid"))
check expected (ok p) =
    if is_type p.type expected
    then read_claims expected p
    else raise (refusal (text "token_type_mismatch"))

module _ (m : Manager) where
  -- The payload of the access token.
  abbrev pub access_payload : ℕ → User → Payload
  access_payload now user = record {
    sub = some (m.show_id user.id);
    role = some (role_value user.role);
    type = some (text "access");
    iat = some now;
    exp = some (now + m.access_ttl_min * 60);
    jti = none;
  }

  -- The payload of the refresh token, with the number that `uuid4` gives.
  abbrev pub refresh_payload : (now uuid : ℕ) → User → Payload
  refresh_payload now uuid user = record {
    sub = some (m.show_id user.id);
    role = none;
    type = some (text "refresh");
    iat = some now;
    exp = some (now + m.refresh_ttl_days * 86400);
    jti = some (m.show_id uuid);
  }

  -- `issue`
  unfoldable pub issue : (now uuid : ℕ) → User → TokenPair m.jwt.Token
  issue now uuid user = record {
    access_token = m.jwt.encode (access_payload now user);
    refresh_token = m.jwt.encode (refresh_payload now uuid user);
    expires_in_sec = now + m.access_ttl_min * 60 - now;
  }

  -- `_verify`
  unfoldable pub verify : Text → ℕ → m.jwt.Token → Except DomainError TokenClaims
  verify expected now token = check expected (m.jwt.decode now token)

  -- `verify_access` and `verify_refresh`
  unfoldable pub verify_access : ℕ → m.jwt.Token → Except DomainError TokenClaims
  verify_access = verify (text "access")

  unfoldable pub verify_refresh : ℕ → m.jwt.Token → Except DomainError TokenClaims
  verify_refresh = verify (text "refresh")

  check-access_payload :
      (now : ℕ) (user : User)
      → check (text "access") (ok (access_payload now user))
        ≡ ok (record {
          subject = m.show_id user.id;
          role = user.role;
          token_type = text "access";
          expires_at = now + m.access_ttl_min * 60;
        })
  unfolding check read_claims text_eq parse_role role_value
  check-access_payload now user = by_role user.role
    where
      by_role :
          (r : Role)
          → check (text "access") (
              ok (record {
                sub = some (m.show_id user.id);
                role = some (role_value r);
                type = some (text "access");
                iat = some now;
                exp = some (now + m.access_ttl_min * 60);
                jti = none;
              }))
            ≡ ok (record {
              subject = m.show_id user.id;
              role = r;
              token_type = text "access";
              expires_at = now + m.access_ttl_min * 60;
            })
      by_role viewer = refl
      by_role analyst = refl
      by_role admin = refl

  -- What the access token of a user is decoded to before it expires.
  decode-access :
      (now uuid later : ℕ) (user : User)
      → now ≤ later
      → later < now + m.access_ttl_min * 60
      → m.jwt.decode later (issue now uuid user).access_token ≡ ok (access_payload now user)
  unfolding issue
  decode-access now uuid later user g h =
      m.jwt.decode-encode later (access_payload now user) now (now + m.access_ttl_min * 60) refl
        refl g h

  decode-refresh :
      (now uuid later : ℕ) (user : User)
      → now ≤ later
      → later < now + m.refresh_ttl_days * 86400
      → m.jwt.decode later (issue now uuid user).refresh_token ≡ ok (refresh_payload now uuid user)
  unfolding issue
  decode-refresh now uuid later user g h =
      m.jwt.decode-encode later (refresh_payload now uuid user) now
        (now + m.refresh_ttl_days * 86400) refl refl g h

  -- An access token is accepted for its user and role from its issue until it expires, and never
  -- as a refresh token.
  pub verify_access-issue :
      (now uuid later : ℕ) (user : User)
      → now ≤ later
      → later < now + m.access_ttl_min * 60
      → (verify_access later (issue now uuid user).access_token
          ≡ ok (record {
            subject = m.show_id user.id;
            role = user.role;
            token_type = text "access";
            expires_at = now + m.access_ttl_min * 60;
          }))
        × (verify_refresh later (issue now uuid user).access_token
            ≡ raise (refusal (text "token_type_mismatch")))
  unfolding verify_access verify_refresh verify check text_eq
  verify_access-issue now uuid later user g h = (
    ap (check (text "access")) (decode-access now uuid later user g h)
        ∙ check-access_payload now user,
    ap (check (text "refresh")) (decode-access now uuid later user g h),
  )

  -- A refresh token is accepted neither as an access token nor, for want of a role, as a refresh
  -- token.
  pub verify_refresh-issue :
      (now uuid later : ℕ) (user : User)
      → now ≤ later
      → later < now + m.refresh_ttl_days * 86400
      → (verify_refresh later (issue now uuid user).refresh_token
          ≡ raise (refusal (text "token_claims_malformed")))
        × (verify_access later (issue now uuid user).refresh_token
            ≡ raise (refusal (text "token_type_mismatch")))
  unfolding verify_access verify_refresh verify check read_claims text_eq
  verify_refresh-issue now uuid later user g h = (
    ap (check (text "refresh")) (decode-refresh now uuid later user g h),
    ap (check (text "access")) (decode-refresh now uuid later user g h),
  )
