-- ===== src/Auth/Laws.antt =====
-- What registration, login and the tokens promise together.
use self_learning_trading_ag.Base.{
  ℕ, ◌+◌, ◌*◌, ◌≤◌, ◌<◌, ◌≡◌, refl, Bool, true, false, Option, none, some, Text, text, Except, ok,
  if◌then◌else◌,
}
use self_learning_trading_ag.Core.Result.{Result, ok_result, err_result}
use self_learning_trading_ag.Core.Errors.{DomainError}
use self_learning_trading_ag.Auth.Entities.{User}
use self_learning_trading_ag.Auth.Tokens.{
  Manager, issue, refusal, verify_refresh-issue, verify_access-issue,
}
use self_learning_trading_ag.Auth.Repositories.{StoreError}
use self_learning_trading_ag.Auth.Repositories.Users as Users
use self_learning_trading_ag.Auth.Service.{PasswordHasher, active, refresh, resolve, failed}

-- What the token of a user resolves to, by what the store finds under the user's id.
pub data Resolved : Option User → Except StoreError (Result User DomainError) → Type 0 where
  missing : Resolved none (ok (err_result (failed (text "user_disabled"))))
  turned_off :
      {u : User}
      → u.disabled ≡ true
      → Resolved (some u) (ok (err_result (failed (text "user_disabled"))))
  found_on : {u : User} → u.disabled ≡ false → Resolved (some u) (ok (ok_result u))

module _ (h : PasswordHasher) (m : Manager) where
  -- A refresh token never renews anything: it is refused as malformed for as long as it is valid,
  -- whatever the users are.
  pub refresh-issue :
      (get_by_id : Text → Except StoreError (Option User)) (now uuid later uuid' : ℕ) (user : User)
      → now ≤ later
      → later < now + m.refresh_ttl_days * 86400
      → refresh h m get_by_id later uuid' (issue m now uuid user).refresh_token
        ≡ ok (err_result (refusal (text "token_claims_malformed")))
  unfolding refresh
  refresh-issue get_by_id now uuid later uuid' user a b =
      rw ((verify_refresh-issue m now uuid later user a b).0, refresh) refl

  -- Until it expires, the access token of a user resolves to what is stored under the user's id now:
  -- the stored user if it is not disabled, and the error `user_disabled` if it is disabled or if
  -- there is none.
  pub resolve-issue :
      (get_by_id : Text → Except StoreError (Option User)) (now uuid later : ℕ) (user : User)
      → (found : Option User) → now ≤ later
      → later < now + m.access_ttl_min * 60
      → get_by_id (m.show_id user.id) ≡ ok found
      → Resolved found (resolve h m get_by_id later (issue m now uuid user).access_token)
  unfolding resolve active
  resolve-issue get_by_id now uuid later user none a b e =
      rw ((verify_access-issue m now uuid later user a b).0, resolve, e) missing
  resolve-issue get_by_id now uuid later user (some u) a b e =
      rw ((verify_access-issue m now uuid later user a b).0, resolve, e)
        (by_disabled u.disabled refl)
    where
      by_disabled :
          (d : Bool)
          → u.disabled ≡ d
          → Resolved (some u) (elim (if d then none else some u) [
            | none ↦ ok (err_result (failed (text "user_disabled")))
            | some v ↦ ok (ok_result v)
          ])
      by_disabled true off = turned_off off
      by_disabled false on = found_on on
