-- ===== src/Auth/Repositories/Keys.antt =====
-- app/modules/auth/infrastructure/stores/postgres_repos.py: the API keys.
use self_learning_trading_ag.Base.{
  ℕ, ◌≡◌, refl, arith, text_eq_refl, ◌/◌, ◌*◌, Bool, false, ◌||◌, Option, none, some, List, [], ◌∷◌,
  ◌++◌, Text, text_eq, Except, ok, raise, ◌==◌, if◌then◌else◌,
}
use self_learning_trading_ag.Auth.Entities.{ApiKey}
use self_learning_trading_ag.Auth.Repositories.{
  ApiKeyRow, StoreError, integrity_error, flag, is_set,
}

abbrev pub Table : Type 0
Table = List ApiKeyRow

-- `_to_domain`; a row keeps whole seconds.
unfoldable pub to_domain : ApiKeyRow → ApiKey
to_domain r = record {
  id = r.id;
  user_id = r.user_id;
  key_prefix = r.key_prefix;
  hashed_key = r.hashed_key;
  created_at = r.created_at * 1000000;
  revoked = is_set r.revoked;
}

-- The row of a key.
unfoldable pub to_row : ApiKey → ApiKeyRow
to_row k = record {
  id = k.id;
  user_id = k.user_id;
  key_prefix = k.key_prefix;
  hashed_key = k.hashed_key;
  created_at = k.created_at / 1000000;
  revoked = flag k.revoked;
}

unfoldable pub find_prefix : Text → Table → Option ApiKeyRow
find_prefix prefix [] = none
find_prefix prefix (r ∷ rs) = if text_eq r.key_prefix prefix then some r else find_prefix prefix rs

-- `find_by_prefix`
unfoldable pub find_by_prefix : Text → Table → Option ApiKey
find_by_prefix prefix t = elim (find_prefix prefix t) [ none ↦ none | some r ↦ some (to_domain r) ]

-- Whether the id or the prefix of a new row is taken.
unfoldable pub is_taken : ApiKeyRow → Table → Bool
is_taken r [] = false
is_taken r (x ∷ xs) = (x.id == r.id) || text_eq x.key_prefix r.key_prefix || is_taken r xs

-- `save`, which adds a row.
unfoldable pub save : ApiKey → Table → Except StoreError Table
save k t = if is_taken (to_row k) t then raise integrity_error else ok (t ++ (to_row k ∷ []))

-- `revoke`
unfoldable pub revoke : ℕ → Table → Table
revoke id [] = []
revoke id (r ∷ rs) = if r.id == id then record r { revoked = 1 } ∷ rs else r ∷ revoke id rs

-- `list_by_user`
unfoldable pub list_by_user : ℕ → Table → List ApiKey
list_by_user user_id [] = []
list_by_user user_id (r ∷ rs) =
    let rest = list_by_user user_id rs in if r.user_id == user_id then to_domain r ∷ rest else rest

-- The row with an id.
unfoldable pub find_key_id : ℕ → Table → Option ApiKeyRow
find_key_id id [] = none
find_key_id id (r ∷ rs) = if r.id == id then some r else find_key_id id rs

pub is_taken-fresh :
    (r : ApiKeyRow) (t : Table)
    → find_key_id r.id t ≡ none
    → find_prefix r.key_prefix t ≡ none
    → is_taken r t ≡ false
unfolding is_taken find_key_id find_prefix
is_taken-fresh r [] a b = refl
is_taken-fresh r (x ∷ xs) a b = ground (arith, is_taken-fresh r xs)

pub find_prefix-append :
    (r : ApiKeyRow) (t : Table)
    → find_prefix r.key_prefix t ≡ none
    → find_prefix r.key_prefix (t ++ (r ∷ [])) ≡ some r
unfolding find_prefix
find_prefix-append r [] h = rw (text_eq_refl r.key_prefix) refl
find_prefix-append r (x ∷ xs) h = ground (arith, find_prefix-append r xs)

-- Revoking the last row, whose id no other row has.
pub revoke-append :
    (r : ApiKeyRow) (t : Table)
    → find_key_id r.id t ≡ none
    → revoke r.id (t ++ (r ∷ [])) ≡ t ++ (record r { revoked = 1 } ∷ [])
unfolding revoke find_key_id
revoke-append r [] h = ground arith
revoke-append r (x ∷ xs) h = ground (arith, revoke-append r xs)
