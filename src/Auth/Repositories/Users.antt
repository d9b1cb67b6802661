-- ===== src/Auth/Repositories/Users.antt =====
-- app/modules/auth/infrastructure/stores/postgres_repos.py: the users.
use self_learning_trading_ag.Base.{
  ℕ, ◌≡◌, refl, Bool, true, false, ◌||◌, Option, none, some, List, [], ◌∷◌, ◌++◌, Text, text_eq,
  text_eq_refl, Except, ok, raise, ◌==◌, if◌then◌else◌, arith,
}
use self_learning_trading_ag.Auth.Entities.{role_value, parse_role, parse_role-role_value, User}
use self_learning_trading_ag.Auth.Repositories.{
  UserRow, StoreError, integrity_error, invalid_role, flag, is_set,
}

abbrev pub Table : Type 0
Table = List UserRow

-- `_to_domain`
unfoldable pub to_domain : UserRow → Except StoreError User
to_domain r = elim (parse_role r.role) [
  | none ↦ raise invalid_role
  | some role ↦ ok (record {
    id = r.id;
    username = r.username;
    password_hash = r.password_hash;
    role = role;
    disabled = is_set r.disabled;
  })
]

-- The row of a user.
unfoldable pub to_row : User → UserRow
to_row u = record {
  id = u.id;
  username = u.username;
  password_hash = u.password_hash;
  role = role_value u.role;
  disabled = flag u.disabled;
}

unfoldable pub find_username : Text → Table → Option UserRow
find_username name [] = none
find_username name (r ∷ rs) = if text_eq r.username name then some r else find_username name rs

unfoldable pub find_user : ℕ → Table → Option UserRow
find_user id [] = none
find_user id (r ∷ rs) = if r.id == id then some r else find_user id rs

-- `self._to_domain(row) if row else None`
unfoldable pub load : Option UserRow → Except StoreError (Option User)
load none = ok none
load (some r) = elim (to_domain r) [ raise e ↦ raise e | ok u ↦ ok (some u) ]

-- `get_by_username` and `get_by_id`
unfoldable pub get_by_username : Text → Table → Except StoreError (Option User)
get_by_username name t = load (find_username name t)

unfoldable pub get_by_id : ℕ → Table → Except StoreError (Option User)
get_by_id id t = load (find_user id t)

-- Whether the id or the name of a new row is taken.
unfoldable pub is_taken : UserRow → Table → Bool
is_taken r [] = false
is_taken r (x ∷ xs) = (x.id == r.id) || text_eq x.username r.username || is_taken r xs

-- `save`, which adds a row.
unfoldable pub save : User → Table → Except StoreError Table
save u t = if is_taken (to_row u) t then raise integrity_error else ok (t ++ (to_row u ∷ []))

pub to_domain-to_row : (u : User) → to_domain (to_row u) ≡ ok u
unfolding to_domain to_row
to_domain-to_row u = by_flag u.disabled
  where
    by_flag :
        (b : Bool) → to_domain (to_row (record u { disabled = b })) ≡ ok (record u { disabled = b })
    by_flag true = rw (parse_role-role_value u.role, to_domain) refl
    by_flag false = rw (parse_role-role_value u.role, to_domain) refl

is_taken-fresh :
    (r : UserRow) (t : Table)
    → find_user r.id t ≡ none
    → find_username r.username t ≡ none
    → is_taken r t ≡ false
unfolding is_taken find_user find_username
is_taken-fresh r [] a b = refl
is_taken-fresh r (x ∷ xs) a b = ground (arith, is_taken-fresh r xs)

-- The row that `save` adds is found under its name, if no other row was.
pub find_username-append :
    (r : UserRow) (t : Table)
    → find_username r.username t ≡ none
    → find_username r.username (t ++ (r ∷ [])) ≡ some r
unfolding find_username
find_username-append r [] h = rw (text_eq_refl r.username) refl
find_username-append r (x ∷ xs) h = ground (arith, find_username-append r xs)

-- A user with a new id and a new name is saved, and is then found under the name.
pub save-fresh :
    (u : User) (t : Table)
    → find_user u.id t ≡ none
    → find_username u.username t ≡ none
    → (save u t ≡ ok (t ++ (to_row u ∷ [])))
      × (get_by_username u.username (t ++ (to_row u ∷ [])) ≡ ok (some u))
unfolding save get_by_username load to_row
save-fresh u t a b = (
  rw (is_taken-fresh (to_row u) t a b, save) refl,
  rw (find_username-append (to_row u) t b) (rw (to_domain-to_row u, load) refl),
)
